-- ===== src/Engine/Escalation/Examples.antt =====
-- The escalation engine on concrete commands.
use systematic_trading_valid.Common.{
  List, [], any, false, nat_eq, none, pair_eq, refl, true, ◌||◌, ◌∷◌, ◌≡◌,
}
use systematic_trading_valid.Common.Text.{text, text_eq}
use systematic_trading_valid.Engine.Escalation.{
  Level, Order, entry_gate_halt, fresh, global_flatten_and_halt, level_eq, nominal, run, transition,
}
use systematic_trading_valid.Engine.Escalation.Latch.{Command}
use systematic_trading_valid.Engine.Escalation.Scope.{is_global, shutdown_latches}

abbrev level_order : Level → Order
level_order l = record { new_level = l; scope = []; strategy = none; symbol = none; by = [] }

abbrev halt_then_clear : List Order
halt_then_clear =
    level_order entry_gate_halt ∷ level_order global_flatten_and_halt ∷ level_order nominal ∷ []

-- De-escalated to NOMINAL, the engine stays shut down.
still_shut :
    ((run fresh halt_then_clear).level ≡ nominal)
    × ((run fresh halt_then_clear).engine_shutdown_latched ≡ true)
unfolding run transition
still_shut = (refl, refl)

abbrev kill : Command
kill = record { command_id = 1; command_type = text "FLATTEN_AND_HALT" }

shutdown_latches_example :
    (run fresh halt_then_clear).engine_shutdown_latched ≡ (false || any is_global halt_then_clear)
shutdown_latches_example = shutdown_latches fresh halt_then_clear

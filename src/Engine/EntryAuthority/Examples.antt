-- ===== src/Engine/EntryAuthority/Examples.antt =====
-- The gate on a context where two gates are closed.
use systematic_trading_valid.Common.{false, nat_eq, pair_eq, refl, some, true, ◌≡◌}
use systematic_trading_valid.Common.Text.{text, text_eq}
use systematic_trading_valid.Engine.EntryAuthority.{
  EntryContext, blocked, entry_allowed, portfolio_halt,
}
use systematic_trading_valid.Engine.EntryAuthority.Precedence.{
  Decides, first_block_wins, precedence,
}

abbrev halted : EntryContext
halted = record {
  action = some (text "LONG");
  preemption_flatten_portfolio = false;
  preemption_blocks_strategy = false;
  portfolio_halted = true;
  strategy_halted = false;
  capital_gate_block_new_entries = true;
  degradation_block_new_entries = false;
  safe_mode = false;
  commissioning_gate_blocked = false;
  force_liquidation = false;
  pre_flight_recon_locked = false;
  risk_halted = false;
}

halted_blocked : entry_allowed halted ≡ blocked portfolio_halt
unfolding entry_allowed
halted_blocked = refl

-- An exit passes the capital gate.
exit_passes :
    (entry_allowed
      (record halted { action = some (text "EXIT"); portfolio_halted = false })).allowed
    ≡ true
unfolding entry_allowed
exit_passes = refl

first_block_wins_example : Decides halted precedence (entry_allowed halted)
first_block_wins_example = first_block_wins halted

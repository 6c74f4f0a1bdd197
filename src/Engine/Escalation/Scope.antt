-- ===== src/Engine/Escalation/Scope.antt =====
-- What each level of escalation blocks and preempts, and what no transition undoes.
use systematic_trading_valid.Common.{
  Bool, List, Option, [], any, arith, false, nat_eq, none, not, refl, some, true, ◌&&◌, ◌==◌, ◌||◌,
  ◌∷◌, ◌≡◌, ◌≢◌,
}
use systematic_trading_valid.Common.Text.{Text, text_beq_iff, text_eq}
use systematic_trading_valid.Engine.Escalation.{
  Order, Snapshot, blocks_entries_for_strategy, fresh, global_flatten_and_halt, level_eq,
  requires_preemption, run, should_flatten_portfolio, strategy_liquidate, transition,
}
use systematic_trading_valid.Engine.Escalation.Latch.{
  Command, Latch, arm_command, arm_flatten_and_halt, clear_preemption_arm, should_preempt,
}

abbrev pub is_global : Order → Bool
is_global o = o.new_level == global_flatten_and_halt

-- The shutdown latch after any transitions is set exactly if it was set before or one of them was
-- GLOBAL_FLATTEN_AND_HALT: no later transition, to NOMINAL or elsewhere, clears it.
pub shutdown_latches :
    (s : Snapshot) (os : List Order)
    → (run s os).engine_shutdown_latched ≡ (s.engine_shutdown_latched || any is_global os)
unfolding run transition
shutdown_latches s [] = ground arith
shutdown_latches s (o ∷ os) = ground (arith, shutdown_latches (transition s o) os)

-- A snapshot commands liquidation exactly at the global level, and then has latched the shutdown.
pub record IsCoherent (s : Snapshot) : Type 0 where
  pub liquidates : s.portfolio_liquidation_commanded ≡ (s.level == global_flatten_and_halt)
  pub shuts_down : s.level ≡ global_flatten_and_halt → s.engine_shutdown_latched ≡ true

transition-IsCoherent : (s : Snapshot) (o : Order) → IsCoherent (transition s o)
unfolding transition
transition-IsCoherent s o = ground arith

run-IsCoherent : (s : Snapshot) (os : List Order) → IsCoherent s → IsCoherent (run s os)
unfolding run
run-IsCoherent s [] h = h
run-IsCoherent s (o ∷ os) h = run-IsCoherent (transition s o) os (transition-IsCoherent s o)

-- The portfolio is flattened exactly while the level of the last transition is the global one, and
-- the engine's shutdown is latched whenever it is.
pub flatten_iff_global :
    (os : List Order)
    → (should_flatten_portfolio (run fresh os) ≡ ((run fresh os).level == global_flatten_and_halt))
      × ((should_flatten_portfolio (run fresh os) && not (run fresh os).engine_shutdown_latched)
          ≡ false)
unfolding should_flatten_portfolio
flatten_iff_global os = ground (arith, run-IsCoherent fresh os (ground arith))

-- A liquidation of one named strategy, with no symbol, blocks entries and preempts the cycle of that
-- strategy, and of no other strategy, and it does not flatten the portfolio.
pub liquidation_scope :
    (l : Latch) (command : Command) (scope a b : Text)
    → a ≢ []
    → let l' = arm_command l command strategy_liquidate scope (some a) none in
      (should_preempt l' (some b) none ≡ (a == b))
      × (blocks_entries_for_strategy l'.escalation b ≡ (a == b))
      × (should_flatten_portfolio l'.escalation ≡ false)
unfolding arm_command should_preempt requires_preemption blocks_entries_for_strategy
    should_flatten_portfolio transition
liquidation_scope l command scope [] b h = absurd (h refl)
liquidation_scope l command scope (c ∷ a) [] h = ground arith
liquidation_scope l command scope (c ∷ a) (d ∷ b) h =
    ground (arith, text_beq_iff a b, text_beq_iff b a)

-- Arming the latch with GLOBAL_FLATTEN_AND_HALT preempts the cycle of every strategy and symbol,
-- until the arm is cleared.
pub flatten_preempts_all :
    (l : Latch) (command : Command) (strategy symbol : Option Text)
    → (should_preempt (arm_flatten_and_halt l command) strategy symbol ≡ true)
      × (should_preempt (clear_preemption_arm (arm_flatten_and_halt l command)) strategy symbol
          ≡ false)
unfolding arm_flatten_and_halt should_preempt requires_preemption clear_preemption_arm transition
flatten_preempts_all l command strategy symbol = ground arith

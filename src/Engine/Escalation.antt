-- ===== src/Engine/Escalation.antt =====
-- src/engine/engine_preemption.py: the risk escalation engine and the preemption latch. The locks
-- make each method atomic, so a method is a function from state to state. The asyncio event and its
-- loop are two flags and the number of the wake-ups scheduled; log lines are left out.
pub mod Latch
pub mod Scope
mod Examples
use systematic_trading_valid.Common.{
  Bool, Eq, List, Option, [], arith, beq_iff, contains, false, if◌then◌else◌, is_some, nat_beq,
  nat_eq, none, not, some, true, ℕ, ◌&&◌, ◌==◌, ◌||◌, ◌↔◌, ◌∷◌, ◌≡◌,
}
use systematic_trading_valid.Common.Text.{Text, text, text_eq, upper}

pub data Level : Type 0 where
  nominal entry_gate_halt strategy_liquidate global_flatten_and_halt : Level

abbrev level_number : Level → ℕ
level_number nominal = 0
level_number entry_gate_halt = 1
level_number strategy_liquidate = 2
level_number global_flatten_and_halt = 3

abbrev pub level_beq : Level → Level → Bool
level_beq a b = nat_beq (level_number a) (level_number b)

pub level_beq_iff : (a b : Level) → (level_beq a b ≡ true) ↔ (a ≡ b)
level_beq_iff a b = ground arith

instance abbrev pub level_eq : Eq Level
level_eq = record { same = level_beq; same_iff = level_beq_iff }

abbrev pub preempts_in_flight_cycle : Level → Bool
preempts_in_flight_cycle l = contains l (strategy_liquidate ∷ global_flatten_and_halt ∷ [])

abbrev pub commands_portfolio_liquidation : Level → Bool
commands_portfolio_liquidation l = l == global_flatten_and_halt

pub record Snapshot : Type 0 where
  pub level : Level
  pub scope_key : Text
  pub strategy_id : Option Text
  pub symbol : Option Text
  pub portfolio_liquidation_commanded : Bool
  pub engine_shutdown_latched : Bool
  pub commanded_by : Text

-- `RiskEscalationEngine.__init__`
abbrev pub fresh : Snapshot
fresh = record {
  level = nominal;
  scope_key = text "GLOBAL";
  strategy_id = none;
  symbol = none;
  portfolio_liquidation_commanded = false;
  engine_shutdown_latched = false;
  commanded_by = text "system";
}

-- `x or default`, on text
abbrev pub or_else : Text → Text → Text
or_else [] d = d
or_else (c ∷ s) d = c ∷ s

-- `f(x) if x else None`: an empty text is no value.
abbrev pub some_text : (Text → Text) → Option Text → Option Text
some_text f none = none
some_text f (some []) = none
some_text f (some (c ∷ s)) = some (f (c ∷ s))

-- The arguments of a transition.
pub record Order : Type 0 where
  pub new_level : Level
  pub scope : Text
  pub strategy : Option Text
  pub symbol : Option Text
  pub by : Text

unfoldable pub transition : Snapshot → Order → Snapshot
transition prior o = record {
  level = o.new_level;
  scope_key = or_else o.scope (text "GLOBAL");
  strategy_id = some_text (λ s. s) o.strategy;
  symbol = some_text upper o.symbol;
  portfolio_liquidation_commanded = commands_portfolio_liquidation o.new_level;
  engine_shutdown_latched =
      if o.new_level == global_flatten_and_halt then true else prior.engine_shutdown_latched;
  commanded_by = or_else o.by (text "system");
}

unfoldable pub should_flatten_portfolio : Snapshot → Bool
should_flatten_portfolio s =
    (s.level == global_flatten_and_halt) || s.portfolio_liquidation_commanded

-- `snap.strategy_id == strategy_id`, where the field may be `None`
abbrev pub names : Option Text → Text → Bool
names none t = false
names (some s) t = s == t

unfoldable pub blocks_entries_for_strategy : Snapshot → Text → Bool
blocks_entries_for_strategy s strategy =
    if s.level == nominal
    then false
    else if s.level == strategy_liquidate
    then names s.strategy_id strategy
    else contains s.level (entry_gate_halt ∷ global_flatten_and_halt ∷ [])

unfoldable pub blocks_all_entries : Snapshot → Bool
blocks_all_entries s = contains s.level (entry_gate_halt ∷ global_flatten_and_halt ∷ [])

-- `a and b and a == b`, where `a` is an argument and `b` a field
abbrev pub both_name : Option Text → Option Text → Bool
both_name (some (c ∷ s)) (some (d ∷ t)) = (c ∷ s) == (d ∷ t)
both_name _ _ = false

-- `a and b and a.upper() == b`
abbrev pub both_name_upper : Option Text → Option Text → Bool
both_name_upper (some (c ∷ s)) (some (d ∷ t)) = upper (c ∷ s) == (d ∷ t)
both_name_upper _ _ = false

unfoldable pub requires_preemption : Snapshot → Option Text → Option Text → Bool
requires_preemption s strategy symbol =
    if s.level == global_flatten_and_halt
    then true
    else if not (s.level == strategy_liquidate)
    then false
    else if both_name strategy s.strategy_id
    then true
    else if both_name_upper symbol s.symbol
    then true
    else if not (is_some s.strategy_id) && not (is_some s.symbol)
    then true
    else false

-- The level after a list of transitions.
unfoldable pub run : Snapshot → List Order → Snapshot
run s [] = s
run s (o ∷ os) = run (transition s o) os

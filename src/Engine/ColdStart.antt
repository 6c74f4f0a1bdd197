-- ===== src/Engine/ColdStart.antt =====
-- src/engine/cold_start_gate.py: the gate that a leg passes before it may enter positions. Both clocks, the wall
-- clock and the monotonic one, are arguments; scales are in hundredths. The policies that are read
-- from parameters, the log lines and the telemetry are left out.
pub mod Entries
pub mod Progress
pub mod Scales
pub mod Freshness
pub mod Clock
mod Examples
use systematic_trading_valid.Common.{
  Bool, List, Option, [], false, if◌then◌else◌, nat_eq, none, not, or_default, pair_eq, some, true,
  ℕ, ◌&&◌, ◌+◌, ◌-◌, ◌∷◌,
}
use systematic_trading_valid.Common.Int.{ℤ}
use systematic_trading_valid.Common.Text.{Text, text, text_eq, upper}
use systematic_trading_valid.Common.Dict.{Dict, insert, lookup}

pub data Policy : Type 0 where
  high_availability fail_safe_close : Policy

pub data GateState : Type 0 where
  pending pending_blocked heuristic_parity stabilized_verified stale_reverify : GateState
  bypass_override : GateState

abbrev pub state_value : GateState → Text
state_value pending = text "PENDING"
state_value pending_blocked = text "PENDING_BLOCKED"
state_value heuristic_parity = text "HEURISTIC_PARITY"
state_value stabilized_verified = text "STABILIZED_VERIFIED"
state_value stale_reverify = text "STALE_REVERIFY"
state_value bypass_override = text "BYPASS_OVERRIDE"

pub record Config : Type 0 where
  pub max_wait : ℕ
  pub max_bar_age : ℕ
  pub heuristic_scale : ℕ
  pub bypass_scale : ℕ

pub record Stream : Type 0 where
  pub latest_bar : Option ℕ
  pub prior_bar : Option ℕ
  pub latest_volume : ℤ
  pub prior_volume : ℤ
  pub bar_count : ℕ

pub record Transition : Type 0 where
  pub leg : Text
  pub prior_state : GateState
  pub new_state : GateState
  pub reason : Text
  pub lag : Option ℕ
  pub elapsed : ℕ
  pub aligned : Bool
  pub intact : Bool

-- `ColdStartGateEngine`
pub record Gate : Type 0 where
  pub config : Config
  pub states : Dict Text GateState
  pub policies : Dict Text Policy
  pub symbols : Dict Text Text
  pub started : Option ℕ
  pub paused_accumulated : ℕ
  pub paused_since : Option ℕ
  pub transitions : Dict Text Transition
  pub suppression_logged : List (Text × Text)
  pub stale_warned : List Text

abbrev pub new_gate : Config → Gate
new_gate c = record {
  config = c;
  states = [];
  policies = [];
  symbols = [];
  started = none;
  paused_accumulated = 0;
  paused_since = none;
  transitions = [];
  suppression_logged = [];
  stale_warned = [];
}

abbrev pub policy_of : Gate → Text → Policy
policy_of g s = or_default fail_safe_close (lookup s g.policies)

abbrev pub state_of : Gate → Text → GateState
state_of g s = or_default pending (lookup s g.states)

unfoldable set_policy : Text → Policy → Gate → Gate
set_policy s p g = record g { policies = insert s p g.policies }

unfoldable set_symbol : Text → Text → Gate → Gate
set_symbol s symbol g = record g { symbols = insert s (upper symbol) g.symbols }

abbrev symbols_with : Option Text → Text → Dict Text Text → Dict Text Text
symbols_with none s d = d
symbols_with (some symbol) s d = insert s (upper symbol) d

abbrev pub enter_legs : List Text → Dict Text Policy → Dict Text Text → Gate → Gate
enter_legs [] policies symbols g = g
enter_legs (s ∷ ss) policies symbols g = enter_legs ss policies symbols (record g {
  states = insert s pending g.states;
  policies = insert s (or_default fail_safe_close (lookup s policies)) g.policies;
  symbols = symbols_with (lookup s symbols) s g.symbols;
})

-- The time that was paused before stays accumulated.
unfoldable pub begin_cold_start : ℕ → List Text → Dict Text Policy → Dict Text Text → Gate → Gate
begin_cold_start mono legs policies symbols g =
    enter_legs legs policies symbols (record g {
      started = some mono;
      transitions = [];
      suppression_logged = [];
      stale_warned = [];
    })

abbrev pub open_pause : Option ℕ → ℕ → ℕ
open_pause none mono = 0
open_pause (some since) mono = mono - since

abbrev elapsed_from : Option ℕ → ℕ → ℕ → ℕ
elapsed_from none paused mono = 0
elapsed_from (some start) paused mono = mono - start - paused

unfoldable pub elapsed_seconds : Gate → ℕ → ℕ
elapsed_seconds g mono =
    elapsed_from g.started (g.paused_accumulated + open_pause g.paused_since mono) mono

abbrev pub pause_at : Option ℕ → ℕ → Option ℕ
pause_at none mono = some mono
pause_at (some since) mono = some since

abbrev pause_time_bound_progression : ℕ → Gate → Gate
pause_time_bound_progression mono g = record g { paused_since = pause_at g.paused_since mono }

abbrev resume_time_bound_progression : ℕ → Gate → Gate
resume_time_bound_progression mono g = record g {
  paused_accumulated = g.paused_accumulated + open_pause g.paused_since mono;
  paused_since = none;
}

unfoldable pub set_readiness : ℕ → Bool → Gate → Gate
set_readiness mono readiness_ok g =
    if readiness_ok
    then resume_time_bound_progression mono g
    else pause_time_bound_progression mono g

abbrev pub is_pending : GateState → Bool
is_pending pending = true
is_pending pending_blocked = true
is_pending heuristic_parity = false
is_pending stabilized_verified = false
is_pending stale_reverify = false
is_pending bypass_override = false

abbrev pub is_verified : GateState → Bool
is_verified stabilized_verified = true
is_verified pending = false
is_verified pending_blocked = false
is_verified heuristic_parity = false
is_verified stale_reverify = false
is_verified bypass_override = false

abbrev all_states : (GateState → Bool) → Dict Text GateState → Bool
all_states p [] = true
all_states p ((s, st) ∷ d) = p st && all_states p d

abbrev has_states : Dict Text GateState → Bool
has_states [] = false
has_states (e ∷ d) = true

unfoldable operational_gate_cleared : Gate → Bool
operational_gate_cleared g = has_states g.states && all_states (λ st. not (is_pending st)) g.states

unfoldable fully_verified : Gate → Bool
fully_verified g = has_states g.states && all_states is_verified g.states

-- ===== src/Lifecycle/StateMachine.antt =====
-- src/lifecycle/state_machine.py. A leg is named by a number, since ids are only compared; the
-- report sink is the list of the reports that it has received, oldest first.
pub mod Moves
pub mod Histories
mod Examples
use systematic_trading_valid.Common.{
  Bool, Eq, List, Result, [], arith, beq_iff, contains, err, false, if◌then◌else◌, nat_beq, nat_eq,
  not, ok, true, ℕ, ◌&&◌, ◌++◌, ◌+◌, ◌==◌, ◌↔◌, ◌∷◌, ◌≡◌,
}
use systematic_trading_valid.Common.Text.{Text, text, text_eq}

pub data LifecycleState : Type 0 where
  candidate validated paper active watch safe_mode retired : LifecycleState

abbrev state_number : LifecycleState → ℕ
state_number candidate = 0
state_number validated = 1
state_number paper = 2
state_number active = 3
state_number watch = 4
state_number safe_mode = 5
state_number retired = 6

abbrev pub state_beq : LifecycleState → LifecycleState → Bool
state_beq s t = nat_beq (state_number s) (state_number t)

pub state_beq_iff : (s t : LifecycleState) → (state_beq s t ≡ true) ↔ (s ≡ t)
state_beq_iff s t = ground arith

instance abbrev pub state_eq : Eq LifecycleState
state_eq = record { same = state_beq; same_iff = state_beq_iff }

-- The table of the legal transitions.
unfoldable pub legal_transitions : LifecycleState → List LifecycleState
legal_transitions candidate = validated ∷ safe_mode ∷ retired ∷ []
legal_transitions validated = paper ∷ safe_mode ∷ retired ∷ []
legal_transitions paper = active ∷ safe_mode ∷ retired ∷ []
legal_transitions active = watch ∷ safe_mode ∷ retired ∷ []
legal_transitions watch = active ∷ safe_mode ∷ retired ∷ []
legal_transitions safe_mode = retired ∷ []
legal_transitions retired = []

abbrev pub promotion_targets : List LifecycleState
promotion_targets = validated ∷ paper ∷ active ∷ []

-- The sizing factor in hundredths: 0.5 in `watch`, 1.0 elsewhere.
unfoldable pub sizing_factor : LifecycleState → ℕ
sizing_factor watch = 50
sizing_factor _ = 100

-- The report that a transition hands to the sink.
pub record Report : Type 0 where
  pub leg_id : ℕ
  pub from_state : LifecycleState
  pub to_state : LifecycleState
  pub reason : Text
  pub actor : Text
  pub episodes : ℕ

pub record TransitionRecord : Type 0 where
  pub leg_id : ℕ
  pub from_state : LifecycleState
  pub to_state : LifecycleState
  pub reason : Text
  pub actor : Text

pub record Machine : Type 0 where
  pub leg_id : ℕ
  pub state : LifecycleState
  pub episodes : ℕ
  pub reports : List Report

pub data IllegalTransition : Type 0 where
  already_in illegal : IllegalTransition

unfoldable pub new_machine : ℕ → LifecycleState → Machine
new_machine leg s = record { leg_id = leg; state = s; episodes = 0; reports = [] }

unfoldable pub can_transition : LifecycleState → LifecycleState → Text → Bool
unfolding legal_transitions
can_transition from to actor =
    if not (contains to (legal_transitions from))
    then false
    else if (actor == text "operator") && contains to promotion_targets
    then false
    else true

-- `_safe_mode_episodes += 1` on the way into `safe_mode`
abbrev pub episodes_after : LifecycleState → ℕ → ℕ
episodes_after to n = if to == safe_mode then n + 1 else n

unfoldable pub accept : Machine → LifecycleState → Text → Text → Machine
accept m to reason actor =
    let n = episodes_after to m.episodes in
    record m {
      state = to;
      episodes = n;
      reports =
          m.reports
          ++ record {
            leg_id = m.leg_id;
            from_state = m.state;
            to_state = to;
            reason = reason;
            actor = actor;
            episodes = n;
          }
            ∷ [];
    }

unfoldable pub transition :
    Machine → LifecycleState → Text → Text → Machine × Result IllegalTransition TransitionRecord
unfolding accept can_transition
transition m to reason actor =
    if to == m.state
    then (m, err already_in)
    else if not (can_transition m.state to actor)
    then (m, err illegal)
    else (
      accept m to reason actor,
      ok (record {
        leg_id = m.leg_id;
        from_state = m.state;
        to_state = to;
        reason = reason;
        actor = actor;
      }),
    )

-- A request that a client makes of the machine.
pub record Request : Type 0 where
  pub target : LifecycleState
  pub reason : Text
  pub actor : Text

-- A client that goes on after an `IllegalTransition`.
unfoldable pub run : Machine → List Request → Machine
run m [] = m
run m (r ∷ rs) = run (transition m r.target r.reason r.actor).0 rs

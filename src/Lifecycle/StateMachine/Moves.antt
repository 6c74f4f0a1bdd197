-- ===== src/Lifecycle/StateMachine/Moves.antt =====
-- What one transition does: the diagram of the doctrine, and the power of the operator.
use systematic_trading_valid.Common.{
  Bool, Bool-cases, Result, arith, beq_iff, err, false, inl, inr, nat_eq, ok, refl, true, ◌↔◌, ◌≡◌,
  ◌≢◌, ◌⊎◌,
}
use systematic_trading_valid.Common.Text.{Text, text, text_eq}
use systematic_trading_valid.Lifecycle.StateMachine.{
  IllegalTransition, LifecycleState, Machine, TransitionRecord, accept, active, can_transition,
  candidate, paper, retired, safe_mode, state_beq, state_eq, transition, validated, watch,
}

-- Promotions, one rung at a time; `watch` is re-armed to `active`.
pub data Promotes : LifecycleState → LifecycleState → Type 0 where
  validate : Promotes candidate validated
  deploy : Promotes validated paper
  activate : Promotes paper active
  rearm : Promotes watch active

-- Demotions, which anybody may make.
pub data Demotes : LifecycleState → LifecycleState → Type 0 where
  warn : Demotes active watch
  halt : {s : LifecycleState} → s ≢ safe_mode → s ≢ retired → Demotes s safe_mode
  retire : {s : LifecycleState} → s ≢ retired → Demotes s retired

-- The moves that the doctrine allows an actor.
abbrev pub Allowed : LifecycleState → LifecycleState → Text → Type 0
Allowed s t actor = (Promotes s t × (actor ≢ text "operator")) ⊎ Demotes s t

pub ruleset rungs = (validate, deploy, activate, rearm, warn, halt, retire)

module _ (actor : Text) where
  -- The table against the diagram, a source state at a time.
  pub can-Allowed : (s t : LifecycleState) → can_transition s t actor ≡ true → Allowed s t actor
  unfolding can_transition
  can-Allowed candidate t h = grind (arith, rungs, beq_iff actor (text "operator"))
  can-Allowed s t h = grind (arith, rungs, beq_iff actor (text "operator"))

  pub Allowed-can : (s t : LifecycleState) → Allowed s t actor → can_transition s t actor ≡ true
  unfolding can_transition
  Allowed-can s t (inl (validate, n)) = ground (arith, beq_iff actor (text "operator"))
  Allowed-can s t (inl (deploy, n)) = ground (arith, beq_iff actor (text "operator"))
  Allowed-can s t (inl (activate, n)) = ground (arith, beq_iff actor (text "operator"))
  Allowed-can s t (inl (rearm, n)) = ground (arith, beq_iff actor (text "operator"))
  Allowed-can s t (inr warn) = ground arith
  Allowed-can s t (inr (halt n k)) = ground arith
  Allowed-can s t (inr (retire n)) = ground arith

abbrev pub accepted : Result IllegalTransition TransitionRecord → Bool
accepted (ok _) = true
accepted (err _) = false

Allowed-ne : {s t : LifecycleState} {actor : Text} → Allowed s t actor → state_beq t s ≡ false
Allowed-ne (inl (validate, n)) = refl
Allowed-ne (inl (deploy, n)) = refl
Allowed-ne (inl (activate, n)) = refl
Allowed-ne (inl (rearm, n)) = refl
Allowed-ne (inr warn) = refl
Allowed-ne (inr (halt n k)) = ground arith
Allowed-ne (inr (retire n)) = ground arith

-- A transition is accepted exactly when the doctrine's diagram allows the actor to make it: a
-- promotion by one rung, which the operator may not make, or a demotion, which anybody may make.
pub transition_iff :
    (m : Machine) (to : LifecycleState) (reason actor : Text)
    → (accepted (transition m to reason actor).1 ≡ true) ↔ Allowed m.state to actor
unfolding transition
transition_iff m to reason actor = (
  λ h. can-Allowed actor m.state to (ground arith),
  λ a. rw (Allowed-ne a) (rw (Allowed-can actor m.state to a)),
)

-- A refused transition leaves the machine as it was.
pub transition_refused :
    (m : Machine) (to : LifecycleState) (reason actor : Text)
    → accepted (transition m to reason actor).1 ≡ false
    → (transition m to reason actor).0 ≡ m
unfolding transition
transition_refused m to reason actor h = ground arith

pub transition_cases :
    (m : Machine) (to : LifecycleState) (reason actor : Text)
    → ((transition m to reason actor).0 ≡ m)
      ⊎ (Allowed m.state to actor × ((transition m to reason actor).0 ≡ accept m to reason actor))
unfolding transition
transition_cases m to reason actor = elim (Bool-cases (accepted (transition m to reason actor).1)) [
  | inl done ↦ inr ((transition_iff m to reason actor).0 done, ground arith)
  | inr refused ↦ inl (transition_refused m to reason actor refused)
]

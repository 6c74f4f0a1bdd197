-- ===== src/Lifecycle/StateMachine/Histories.antt =====
-- What any sequence of requests leaves in a leg's reports.
use systematic_trading_valid.Common.{
  Bool, Bool-cases, List, [], arith, count_if, false, if◌then◌else◌, inl, inr, nat_eq, refl, sym,
  true, ℕ, ◌++◌, ◌+◌, ◌==◌, ◌∙◌, ◌∷◌, ◌≡◌, ◌≢◌, ◌≤◌, ◌⊎◌,
}
use systematic_trading_valid.Common.Text.{Text, text, text_eq}
use systematic_trading_valid.Lifecycle.StateMachine.{
  LifecycleState, Machine, Report, Request, accept, active, candidate, new_machine, paper, retired,
  run, safe_mode, state_beq_iff, state_eq, transition, validated, watch,
}
use systematic_trading_valid.Lifecycle.StateMachine.Moves.{
  Allowed, activate, deploy, halt, rearm, retire, transition_cases, validate, warn,
}

-- The reports lead from one state to another by moves that the doctrine allows.
abbrev pub Chain : LifecycleState → List Report → LifecycleState → Type 0
Chain s [] t = s ≡ t
Chain s (r ∷ rs) t = (r.from_state ≡ s) × Allowed s r.to_state r.actor × Chain r.to_state rs t

Chain-append :
    (s t : LifecycleState) (rs : List Report) (r : Report)
    → Chain s rs t
    → r.from_state ≡ t
    → Allowed t r.to_state r.actor
    → Chain s (rs ++ r ∷ []) r.to_state
Chain-append s t [] r h f a = (f ∙ sym h, rw h a, refl)
Chain-append s t (x ∷ rs) r (xf, xa, h) f a = (xf, xa, Chain-append x.to_state t rs r h f a)

abbrev pub enters_safe_mode : Report → Bool
enters_safe_mode r = r.to_state == safe_mode

-- The reports account for the state and for the count of the safe-mode episodes.
pub record IsRecorded (start : LifecycleState) (m : Machine) : Type 0 where
  pub chained : Chain start m.reports m.state
  pub counted : m.episodes ≡ count_if enters_safe_mode m.reports

count_if-append :
    (p : Report → Bool) (rs : List Report) (r : Report)
    → count_if p (rs ++ r ∷ []) ≡ (if p r then count_if p rs + 1 else count_if p rs)
count_if-append p [] r = ground arith
count_if-append p (x ∷ rs) r = ground (arith, count_if-append p rs r)

accept-IsRecorded :
    (start : LifecycleState) (m : Machine) (to : LifecycleState) (reason actor : Text)
    → Allowed m.state to actor
    → IsRecorded start m
    → IsRecorded start (accept m to reason actor)
unfolding accept
accept-IsRecorded start m to reason actor a h = record {
  chained = Chain-append start m.state m.reports _ h.chained refl a;
  counted = rw count_if-append (ground (arith, h.counted));
}

run-IsRecorded :
    (start : LifecycleState) (m : Machine) (rs : List Request)
    → IsRecorded start m
    → IsRecorded start (run m rs)
unfolding run
run-IsRecorded start m [] h = h
run-IsRecorded start m (r ∷ rs) h =
    run-IsRecorded start (transition m r.target r.reason r.actor).0 rs
      (elim (transition_cases m r.target r.reason r.actor) [
        | inl same ↦ rw same h
        | inr (a, e) ↦ rw e (accept-IsRecorded start m r.target r.reason r.actor a h)
      ])

-- Whatever is asked of a new leg, its reports form an unbroken chain of moves that the doctrine
-- allows from its first state to its present one, and the episode counter equals the number of
-- reports that enter `safe_mode`.
pub history-IsRecorded :
    (leg : ℕ) (start : LifecycleState) (rs : List Request)
    → IsRecorded start (run (new_machine leg start) rs)
unfolding new_machine
history-IsRecorded leg start rs =
    run-IsRecorded start (new_machine leg start) rs (record { chained = refl; counted = refl })

-- A leg in `safe_mode` or `retired` does not trade again.
abbrev is_out : LifecycleState → Bool
is_out safe_mode = true
is_out retired = true
is_out _ = false

Allowed-out :
    {s t : LifecycleState} {actor : Text} → Allowed s t actor → is_out s ≡ true → t ≡ retired
Allowed-out (inl (validate, n)) h = cc
Allowed-out (inl (deploy, n)) h = cc
Allowed-out (inl (activate, n)) h = cc
Allowed-out (inl (rearm, n)) h = cc
Allowed-out (inr warn) h = cc
Allowed-out {s = safe_mode} (inr (halt n k)) h = absurd (n refl)
Allowed-out {s = retired} (inr (halt n k)) h = absurd (k refl)
Allowed-out {s = candidate} (inr (halt n k)) h = cc
Allowed-out {s = validated} (inr (halt n k)) h = cc
Allowed-out {s = paper} (inr (halt n k)) h = cc
Allowed-out {s = active} (inr (halt n k)) h = cc
Allowed-out {s = watch} (inr (halt n k)) h = cc
Allowed-out (inr (retire n)) h = refl

Chain-out :
    (s t : LifecycleState) (rs : List Report) → Chain s rs t → is_out s ≡ true → is_out t ≡ true
Chain-out s t [] c h = rw (← c) h
Chain-out s t (r ∷ rs) (f, a, c) h = Chain-out r.to_state t rs c (rw (Allowed-out a h))

-- The first three promotions, each by somebody other than the operator.
abbrev pub PassedGates : List Report → Type 0
PassedGates (a ∷ b ∷ c ∷ rs) =
    (a.to_state ≡ validated)
    × (b.to_state ≡ paper)
    × (c.to_state ≡ active)
    × (a.actor ≢ text "operator")
    × (b.actor ≢ text "operator")
    × (c.actor ≢ text "operator")
PassedGates _ = ⊥

-- The rung above a state on the way to deployment.
abbrev rung : LifecycleState → LifecycleState
rung candidate = validated
rung validated = paper
rung _ = active

abbrev below_active : LifecycleState → Bool
below_active candidate = true
below_active validated = true
below_active paper = true
below_active _ = false

Allowed-rung :
    {s t : LifecycleState} {actor : Text}
    → Allowed s t actor
    → below_active s ≡ true
    → (is_out t ≡ true) ⊎ ((t ≡ rung s) × (actor ≢ text "operator"))
Allowed-rung (inl (validate, n)) h = inr (refl, n)
Allowed-rung (inl (deploy, n)) h = inr (refl, n)
Allowed-rung (inl (activate, n)) h = inr (refl, n)
Allowed-rung (inl (rearm, n)) h = cc
Allowed-rung (inr warn) h = cc
Allowed-rung (inr (halt n k)) h = inl refl
Allowed-rung (inr (retire n)) h = inl refl

-- A history that ends in `active` has climbed to the next rung first.
climbs :
    (s : LifecycleState) (r : Report) (rs : List Report)
    → Chain s (r ∷ rs) active
    → below_active s ≡ true
    → (r.to_state ≡ rung s) × (r.actor ≢ text "operator") × Chain (rung s) rs active
climbs s r rs (f, a, c) h = elim (Allowed-rung a h) [
  | inl out ↦ absurd (cc (Chain-out r.to_state active rs c out))
  | inr (e, n) ↦ (e, n, rw e at c)
]

Chain-PassedGates : (rs : List Report) → Chain candidate rs active → PassedGates rs
Chain-PassedGates [] c = absurd (cc c)
Chain-PassedGates (a ∷ []) c = absurd (cc ((climbs candidate a [] c refl).2))
Chain-PassedGates (a ∷ b ∷ []) c =
    let (ea, na, c') = climbs candidate a (b ∷ []) c refl in
    absurd (cc ((climbs validated b [] c' refl).2))
Chain-PassedGates (a ∷ b ∷ d ∷ rs) c =
    let (ea, na, c') = climbs candidate a (b ∷ d ∷ rs) c refl in
    let (eb, nb, c'') = climbs validated b (d ∷ rs) c' refl in
    let (ed, nd, _) = climbs paper d rs c'' refl in (ea, eb, ed, na, nb, nd)

-- A new candidate leg that is `active` after any requests was validated, then moved to paper, then
-- activated, in its first three transitions, and none of the three was made by the operator.
pub active_needs_gates :
    (leg : ℕ) (rs : List Request)
    → (run (new_machine leg candidate) rs).state ≡ active
    → PassedGates (run (new_machine leg candidate) rs).reports
active_needs_gates leg rs h =
    Chain-PassedGates _ (rw h at (history-IsRecorded leg candidate rs).chained)

out_never_enters :
    (s t : LifecycleState) (rs : List Report)
    → Chain s rs t
    → is_out s ≡ true
    → count_if enters_safe_mode rs ≡ 0
out_never_enters s t [] c h = refl
out_never_enters s t (r ∷ rs) (f, a, c) h =
    let e : r.to_state ≡ retired = Allowed-out a h in
    ground (arith, e, out_never_enters r.to_state t rs c (rw e))

enters_once :
    (s t : LifecycleState) (rs : List Report) → Chain s rs t → count_if enters_safe_mode rs ≤ 1
enters_once s t [] c = omega arith
enters_once s t (r ∷ rs) (f, a, c) = elim (Bool-cases (enters_safe_mode r)) [
  | inl e ↦
      let to : r.to_state ≡ safe_mode = (state_beq_iff _ _).0 e in
      rw e (omega (arith, out_never_enters r.to_state t rs c (rw to)))
  | inr e ↦ rw e (enters_once r.to_state t rs c)
]

-- Whatever is asked of a new leg, it counts at most one safe-mode episode: the only way out of
-- `safe_mode` is retirement.
pub episodes_le_one :
    (leg : ℕ) (start : LifecycleState) (rs : List Request)
    → (run (new_machine leg start) rs).episodes ≤ 1
episodes_le_one leg start rs =
    let h = history-IsRecorded leg start rs in omega (arith, h.counted, enters_once _ _ _ h.chained)

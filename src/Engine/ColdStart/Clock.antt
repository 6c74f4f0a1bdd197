-- ===== src/Engine/ColdStart/Clock.antt =====
-- The clock of the time bound counts the time with readiness.
use systematic_trading_valid.Common.{
  Bool, List, Option, [], arith, false, if◌then◌else◌, nat_eq, none, pair_eq, refl, some, true, ℕ,
  ◌+◌, ◌-◌, ◌∷◌, ◌≡◌, ◌≤◌,
}
use systematic_trading_valid.Common.Text.{Text, text_eq}
use systematic_trading_valid.Common.Dict.{Dict}
use systematic_trading_valid.Engine.ColdStart.{
  Config, Gate, Policy, begin_cold_start, elapsed_seconds, enter_legs, new_gate, open_pause,
  pause_at, set_readiness,
}

-- The reports of readiness, with their times
unfoldable pub run_readiness : List (ℕ × Bool) → Gate → Gate
run_readiness [] g = g
run_readiness ((t, ready) ∷ rs) g = run_readiness rs (set_readiness t ready g)

abbrev span_if : Bool → ℕ → ℕ → ℕ
span_if running since t = if running then t - since else 0

-- The time up to now in which the last report was that the gate is ready
abbrev pub ready_time : Bool → ℕ → List (ℕ × Bool) → ℕ → ℕ
ready_time running since [] now = span_if running since now
ready_time running since ((t, ready) ∷ rs) now = span_if running since t + ready_time ready t rs now

-- The times do not go back.
abbrev pub InOrder : ℕ → List (ℕ × Bool) → ℕ → Type 0
InOrder since [] now = since ≤ now
InOrder since ((t, ready) ∷ rs) now = (since ≤ t) × InOrder t rs now

-- The pause that is open at a time, if the clock does not run
abbrev Paused : Bool → Option ℕ → ℕ → ℕ → Type 0
Paused true none since mark = mark ≡ since
Paused true (some p) since mark = ⊥
Paused false none since mark = ⊥
Paused false (some p) since mark = (mark ≡ p) × (p ≤ since)

-- At `since` the clock has counted `counted`.
record Counts (started : Option ℕ) (acc : ℕ) (pause : Option ℕ) (running : Bool) (since counted : ℕ)
    : Type 0 where
  start : ℕ
  mark : ℕ
  begun : started ≡ some start
  paused : Paused running pause since mark
  sum : start + acc + counted ≡ mark

abbrev CountsIn : Gate → Bool → ℕ → ℕ → Type 0
CountsIn g running since counted =
    Counts g.started g.paused_accumulated g.paused_since running since counted

elapsed_at :
    (running : Bool) (pause : Option ℕ) (start acc counted mark since now : ℕ)
    → since ≤ now
    → Paused running pause since mark
    → start + acc + counted ≡ mark
    → now - start - (acc + open_pause pause now) ≡ counted + span_if running since now
elapsed_at true none start acc counted mark since now le p e = omega arith
elapsed_at true (some q) start acc counted mark since now le p e = absurd p
elapsed_at false none start acc counted mark since now le p e = absurd p
elapsed_at false (some q) start acc counted mark since now le (p, l) e = omega arith

Counts-elapsed :
    (g : Gate) (running : Bool) (since counted now : ℕ)
    → since ≤ now
    → CountsIn g running since counted
    → elapsed_seconds g now ≡ counted + span_if running since now
unfolding elapsed_seconds
Counts-elapsed g running since counted now le c = rw c.begun (
    elapsed_at running g.paused_since c.start g.paused_accumulated counted c.mark since now le
      c.paused c.sum)

Counts-resume :
    (started pause : Option ℕ) (acc : ℕ) (running : Bool) (since counted t : ℕ)
    → since ≤ t
    → Counts started acc pause running since counted
    → Counts started (acc + open_pause pause t) none true t (counted + span_if running since t)
Counts-resume started none acc true since counted t le c =
    let p = c.paused in
    record { start = c.start; mark = t; begun = c.begun; paused = refl; sum = omega (arith, c.sum) }
Counts-resume started (some q) acc true since counted t le c = absurd c.paused
Counts-resume started none acc false since counted t le c = absurd c.paused
Counts-resume started (some q) acc false since counted t le c =
    let (p, l) = c.paused in
    record { start = c.start; mark = t; begun = c.begun; paused = refl; sum = omega (arith, c.sum) }

Counts-pause :
    (started pause : Option ℕ) (acc : ℕ) (running : Bool) (since counted t : ℕ)
    → since ≤ t
    → Counts started acc pause running since counted
    → Counts started acc (pause_at pause t) false t (counted + span_if running since t)
Counts-pause started none acc true since counted t le c =
    let p = c.paused in
    record {
      start = c.start;
      mark = t;
      begun = c.begun;
      paused = (refl, omega arith);
      sum = omega (arith, c.sum);
    }
Counts-pause started (some q) acc true since counted t le c = absurd c.paused
Counts-pause started none acc false since counted t le c = absurd c.paused
Counts-pause started (some q) acc false since counted t le c =
    let (p, l) = c.paused in
    record {
      start = c.start;
      mark = c.mark;
      begun = c.begun;
      paused = (p, omega arith);
      sum = omega (arith, c.sum);
    }

Counts-step :
    (g : Gate) (running ready : Bool) (since counted t : ℕ)
    → since ≤ t
    → CountsIn g running since counted
    → CountsIn (set_readiness t ready g) ready t (counted + span_if running since t)
unfolding set_readiness
Counts-step g running true since counted t le c =
    Counts-resume g.started g.paused_since g.paused_accumulated running since counted t le c
Counts-step g running false since counted t le c =
    Counts-pause g.started g.paused_since g.paused_accumulated running since counted t le c

run-elapsed :
    (g : Gate) (running : Bool) (since counted now : ℕ) (rs : List (ℕ × Bool))
    → InOrder since rs now
    → CountsIn g running since counted
    → elapsed_seconds (run_readiness rs g) now ≡ counted + ready_time running since rs now
unfolding run_readiness
run-elapsed g running since counted now [] le c = Counts-elapsed g running since counted now le c
run-elapsed g running since counted now ((t, ready) ∷ rs) (le, later) c = omega (
  arith,
  run-elapsed (set_readiness t ready g) ready t (counted + span_if running since t) now rs later
      (Counts-step g running ready since counted t le c),
)

-- The clock's fields of a gate do not depend on its legs.
begun_fields :
    (legs : List Text) (policies : Dict Text Policy) (symbols : Dict Text Text) (g : Gate)
    (running : Bool) (since counted : ℕ)
    → CountsIn g running since counted
    → CountsIn (enter_legs legs policies symbols g) running since counted
begun_fields [] policies symbols g running since counted c = c
begun_fields (s ∷ ss) policies symbols g running since counted c =
    begun_fields ss policies symbols _ running since counted c

-- A new gate that begins a cold start, and then gets reports of readiness in the order of time: the clock of the time
-- bound shows exactly the time in which readiness was last reported as passed, from the start on.
-- So repeated reports change nothing, and a leg's wait does not advance while readiness fails.
pub clock_counts_ready_time :
    (c : Config) (start now : ℕ) (legs : List Text) (policies : Dict Text Policy)
    (symbols : Dict Text Text) (rs : List (ℕ × Bool))
    → InOrder start rs now
    → elapsed_seconds
        (run_readiness rs (begin_cold_start start legs policies symbols (new_gate c)))
        now
      ≡ ready_time true start rs now
unfolding begin_cold_start
clock_counts_ready_time c start now legs policies symbols rs ordered =
    let g = begin_cold_start start legs policies symbols (new_gate c) in
    let counts =
      begun_fields legs policies symbols
        (record (new_gate c) {
          started = some start;
          transitions = [];
          suppression_logged = [];
          stale_warned = [];
        })
        true start 0
        (record { start = start; mark = start; begun = refl; paused = refl; sum = omega arith }) in
    omega (arith, run-elapsed g true start 0 now rs ordered counts)

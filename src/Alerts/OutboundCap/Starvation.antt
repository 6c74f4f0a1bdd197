-- ===== src/Alerts/OutboundCap/Starvation.antt =====
-- Routine traffic does not starve the priority lane.
use systematic_trading_valid.Common.{
  All, Bool, List, Option, [], arith, false, if◌then◌else◌, leb, nat_eq, not, pair_eq, refl, true,
  ℕ, ◌∙◌, ◌∷◌, ◌≡◌,
}
use systematic_trading_valid.Common.Text.{Text, text_eq}
use systematic_trading_valid.Alerts.OutboundCap.{
  Cap, Verdict, ago, allow, allowed, channel_backoff_after_429, count_since, day, hour, in_backoff,
  insert_row, is_priority, judge, judge_priority, judge_routine, lane_eq, note_429, priority,
  routine, routine_daily_cap, routine_hourly_cap, row_for,
}
use systematic_trading_valid.Alerts.OutboundCap.Windows.{Call, apply, ask, rejected, run}

-- Routine traffic: a call of `allow` that is not a priority alert, or a 429.
abbrev pub is_routine : Call → Bool
is_routine (ask now kind severity fault) = not (is_priority kind severity)
is_routine (rejected now fault) = true

-- Two caps that answer every priority alert alike.
record Alike (c d : Cap) : Type 0 where
  same_limit : c.priority_per_hour ≡ d.priority_per_hour
  same_count : (since : ℕ) → count_since since priority c.sends ≡ count_since since priority d.sends

Alike-self : (c : Cap) → Alike c c
Alike-self c = record { same_limit = refl; same_count = λ since. refl }

-- No routine row takes part in what a priority alert is told.
Alike-if :
    (b : Bool) (c : Cap) (now : ℕ) (kind : Option Text) (v w : Verdict)
    → Alike (insert_row (row_for now kind v) c) c
    → Alike (insert_row (row_for now kind w) c) c
    → Alike (insert_row (row_for now kind (if b then v else w)) c) c
Alike-if true c now kind v w h k = h
Alike-if false c now kind v w h k = k

Alike-record :
    (c : Cap) (now : ℕ) (kind : Option Text)
    → Alike (insert_row (row_for now kind (allowed routine)) c) c
Alike-record c now kind = record { same_limit = refl; same_count = λ since. ground arith }

Alike-else :
    (b : Bool) (c : Cap) (now : ℕ) (kind : Option Text) (v w : Verdict)
    → not b ≡ true
    → Alike (insert_row (row_for now kind w) c) c
    → Alike (insert_row (row_for now kind (if b then v else w)) c) c
Alike-else true c now kind v w h k = cc
Alike-else false c now kind v w h k = k

judge_routine-Alike :
    (c : Cap) (now : ℕ) (kind : Option Text)
    → Alike (insert_row (row_for now kind (judge_routine c now)) c) c
unfolding judge_routine
judge_routine-Alike c now kind =
    let self = Alike-self c in
    let hourly = leb c.routine_per_hour (count_since (ago now hour) routine c.sends) in
    let daily = leb c.routine_per_day (count_since (ago now day) routine c.sends) in
    let last = if daily then routine_daily_cap else allowed routine in
    Alike-if (in_backoff c now) c now kind channel_backoff_after_429
      (if hourly then routine_hourly_cap else last) self
      (Alike-if hourly c now kind routine_hourly_cap last self (
        Alike-if daily c now kind routine_daily_cap (allowed routine) self
          (Alike-record c now kind)))

apply-Alike : (c : Cap) (a : Call) → is_routine a ≡ true → Alike (apply c a) c
unfolding apply allow judge note_429
apply-Alike c (ask now kind severity true) h = Alike-self c
apply-Alike c (ask now kind severity false) h =
    Alike-else (is_priority kind severity) c now kind _ _ h (judge_routine-Alike c now kind)
apply-Alike c (rejected now true) h = Alike-self c
apply-Alike c (rejected now false) h = record { same_limit = refl; same_count = λ since. refl }

run-Alike : (c : Cap) (cs : List Call) → All (λ a. is_routine a ≡ true) cs → Alike (run c cs) c
unfolding run
run-Alike c [] h = Alike-self c
run-Alike c (a ∷ cs) (h, hs) =
    let x = run-Alike (apply c a) cs hs in
    let y = apply-Alike c a h in
    record {
      same_limit = x.same_limit ∙ y.same_limit;
      same_count = λ since. x.same_count since ∙ y.same_count since;
    }

answer-Alike : (c d : Cap) (now : ℕ) → Alike c d → judge_priority c now ≡ judge_priority d now
unfolding judge_priority
answer-Alike c d now h = grind (arith, h.same_limit, h.same_count (ago now hour))

-- Routine alerts and 429s, however many, do not change the answer to a priority alert.
pub priority_not_starved :
    (c : Cap) (cs : List Call) (now : ℕ) (kind severity : Option Text) (fault : Bool)
    → All (λ a. is_routine a ≡ true) cs
    → is_priority kind severity ≡ true
    → (allow (run c cs) now kind severity fault).1 ≡ (allow c now kind severity fault).1
unfolding allow judge
priority_not_starved c cs now kind severity true hs h = refl
priority_not_starved c cs now kind severity false hs h =
    simp h (answer-Alike (run c cs) c now (run-Alike c cs hs))

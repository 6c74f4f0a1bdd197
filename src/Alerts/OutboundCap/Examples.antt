-- ===== src/Alerts/OutboundCap/Examples.antt =====
-- The cap on a flood of routine alerts.
use systematic_trading_valid.Common.{
  All, List, [], arith, false, length, nat_eq, none, pair_eq, refl, some, true, ℕ, ◌*◌, ◌+◌, ◌∷◌,
  ◌≡◌,
}
use systematic_trading_valid.Common.Text.{lower, text, text_eq}
use systematic_trading_valid.Alerts.OutboundCap.{
  Cap, Verdict, allow, allowed, day, is_priority, judge, judge_priority, judge_routine, lane_eq,
  new_cap, note_429, priority,
}
use systematic_trading_valid.Alerts.OutboundCap.Windows.{Call, apply, ask, rejected, run}
use systematic_trading_valid.Alerts.OutboundCap.Overlap.{
  Overlaps, Shared, Step, land, look, run_steps, step,
}
use systematic_trading_valid.Alerts.OutboundCap.Limits.{IsCapped, run-IsCapped}
use systematic_trading_valid.Alerts.OutboundCap.Starvation.{is_routine, priority_not_starved}

abbrev minute : ℕ
minute = 60000000

abbrev stale : ℕ → Call
stale t = ask (day + t * minute) (some (text "heartbeat")) (some (text "info")) false

-- Nine routine alerts in nine minutes.
abbrev flood : List Call
flood =
    stale 1
    ∷ stale 2
    ∷ stale 3
    ∷ stale 4
    ∷ stale 5
    ∷ stale 6
    ∷ stale 7
    ∷ stale 8
    ∷ stale 9
    ∷ rejected (day + 10 * minute) false
    ∷ []

abbrev liveness : Cap → Cap × Verdict
liveness c = allow c (day + 11 * minute) (some (text "daily_liveness")) none false

flood_cut : length (run new_cap flood).sends ≡ 8
unfolding run apply allow judge judge_routine note_429 is_priority lower
flood_cut = refl

liveness_passes : (liveness (run new_cap flood)).1 ≡ allowed priority
unfolding run apply allow judge judge_routine judge_priority note_429 is_priority lower
liveness_passes = refl

flood-IsRoutine : All (λ a. is_routine a ≡ true) flood
unfolding is_priority lower
flood-IsRoutine = (refl, (refl, (refl, (refl, (refl, (refl, (refl, (refl, (refl, (refl, tt))))))))))

-- Seven alerts, one after the other, and then two processes that both read before either inserts
abbrev heartbeat : ℕ → Step
heartbeat t = look (day + t * minute) (some (text "heartbeat")) (some (text "info")) false

abbrev race : List Step
race =
    heartbeat 1
    ∷ land 0
    ∷ heartbeat 2
    ∷ land 0
    ∷ heartbeat 3
    ∷ land 0
    ∷ heartbeat 4
    ∷ land 0
    ∷ heartbeat 5
    ∷ land 0
    ∷ heartbeat 6
    ∷ land 0
    ∷ heartbeat 7
    ∷ land 0
    ∷ heartbeat 8
    ∷ heartbeat 8
    ∷ land 1
    ∷ land 0
    ∷ []

abbrev shared : Shared
shared = record { cap = new_cap; in_flight = [] }

-- One more than the hourly limit of eight
race_exceeds : length (run_steps shared race).cap.sends ≡ 9
unfolding run_steps step judge judge_routine is_priority lower
race_exceeds = refl

race-Overlaps : Overlaps 2 shared race
unfolding step judge judge_routine is_priority lower
race-Overlaps = omega arith

run-IsCapped_example : IsCapped new_cap 1 (run_steps shared race).cap.sends (day + 11 * minute)
run-IsCapped_example =
    run-IsCapped new_cap 2 0 race (day + 11 * minute) refl (ground arith) race-Overlaps
      (omega arith)

priority_not_starved_example : (liveness (run new_cap flood)).1 ≡ (liveness new_cap).1
unfolding is_priority
priority_not_starved_example =
    priority_not_starved new_cap flood (day + 11 * minute) (some (text "daily_liveness")) none false
      flood-IsRoutine refl

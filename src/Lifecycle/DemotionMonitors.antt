-- ===== src/Lifecycle/DemotionMonitors.antt =====
-- src/lifecycle/demotion_monitors.py: the monitors that demote a leg. Returns, costs and equities are integers of a
-- small unit, factors are in hundredths, and a quotient is compared by its numerator and
-- denominator. The Sharpe ratio of one window and the quantile of the binomial distribution, which
-- scipy computes, are arguments. The details of a verdict are left out but for those that
-- say where or how long a condition held.
pub mod Drift
pub mod Streaks
mod Examples
use systematic_trading_valid.Common.{
  Bool, List, Option, [], any, count_if, false, if◌then◌else◌, is_some, leb, length, ltb, map, max,
  nat_eq, none, not, pair_eq, some, take, true, ℕ, ◌&&◌, ◌*◌, ◌+◌, ◌∷◌,
}
use systematic_trading_valid.Common.Int.{
  abs_ℤ, leb_ℤ, ltb_ℤ, max_ℤ, pos, pos_part, ℤ, ◌*ℤ◌, ◌+ℤ◌, ◌-ℤ◌,
}
use systematic_trading_valid.Common.Text.{Text, text, text_eq}

pub data Tier : Type 0 where
  tier_none watch safe_mode : Tier

pub record MonitorVerdict : Type 0 where
  pub name : Text
  pub tier : Tier
  pub armed : Bool
  pub trip_index : Option ℕ
  consecutive : ℕ

abbrev quiet : Text → MonitorVerdict
quiet name = record {
  name = name;
  tier = tier_none;
  armed = true;
  trip_index = none;
  consecutive = 0;
}

abbrev pub tier_if : Bool → Tier → Tier
tier_if tripped tier = if tripped then tier else tier_none

abbrev pub tripped : MonitorVerdict → Bool
tripped v = elim v.tier [ tier_none ↦ false | watch ↦ true | safe_mode ↦ true ]

-- The shortfall of a week: (mu0 - r) / sigma - k, times 100 sigma
abbrev pub shortfall : ℤ → ℕ → ℕ → ℤ → ℤ
shortfall mu0 sigma k r = (pos 100 *ℤ (mu0 -ℤ r)) -ℤ pos (k * sigma)

pub record Cusum : Type 0 where
  pub s : ℤ
  s_max : ℤ
  pub first_trip : Option ℕ

abbrev pub note_first : Bool → ℕ → Option ℕ → Option ℕ
note_first now i none = if now then some i else none
note_first now i (some j) = some j

-- The loop of `cusum_drift`; the sum and the bound h are multiples of 100 sigma.
unfoldable pub cusum_loop : ℤ → ℕ → List ℤ → Cusum → Cusum
cusum_loop h i [] c = c
cusum_loop h i (x ∷ xs) c =
    let s = max_ℤ (pos 0) (c.s +ℤ x) in
    cusum_loop h (i + 1) xs (record {
      s = s;
      s_max = max_ℤ c.s_max s;
      first_trip = note_first (ltb_ℤ h s) i c.first_trip;
    })

abbrev pub cusum_start : Cusum
cusum_start = record { s = pos 0; s_max = pos 0; first_trip = none }

abbrev cusum_of : Cusum → MonitorVerdict
cusum_of c = record (quiet (text "cusum")) {
  tier = tier_if (is_some c.first_trip) safe_mode;
  trip_index = c.first_trip;
}

unfoldable pub cusum_drift : List ℤ → ℤ → ℤ → ℕ → ℕ → MonitorVerdict
cusum_drift returns mu0 sigma k h =
    if leb_ℤ sigma (pos 0)
    then quiet (text "cusum")
    else cusum_of (
        cusum_loop (pos (h * pos_part sigma)) 0 (map (shortfall mu0 (pos_part sigma) k) returns)
          cusum_start)

-- A drawdown: the fall from a peak, and the peak
pub record Fall : Type 0 where
  pub fall : ℕ
  pub peak : ℕ

abbrev deeper : Fall → Fall → Fall
deeper a b = if ltb (a.fall * b.peak) (b.fall * a.peak) then b else a

abbrev raise_peak : Option ℤ → ℤ → ℤ
raise_peak none v = v
raise_peak (some p) v = max_ℤ p v

abbrev fall_loop : Option ℤ → List ℤ → Fall → Fall
fall_loop peak [] worst = worst
fall_loop peak (v ∷ vs) worst =
    let p = raise_peak peak v in
    fall_loop (some p) vs (
      if ltb_ℤ (pos 0) p
      then deeper worst (record { fall = pos_part (p -ℤ v); peak = pos_part p })
      else worst)

-- The bound is a fraction of ten thousand, and the multiplier in hundredths.
unfoldable drawdown_bound : List ℤ → ℤ → ℕ → MonitorVerdict
drawdown_bound equity_curve oos_max_dd multiplier =
    let worst = fall_loop none equity_curve (record { fall = 0; peak = 1 }) in
    record (quiet (text "drawdown_bound")) {
      tier =
          tier_if (ltb (multiplier * abs_ℤ oos_max_dd * worst.peak) (worst.fall * 1_000_000))
            safe_mode;
    }

-- `run = run + 1 if … else 0`
abbrev pub next_run : Bool → ℕ → ℕ
next_run met run = if met then run + 1 else 0

abbrev watch_after : Text → ℕ → MonitorVerdict
watch_after name run = record (quiet name) { tier = watch; consecutive = run }

-- The loop of `rolling_sharpe_monitor`, over whether each window's ratio is below the bound
unfoldable pub breach_loop : ℕ → List Bool → ℕ → MonitorVerdict
breach_loop n [] run = record (quiet (text "rolling_sharpe")) { consecutive = run }
breach_loop n (b ∷ bs) run =
    let rest = breach_loop n bs (next_run b run) in
    if leb n (next_run b run) then watch_after (text "rolling_sharpe") (next_run b run) else rest

-- The windows that end at each point: `returns[end - window:end]`
abbrev pub windows_of : ℕ → List ℤ → List (List ℤ)
windows_of n [] = []
windows_of n (r ∷ rs) =
    let rest = windows_of n rs in if leb n (length (r ∷ rs)) then take n (r ∷ rs) ∷ rest else []

unfoldable pub rolling_sharpe_monitor : (List ℤ → ℤ) → List ℤ → ℤ → ℕ → ℕ → ℕ → MonitorVerdict
rolling_sharpe_monitor sharpe weekly_returns ci_lower window breach_consecutive min_armed =
    if ltb (length weekly_returns) (max min_armed window)
    then record (quiet (text "rolling_sharpe")) { armed = false }
    else breach_loop breach_consecutive
        (map (λ w. ltb_ℤ (sharpe w) ci_lower) (windows_of window weekly_returns)) 0

abbrev pub last : ℕ → List Bool → List Bool
last n [] = []
last n (w ∷ ws) = let rest = last n ws in if leb (length (w ∷ ws)) n then w ∷ ws else rest

-- The quantile of the wins in n trades is the lower bound.
unfoldable hit_rate_monitor : (ℕ → ℕ → ℕ) → List Bool → ℕ → ℕ → ℕ → MonitorVerdict
hit_rate_monitor lower_wins trade_wins oos_hit_rate n min_armed =
    if ltb (length trade_wins) (max min_armed n)
    then record (quiet (text "hit_rate")) { armed = false }
    else record (quiet (text "hit_rate")) {
      tier =
          tier_if (ltb (count_if (λ w. w) (last n trade_wins)) (lower_wins n oos_hit_rate)) watch;
    }

-- A day's realized and modeled cost
abbrev pub diverges : ℕ → ℤ × ℤ → Bool
diverges multiplier (realized, modeled) =
    ltb_ℤ (pos 0) modeled && ltb_ℤ (pos multiplier *ℤ modeled) (pos 100 *ℤ realized)

unfoldable pub divergence_loop : ℕ → ℕ → List (ℤ × ℤ) → ℕ → MonitorVerdict
divergence_loop multiplier n [] run = record (quiet (text "cost_divergence")) { consecutive = run }
divergence_loop multiplier n (d ∷ ds) run =
    let on = divergence_loop multiplier n ds (run + 1) in
    let off = divergence_loop multiplier n ds 0 in
    if diverges multiplier d
    then (if leb n (run + 1) then watch_after (text "cost_divergence") (run + 1) else on)
    else off

abbrev pub zip : List ℤ → List ℤ → List (ℤ × ℤ)
zip [] ys = []
zip (x ∷ xs) [] = []
zip (x ∷ xs) (y ∷ ys) = (x, y) ∷ zip xs ys

unfoldable pub cost_divergence_monitor : List ℤ → List ℤ → ℕ → ℕ → MonitorVerdict
cost_divergence_monitor realized_costs modeled_costs multiplier consecutive_days =
    divergence_loop multiplier consecutive_days (zip realized_costs modeled_costs) 0

unfoldable integrity_trip : Bool → Bool → Bool → MonitorVerdict
integrity_trip hash_ok parity_ok reconciliation_ok = record (quiet (text "integrity")) {
  tier = tier_if (not (hash_ok && parity_ok && reconciliation_ok)) safe_mode;
}

unfoldable watch_persistence_trip : ℕ → ℕ → MonitorVerdict
watch_persistence_trip watch_weeks max_weeks = record (quiet (text "watch_persistence")) {
  tier = tier_if (leb max_weeks watch_weeks) safe_mode;
}

abbrev is_tier : Tier → MonitorVerdict → Bool
is_tier safe_mode v = elim v.tier [ tier_none ↦ false | watch ↦ false | safe_mode ↦ true ]
is_tier watch v = elim v.tier [ tier_none ↦ false | watch ↦ true | safe_mode ↦ false ]
is_tier tier_none v = elim v.tier [ tier_none ↦ true | watch ↦ false | safe_mode ↦ false ]

unfoldable worst_tier : List MonitorVerdict → Tier
worst_tier vs =
    if any (is_tier safe_mode) vs
    then safe_mode
    else if any (is_tier watch) vs
    then watch
    else tier_none

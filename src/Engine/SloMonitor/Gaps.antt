-- ===== src/Engine/SloMonitor/Gaps.antt =====
-- `compute_missing_bar_rate`: the bars that are missing between those that arrived.
use systematic_trading_valid.Common.{
  Bool, List, [], count_if, false, if◌then◌else◌, leb, length, ltb, max, nat_eq, not, pair_eq, true,
  ℕ, ◌&&◌, ◌*◌, ◌+◌, ◌-◌, ◌/◌, ◌==◌, ◌||◌, ◌∷◌,
}
use systematic_trading_valid.Common.Text.{text_eq}
use systematic_trading_valid.Core.MarketCalendar.{
  Calendar, Zone, expected_bars_for_session, is_early_close, is_within_rth,
}
use systematic_trading_valid.Engine.SloMonitor.{Rate, hour, minute, take_last}

abbrev insert_time : ℕ → List ℕ → List ℕ
insert_time t [] = t ∷ []
insert_time t (x ∷ xs) = if leb t x then t ∷ x ∷ xs else x ∷ insert_time t xs

-- `sorted`
abbrev sort_times : List ℕ → List ℕ
sort_times [] = []
sort_times (t ∷ ts) = insert_time t (sort_times ts)

-- The whole bars missing in a gap of more than 1.75 intervals
unfoldable pub missing_between : ℕ → ℕ → ℕ → ℕ
missing_between interval prev curr =
    if ltb (7 * interval) (4 * (curr - prev)) then (curr - prev) / interval - 1 else 0

abbrev utc_day : ℕ → ℕ
utc_day t = t / (24 * hour)

-- `_both_in_same_rth_span`
unfoldable pub both_in_same_rth_span : Zone → Calendar → ℕ → ℕ → Bool
both_in_same_rth_span z c left right =
    if not (utc_day left == utc_day right)
    then false
    else is_within_rth z c left && is_within_rth z c right

-- The loop over `zip(ordered, ordered[1:])`, with the test that a pair counts
abbrev sum_gaps : (ℕ → ℕ → Bool) → ℕ → List ℕ → ℕ
sum_gaps counts interval [] = 0
sum_gaps counts interval (t ∷ []) = 0
sum_gaps counts interval (t ∷ u ∷ ts) =
    let rest = sum_gaps counts interval (u ∷ ts) in
    (if counts t u then missing_between interval t u else 0) + rest

abbrev last_of : ℕ → List ℕ → ℕ
last_of t [] = t
last_of t (u ∷ us) = last_of u us

-- The bars that an early close still lacks
unfoldable pub early_close_shortfall : Zone → Calendar → ℕ → List ℕ → ℕ → ℕ
early_close_shortfall z c bar_minutes ordered gaps =
    let session_date = (z.to_et (last_of 0 ordered)).day in
    let expected = expected_bars_for_session c session_date bar_minutes in
    let observed =
      count_if (λ t. ((z.to_et t).day == session_date) && is_within_rth z c t) ordered in
    if ltb 0 expected && is_early_close c session_date then max gaps (expected - observed) else gaps

unfoldable pub gaps_of : Zone → Calendar → ℕ → List ℕ → Bool → ℕ
gaps_of z c bar_minutes ordered is_crypto =
    let interval = bar_minutes * minute in
    if is_crypto
    then sum_gaps (λ t u. true) interval ordered
    else early_close_shortfall z c bar_minutes ordered
        (sum_gaps (both_in_same_rth_span z c) interval ordered)

unfoldable pub compute_missing_bar_rate : Zone → Calendar → List ℕ → ℕ → ℕ → Bool → Rate
compute_missing_bar_rate z c timestamps bar_minutes lookback_bars is_crypto =
    let ordered = take_last lookback_bars (sort_times timestamps) in
    let gaps = gaps_of z c bar_minutes ordered is_crypto in
    if leb bar_minutes 0 || ltb (length ordered) 2
    then record { num = 0; den = 1 }
    else record { num = gaps; den = max (length ordered + gaps) 1 }

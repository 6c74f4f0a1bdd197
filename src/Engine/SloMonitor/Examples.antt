-- ===== src/Engine/SloMonitor/Examples.antt =====
-- A crypto feed with a failing quote beside an equity feed, and a breaker that trips alone.
use systematic_trading_valid.Common.{
  All, List, [], arith, false, if◌then◌else◌, nat_eq, none, not, pair_eq, refl, some, true, ℕ, ◌%◌,
  ◌*◌, ◌+◌, ◌-◌, ◌/◌, ◌<◌, ◌==◌, ◌||◌, ◌∷◌, ◌≡◌, ◌≤◌,
}
use systematic_trading_valid.Common.Text.{text, text_eq, upper}
use systematic_trading_valid.Common.Dict.{insert, lookup}
use systematic_trading_valid.Core.MarketCalendar.{
  Wall, Zone, date, effective_reference_time, is_trading_day, is_within_rth, nyse, time,
  within_rth_at,
}
use systematic_trading_valid.Engine.Degradation.{mode_eq, ok_verdict}
use systematic_trading_valid.Engine.SloMonitor.{
  Monitor, hour, is_market_dormant, minute, nbbo_success_rate, note_nbbo_fetch,
}
use systematic_trading_valid.Engine.SloMonitor.Gaps.{
  compute_missing_bar_rate, gaps_of, missing_between,
}
use systematic_trading_valid.Engine.BarFreshness.{bar_staleness, stale_after, timeframe_minutes}
use systematic_trading_valid.Engine.SloMonitor.Integrity.{
  Payload, calendar_adjusted_freshness_limit, circuit_breaker_tripped, dormant_verdict,
  evaluate_data_integrity, judge, measure, raise_first,
}
use systematic_trading_valid.Engine.SloMonitor.Grades.{
  grade, is_critical, is_degraded, severity_exact,
}
use systematic_trading_valid.Engine.SloMonitor.Isolation.{Note}

abbrev utc : ℕ → Wall
utc t = record { day = t / (24 * hour); clock = t % (24 * hour) }

utc_back :
    (w : Wall) → time 3 0 ≤ w.clock → w.clock < time 24 0 → utc (w.day * (24 * hour) + w.clock) ≡ w
utc_back w h k = ground arith

abbrev utc_zone : Zone
utc_zone = record { to_et = utc; to_utc = λ w. w.day * (24 * hour) + w.clock; back = utc_back }

abbrev monitor : Monitor
monitor = record {
  zone = utc_zone;
  calendar = nyse;
  max_cycle_budget_ms = 1000;
  max_pending_bundles = 5;
  rl_backfill_min_age = 24 * hour;
  nbbo_attempts = [];
}

-- Saturday, 28 November 2026, at noon
abbrev saturday : ℕ
saturday = date 2026 11 28 * (24 * hour) + 12 * hour

abbrev bars : List ℕ
bars = (saturday - 30 * minute) ∷ (saturday - 45 * minute) ∷ (saturday - 15 * minute) ∷ []

abbrev btc : Payload
btc = record {
  exchange_reference = saturday;
  is_crypto = true;
  symbol = text "BTC/USD";
  timeframe = text "15Min";
  bar_minutes = none;
  latest_bar = saturday - 15 * minute;
  bar_timestamps = bars;
  lookback_bars = none;
  nbbo_fetch_success = some true;
  nbbo_rate = none;
  rl_backfill_lag = some (400 * hour);
  shadow_rows = none;
  ingest_circuit_breaker_tripped = true;
  sequence_misalignment_events = 0;
  ingest_arrival_lag = 0;
}

abbrev spy : Payload
spy = record btc { is_crypto = false; symbol = text "SPY"; nbbo_fetch_success = some false }

breaker_is_soft : (evaluate_data_integrity monitor btc).1.reasons ≡ circuit_breaker_tripped ∷ []
unfolding evaluate_data_integrity is_market_dormant measure judge note_nbbo_fetch nbbo_success_rate
    lookup insert upper effective_reference_time bar_staleness stale_after
    calendar_adjusted_freshness_limit compute_missing_bar_rate gaps_of missing_between
    timeframe_minutes raise_first
breaker_is_soft = refl

-- A bar is missing between the second and the third.
one_gap :
    compute_missing_bar_rate utc_zone nyse
      (saturday ∷ (saturday + 15 * minute) ∷ (saturday + 45 * minute) ∷ [])
      15
      48
      true
    ≡ record { num = 1; den = 4 }
unfolding compute_missing_bar_rate gaps_of missing_between
one_gap = refl

abbrev misses : List Note
misses =
    record { success = false; symbol = text "spy"; is_crypto = true; reference = saturday }
    ∷ record { success = false; symbol = text "QQQ"; is_crypto = false; reference = saturday }
    ∷ []

severity_exact_example :
    ((evaluate_data_integrity monitor btc).1.severity ≡ (
      if is_market_dormant monitor true saturday
      then ok_verdict
      else grade (is_critical (measure monitor btc)) (is_degraded (measure monitor btc))))
    × ((evaluate_data_integrity monitor btc).1.passed ≡ (
        is_market_dormant monitor true saturday
        || not (is_critical (measure monitor btc) || is_degraded (measure monitor btc))))
severity_exact_example = severity_exact monitor btc

other_symbols : All (λ (n : Note). (upper n.symbol == upper btc.symbol) ≡ false) misses
unfolding upper
other_symbols = (refl, (refl, tt))

spy_sleeps : (evaluate_data_integrity monitor spy).1 ≡ dormant_verdict
unfolding evaluate_data_integrity is_market_dormant is_within_rth within_rth_at is_trading_day
spy_sleeps = refl

-- ===== src/Engine/ColdStart/Examples.antt =====
-- A leg of fifteen minute bars whose feed goes stale, and one that times out while readiness fails.
use systematic_trading_valid.Common.{
  Bool, List, [], arith, false, nat_eq, none, not, pair_eq, refl, some, true, ℕ, ◌*◌, ◌+◌, ◌<◌, ◌∷◌,
  ◌≡◌,
}
use systematic_trading_valid.Common.Int.{pos}
use systematic_trading_valid.Common.Text.{Text, text, text_eq}
use systematic_trading_valid.Common.Dict.{insert, lookup}
use systematic_trading_valid.Engine.ColdStart.{
  Config, Gate, Policy, Stream, begin_cold_start, bypass_override, elapsed_seconds, fail_safe_close,
  high_availability, is_verified, new_gate, pending, policy_of, set_readiness, state_of,
}
use systematic_trading_valid.Engine.ColdStart.Entries.{
  allows_conservative_entries, blocks_entry_signals,
}
use systematic_trading_valid.Engine.ColdStart.Progress.{
  bar_period_for, evaluate_time_bound, evaluate_verification, max_bar_age_for_timeframe,
  stream_is_structurally_intact, tick_time_bound, transition, wall_clock_freshness_ok,
}
use systematic_trading_valid.Engine.ColdStart.Scales.{open_iff_scaled}
use systematic_trading_valid.Engine.ColdStart.Freshness.{entry_needs_fresh}
use systematic_trading_valid.Engine.ColdStart.Clock.{
  clock_counts_ready_time, ready_time, run_readiness,
}
use systematic_trading_valid.Engine.SloMonitor.{second}
use systematic_trading_valid.Engine.BarFreshness.{bar_staleness, stale_after, timeframe_minutes}

abbrev config : Config
config = record {
  max_wait = 120 * second;
  max_bar_age = 65 * second;
  heuristic_scale = 25;
  bypass_scale = 15;
}

abbrev leg : Text
leg = text "btc"

abbrev begun : Policy → Gate
begun p = begin_cold_start 1000 (leg ∷ []) ((leg, p) ∷ []) [] (new_gate config)

abbrev stream : Stream
stream = record {
  latest_bar = some (900 * second);
  prior_bar = some 0;
  latest_volume = pos 5;
  prior_volume = pos 3;
  bar_count = 10;
}

abbrev verified : Gate
verified =
    (evaluate_verification leg (text "15Min") true none stream true false (1850 * second) 2000
      (begun fail_safe_close)).0

abbrev tick : ℕ → Gate
tick now = (tick_time_bound leg (text "15Min") stream true true true now 3000 verified).0

is_open : (blocks_entry_signals leg (tick (1900 * second))).1 ≡ false
unfolding tick_time_bound evaluate_time_bound evaluate_verification transition begin_cold_start
    set_readiness blocks_entry_signals elapsed_seconds wall_clock_freshness_ok
    max_bar_age_for_timeframe stream_is_structurally_intact timeframe_minutes bar_staleness
    stale_after lookup insert
is_open = refl

is_closed : (blocks_entry_signals leg (tick (9000 * second))).1 ≡ true
unfolding tick_time_bound evaluate_time_bound evaluate_verification transition begin_cold_start
    set_readiness blocks_entry_signals elapsed_seconds wall_clock_freshness_ok
    max_bar_age_for_timeframe stream_is_structurally_intact timeframe_minutes bar_staleness
    stale_after lookup insert
is_closed = refl

keeps_policy : policy_of verified leg ≡ fail_safe_close
unfolding evaluate_verification transition begin_cold_start elapsed_seconds wall_clock_freshness_ok
    max_bar_age_for_timeframe stream_is_structurally_intact timeframe_minutes bar_staleness
    stale_after lookup insert evaluate_time_bound
keeps_policy = refl

entry_needs_fresh_example :
    (is_verified (state_of (tick (1900 * second)) leg) ≡ true)
    × ((wall_clock_freshness_ok stream.latest_bar
          (bar_period_for (text "15Min"))
          (1900 * second)
          (max_bar_age_for_timeframe (text "15Min") verified.config)).0
        ≡ true)
entry_needs_fresh_example =
    entry_needs_fresh leg (text "15Min") stream true true (1900 * second) 3000 verified keeps_policy
      is_open

begun_scales :
    (0 < (begun high_availability).config.heuristic_scale)
    × (0 < (begun high_availability).config.bypass_scale)
unfolding begin_cold_start
begun_scales = (omega arith, omega arith)

open_iff_scaled_example :
    ((allows_conservative_entries leg (begun high_availability)).0
      ≡ (blocks_entry_signals leg (begun high_availability)).0)
    × ((allows_conservative_entries leg (begun high_availability)).1
        ≡ not (blocks_entry_signals leg (begun high_availability)).1)
open_iff_scaled_example =
    open_iff_scaled leg (begun high_availability) begun_scales.0 begun_scales.1

abbrev reports : List (ℕ × Bool)
reports = (1500, false) ∷ (1700, false) ∷ (2500, true) ∷ []

clock_counts_ready_time_example :
    elapsed_seconds
      (run_readiness reports
        (begin_cold_start 1000 (leg ∷ []) ((leg, fail_safe_close) ∷ []) [] (new_gate config)))
      3000
    ≡ ready_time true 1000 reports 3000
clock_counts_ready_time_example =
    clock_counts_ready_time config 1000 3000 (leg ∷ []) ((leg, fail_safe_close) ∷ []) [] reports
      (omega arith, (omega arith, (omega arith, omega arith)))

-- Readiness fails after the wait is over: a tick does nothing, but a verification without parity still bypasses.
abbrev failed : Gate
failed =
    (tick_time_bound leg (text "15Min") stream false false false (1900 * second)
      (1000 + 130 * second) (begun high_availability)).0

bypassed_unready :
    (evaluate_verification leg
      (text "15Min")
      false
      none
      stream
      false
      false
      (9000 * second)
      (1000 + 200 * second)
      failed).1
    ≡ some (record {
      leg = leg;
      prior_state = pending;
      new_state = bypass_override;
      reason = text "time_bound_system_bypass";
      lag = some (7200 * second);
      elapsed = 130 * second;
      aligned = false;
      intact = true;
    })
unfolding tick_time_bound evaluate_time_bound evaluate_verification transition begin_cold_start
    set_readiness elapsed_seconds wall_clock_freshness_ok max_bar_age_for_timeframe
    stream_is_structurally_intact timeframe_minutes bar_staleness stale_after lookup insert
bypassed_unready = refl

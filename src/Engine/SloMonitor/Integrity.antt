-- ===== src/Engine/SloMonitor/Integrity.antt =====
-- `evaluate_data_integrity`, and the health of the research pipeline, which it only reports.
use systematic_trading_valid.Common.{
  Bool, List, Option, [], false, if◌then◌else◌, leb, ltb, max, min, nat_eq, none, not, pair_eq,
  some, suc, take, true, zero, ℕ, ◌&&◌, ◌*◌, ◌++◌, ◌-◌, ◌==◌, ◌∷◌,
}
use systematic_trading_valid.Common.Text.{Text, text, text_eq}
use systematic_trading_valid.Core.MarketCalendar.{
  Calendar, Zone, effective_reference_time, is_within_rth, session_bounds,
}
use systematic_trading_valid.Engine.Degradation.{
  Severity, hard_breach, mode_eq, ok_verdict, soft_breach, warning,
}
use systematic_trading_valid.Engine.SloMonitor.{
  Monitor, Rate, above_percent, below_percent, hour, is_market_dormant, minute, nbbo_success_rate,
  note_nbbo_fetch, second,
}
use systematic_trading_valid.Engine.SloMonitor.Gaps.{compute_missing_bar_rate}
use systematic_trading_valid.Engine.BarFreshness.{bar_staleness, stale_after, timeframe_minutes}

-- The loop of `query_rl_backfill_lag_hours`, over the origins of the rows without a reward
abbrev pub backfill_lag_from : ℕ → ℕ → ℕ → List ℕ → ℕ
backfill_lag_from min_age reference max_lag [] = max_lag
backfill_lag_from min_age reference max_lag (t ∷ ts) =
    let age = reference - t in
    backfill_lag_from min_age reference
      (if ltb age min_age then max_lag else max max_lag (age - min_age)) ts

-- `query_rl_backfill_lag_hours`, in microseconds, where `none` is a `sqlite3.Error`
unfoldable pub query_rl_backfill_lag : ℕ → Option (List ℕ) → ℕ → ℕ
query_rl_backfill_lag min_age none reference = 0
query_rl_backfill_lag min_age (some rows) reference =
    backfill_lag_from min_age reference 0 (take 200 rows)

-- The payload: what a leg's feed reports, with the rows of the shadow ledger
pub record Payload : Type 0 where
  pub exchange_reference : ℕ
  pub is_crypto : Bool
  pub symbol : Text
  pub timeframe : Text
  pub bar_minutes : Option ℕ
  pub latest_bar : ℕ
  pub bar_timestamps : List ℕ
  pub lookback_bars : Option ℕ
  pub nbbo_fetch_success : Option Bool
  pub nbbo_rate : Option Rate
  pub rl_backfill_lag : Option ℕ
  pub shadow_rows : Option (List ℕ)
  pub ingest_circuit_breaker_tripped : Bool
  pub sequence_misalignment_events : ℕ
  pub ingest_arrival_lag : ℕ

-- `x or y`, where zero is false
abbrev pub or_else : Option ℕ → ℕ → ℕ
or_else none y = y
or_else (some zero) y = y
or_else (some (suc x)) y = suc x

abbrev pub rate_or_else : Option Rate → Rate → Rate
rate_or_else none y = y
rate_or_else (some r) y = if r.num == 0 then y else r

pub data Reason : Type 0 where
  dormant_market_closed : Reason
  bar_freshness_drift bar_freshness_critical : Reason
  missing_bar_rate_elevated missing_bar_rate_critical : Reason
  nbbo_fetch_degraded nbbo_fetch_critical : Reason
  circuit_breaker_tripped : Reason
  sequence_misalignment sequence_misalignment_critical : Reason
  arrival_lag arrival_lag_critical : Reason

-- `DataIntegrityVerdict`
pub record DataVerdict : Type 0 where
  pub passed : Bool
  pub severity : Severity
  pub bar_freshness : ℕ
  pub missing_bar_rate : Rate
  pub nbbo_success : Rate
  pub rl_lag : ℕ
  pub calendar_session_minutes : ℕ
  pub is_early_close_session : Bool
  pub reasons : List Reason

abbrev pub severity_rank : Severity → ℕ
severity_rank ok_verdict = 0
severity_rank warning = 1
severity_rank soft_breach = 2
severity_rank hard_breach = 3

abbrev pub max_severity : Severity → Severity → Severity
max_severity current candidate =
    if leb (severity_rank candidate) (severity_rank current) then current else candidate

-- `_calendar_adjusted_freshness_limit`
unfoldable pub calendar_adjusted_freshness_limit : Zone → Calendar → ℕ → ℕ → ℕ → Bool → ℕ
unfolding session_bounds
calendar_adjusted_freshness_limit z c freshness bar_minutes reference is_crypto =
    let bounds = session_bounds c (z.to_et reference).day in
    if is_crypto
    then freshness
    else if is_within_rth z c reference
    then freshness
    else if bounds.early_close && not bounds.trading_day
    then freshness
    else min freshness (bar_minutes * minute)

-- The severity and the reasons so far
pub record Findings : Type 0 where
  pub severity : Severity
  pub reasons : List Reason

unfoldable pub raise_soft : Bool → Reason → Findings → Findings
raise_soft b r f =
    if b
    then record { severity = max_severity f.severity soft_breach; reasons = f.reasons ++ (r ∷ []) }
    else f

unfoldable pub raise_hard : Bool → Reason → Findings → Findings
raise_hard b r f =
    if b then record { severity = hard_breach; reasons = f.reasons ++ (r ∷ []) } else f

-- `if b: …HARD… elif c: …SOFT…`
unfoldable pub raise_first : Bool → Reason → Bool → Reason → Findings → Findings
unfolding raise_soft raise_hard
raise_first b r c q f = if b then raise_hard true r f else raise_soft c q f

-- What the tests read
pub record Measures : Type 0 where
  pub bar_period : ℕ
  pub freshness : ℕ
  pub missing_rate : Rate
  pub success_rate : Rate
  pub circuit_tripped : Bool
  pub misalignments : ℕ
  pub lag : ℕ
  pub lag_period : ℕ

abbrev pub judge_freshness : Measures → Findings → Findings
judge_freshness x f =
    raise_hard (ltb (stale_after x.bar_period (600 * second)) x.freshness) bar_freshness_critical
      (raise_soft (ltb (stale_after x.bar_period (150 * second)) x.freshness) bar_freshness_drift f)

abbrev pub judge_missing : Measures → Findings → Findings
judge_missing x f =
    raise_hard (above_percent x.missing_rate 18) missing_bar_rate_critical
      (raise_soft (above_percent x.missing_rate 6) missing_bar_rate_elevated f)

abbrev pub judge_nbbo : Measures → Findings → Findings
judge_nbbo x f =
    raise_hard (below_percent x.success_rate 55) nbbo_fetch_critical
      (raise_soft (below_percent x.success_rate 85) nbbo_fetch_degraded f)

abbrev pub judge_sequence : Measures → Findings → Findings
judge_sequence x f =
    raise_first (leb 5 x.misalignments) sequence_misalignment_critical (leb 1 x.misalignments)
      sequence_misalignment f

-- The lag as a fraction of the bar period: 30 / 900 and 15 / 900
abbrev pub judge_arrival : Measures → Findings → Findings
judge_arrival x f =
    raise_first (ltb 0 x.lag_period && ltb (30 * x.lag_period) (900 * x.lag)) arrival_lag_critical
      (ltb 0 x.lag_period && ltb (15 * x.lag_period) (900 * x.lag)) arrival_lag f

unfoldable pub judge : Measures → Findings
judge x = judge_arrival x (
    judge_sequence x (
      raise_soft x.circuit_tripped circuit_breaker_tripped (
        judge_nbbo x
          (judge_missing x (judge_freshness x (record { severity = ok_verdict; reasons = [] }))))))

abbrev pub passes : Severity → Bool
passes ok_verdict = true
passes warning = true
passes soft_breach = false
passes hard_breach = false

abbrev pub dormant_verdict : DataVerdict
dormant_verdict = record {
  passed = true;
  severity = ok_verdict;
  bar_freshness = 0;
  missing_bar_rate = record { num = 0; den = 1 };
  nbbo_success = record { num = 1; den = 1 };
  rl_lag = 0;
  calendar_session_minutes = 0;
  is_early_close_session = false;
  reasons = dormant_market_closed ∷ [];
}

-- The fetch that the payload reports, if it reports one
abbrev pub note_reported : Option Bool → Monitor → Text → Bool → ℕ → Monitor
note_reported none m symbol is_crypto reference = m
note_reported (some success) m symbol is_crypto reference =
    note_nbbo_fetch m success symbol is_crypto reference

abbrev pub note_payload : Monitor → Payload → Monitor
note_payload m p = note_reported p.nbbo_fetch_success m p.symbol p.is_crypto p.exchange_reference

abbrev pub bar_minutes_of : Payload → ℕ
bar_minutes_of p = or_else p.bar_minutes (timeframe_minutes p.timeframe)

unfoldable pub measure : Monitor → Payload → Measures
measure m p =
    let bar_minutes = bar_minutes_of p in
    let reference = effective_reference_time m.zone m.calendar p.exchange_reference p.is_crypto in
    record {
      bar_period = bar_minutes * minute;
      freshness =
          calendar_adjusted_freshness_limit m.zone m.calendar
            (bar_staleness p.latest_bar (bar_minutes * minute) reference) bar_minutes
            p.exchange_reference p.is_crypto;
      missing_rate =
          compute_missing_bar_rate m.zone m.calendar p.bar_timestamps bar_minutes
            (or_else p.lookback_bars 48) p.is_crypto;
      success_rate = rate_or_else p.nbbo_rate (nbbo_success_rate (note_payload m p) p.symbol);
      circuit_tripped = p.ingest_circuit_breaker_tripped;
      misalignments = p.sequence_misalignment_events;
      lag = p.ingest_arrival_lag;
      lag_period = timeframe_minutes p.timeframe * minute;
    }

abbrev pub rl_lag_of : ℕ → Option ℕ → Option (List ℕ) → ℕ → ℕ
rl_lag_of min_age none rows reference = query_rl_backfill_lag min_age rows reference
rl_lag_of min_age (some l) rows reference = l

unfoldable pub evaluate_data_integrity : Monitor → Payload → Monitor × DataVerdict
unfolding session_bounds
evaluate_data_integrity m p =
    let x = measure m p in
    let f = judge x in
    let bounds = session_bounds m.calendar (m.zone.to_et p.exchange_reference).day in
    if is_market_dormant m p.is_crypto p.exchange_reference then (m, dormant_verdict) else (
      note_payload m p,
      record {
        passed = passes f.severity;
        severity = f.severity;
        bar_freshness = x.freshness;
        missing_bar_rate = x.missing_rate;
        nbbo_success = x.success_rate;
        rl_lag =
            rl_lag_of m.rl_backfill_min_age p.rl_backfill_lag p.shadow_rows p.exchange_reference;
        calendar_session_minutes = bounds.session_minutes;
        is_early_close_session = bounds.early_close;
        reasons = f.reasons;
      },
    )

pub record ResearchHealth : Type 0 where
  pub healthy : Bool
  pub alert : Bool
  pub lag : ℕ
  pub reason : Text

unfoldable pub evaluate_research_pipeline_health :
    Monitor → ℕ → Option ℕ → Option (List ℕ) → ResearchHealth
evaluate_research_pipeline_health m reference given rows =
    let lag = rl_lag_of m.rl_backfill_min_age given rows reference in
    record {
      healthy = leb lag (8 * hour);
      alert = ltb (30 * hour) lag;
      lag = lag;
      reason = if leb lag (8 * hour) then [] else text "rl_backfill_lag";
    }

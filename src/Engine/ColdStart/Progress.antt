-- ===== src/Engine/ColdStart/Progress.antt =====
-- The progress of a leg: `evaluate_verification`, `tick_time_bound` and the time bound.
use systematic_trading_valid.Common.{
  Bool, Option, contains, false, if◌then◌else◌, is_some, keep_if, leb, ltb, nat_eq, none, not,
  pair_eq, some, true, ℕ, ◌&&◌, ◌*◌, ◌==◌, ◌||◌, ◌∷◌,
}
use systematic_trading_valid.Common.Int.{ltb_ℤ, pos}
use systematic_trading_valid.Common.Text.{Text, text, text_eq}
use systematic_trading_valid.Common.Dict.{insert, lookup}
use systematic_trading_valid.Engine.ColdStart.{
  Config, Gate, GateState, Policy, Stream, Transition, bypass_override, elapsed_seconds,
  fail_safe_close, heuristic_parity, high_availability, is_verified, pending, pending_blocked,
  policy_of, set_readiness, stabilized_verified, stale_reverify, state_of, state_value,
}
use systematic_trading_valid.Engine.SloMonitor.{minute}
use systematic_trading_valid.Engine.BarFreshness.{bar_staleness, stale_after, timeframe_minutes}

-- `stream_is_structurally_intact`
abbrev is_after : Option ℕ → Option ℕ → Bool
is_after none p = false
is_after (some l) none = false
is_after (some l) (some p) = ltb p l

unfoldable pub stream_is_structurally_intact : Stream → Bool
stream_is_structurally_intact s =
    leb 2 s.bar_count
    && is_after s.latest_bar s.prior_bar
    && (ltb_ℤ (pos 0) s.latest_volume || ltb_ℤ (pos 0) s.prior_volume)

abbrev pub bar_period_for : Text → ℕ
bar_period_for timeframe = timeframe_minutes timeframe * minute

unfoldable pub max_bar_age_for_timeframe : Text → Config → ℕ
max_bar_age_for_timeframe timeframe c = stale_after (bar_period_for timeframe) c.max_bar_age

unfoldable pub wall_clock_freshness_ok : Option ℕ → ℕ → ℕ → ℕ → Bool × Option ℕ
wall_clock_freshness_ok none period now max_age = (false, none)
wall_clock_freshness_ok (some bar) period now max_age =
    let lag = bar_staleness bar period now in (leb lag max_age, some lag)

-- What a call sees of a leg
pub record Sight : Type 0 where
  pub fresh : Bool
  pub lag : Option ℕ
  pub intact : Bool
  pub aligned : Bool
  pub verified : Bool
  pub max_age : ℕ
  pub mono : ℕ

unfoldable pub transition : Text → GateState → Text → Sight → Bool → Bool → Gate → Gate × Transition
transition s new reason v aligned intact g =
    let t : Transition = record {
      leg = s;
      prior_state = state_of g s;
      new_state = new;
      reason = reason;
      lag = v.lag;
      elapsed = elapsed_seconds g v.mono;
      aligned = aligned;
      intact = intact;
    } in
    if state_value (state_of g s) == state_value new
    then (g, t)
    else (record g { states = insert s new g.states; transitions = insert s t g.transitions }, t)

abbrev pub moved : Gate × Transition → Gate × Option Transition
moved r = (r.0, some r.1)

-- One warning for each time that the lag passes half of the limit
abbrev warn_lag : Text → Option ℕ → Sight → Gate → Gate
warn_lag s none v g = g
warn_lag s (some lag) v g =
    if v.fresh && ltb v.max_age (2 * lag)
    then record g {
      stale_warned = if contains s g.stale_warned then g.stale_warned else s ∷ g.stale_warned;
    }
    else record g { stale_warned = keep_if (λ i. not (i == s)) g.stale_warned }

abbrev pub check_stale_feed_early_warning : Text → Sight → Gate → Gate
check_stale_feed_early_warning s v g = warn_lag s v.lag v g

-- The time bound is over, and the leg is not verified: by the policy of the leg
abbrev pub time_out : GateState → Policy → Text → Sight → Gate → Gate × Option Transition
time_out pending fail_safe_close s v g = moved (
    transition s pending_blocked (text "fail_safe_timeout_without_matrix_parity") v v.aligned
      v.intact g)
time_out pending_blocked fail_safe_close s v g = (g, none)
time_out heuristic_parity fail_safe_close s v g = (g, none)
time_out stabilized_verified fail_safe_close s v g = (g, none)
time_out stale_reverify fail_safe_close s v g = (g, none)
time_out bypass_override fail_safe_close s v g = (g, none)
time_out pending high_availability s v g =
    if v.intact && v.fresh
    then moved
        (transition s heuristic_parity (text "time_bound_heuristic_parity") v v.aligned true g)
    else moved
        (transition s bypass_override (text "time_bound_system_bypass") v v.aligned v.intact g)
time_out pending_blocked high_availability s v g =
    moved (transition s bypass_override (text "time_bound_system_bypass") v v.aligned v.intact g)
time_out heuristic_parity high_availability s v g =
    moved (transition s bypass_override (text "time_bound_system_bypass") v v.aligned v.intact g)
time_out stabilized_verified high_availability s v g =
    moved (transition s bypass_override (text "time_bound_system_bypass") v v.aligned v.intact g)
time_out stale_reverify high_availability s v g =
    moved (transition s bypass_override (text "time_bound_system_bypass") v v.aligned v.intact g)
time_out bypass_override high_availability s v g = (g, none)

-- A leg that waits for its first verification
abbrev pub bounded : GateState → Text → Sight → Gate → Gate × Option Transition
bounded st s v g =
    let verified = moved (
      transition s stabilized_verified (text "time_bound_stabilized_verified") v true v.intact g) in
    if ltb (elapsed_seconds g v.mono) g.config.max_wait
    then (g, none)
    else if v.aligned && v.verified && v.fresh && v.intact
    then verified
    else time_out st (policy_of g s) s v g

abbrev pub time_bound_in : GateState → Text → Sight → Gate → Gate × Option Transition
time_bound_in bypass_override s v g = (g, none)
time_bound_in stabilized_verified s v g =
    let h = check_stale_feed_early_warning s v g in
    if v.fresh
    then (h, none)
    else moved
        (transition s stale_reverify (text "stabilized_verified_feed_stale") v v.aligned v.intact h)
time_bound_in stale_reverify s v g =
    let h = check_stale_feed_early_warning s v g in
    if v.fresh && v.aligned
    then moved
        (transition s stabilized_verified (text "stale_reverify_feed_recovered") v true v.intact h)
    else (h, none)
time_bound_in pending s v g = bounded pending s v (check_stale_feed_early_warning s v g)
time_bound_in pending_blocked s v g =
    bounded pending_blocked s v (check_stale_feed_early_warning s v g)
time_bound_in heuristic_parity s v g =
    bounded heuristic_parity s v (check_stale_feed_early_warning s v g)

unfoldable pub evaluate_time_bound : Text → Sight → Gate → Gate × Option Transition
evaluate_time_bound s v g = time_bound_in (state_of g s) s v g

abbrev pub sight_of : Config → Text → Stream → Bool → Bool → ℕ → ℕ → Sight
sight_of c timeframe stream aligned verified now mono =
    let max_age = max_bar_age_for_timeframe timeframe c in
    let seen = wall_clock_freshness_ok stream.latest_bar (bar_period_for timeframe) now max_age in
    record {
      fresh = seen.0;
      lag = seen.1;
      intact = stream_is_structurally_intact stream;
      aligned = aligned;
      verified = verified;
      max_age = max_age;
      mono = mono;
    }

abbrev last_transition : Gate → Text → Option Transition
last_transition g s = lookup s g.transitions

abbrev verify_with : Text → Sight → Gate → Gate × Option Transition
verify_with s v g =
    let verified = moved (
      transition s stabilized_verified (text "matrix_parity_and_wall_clock_fresh") v true v.intact
        g) in
    let r = evaluate_time_bound s v g in
    if v.aligned && v.verified && v.fresh && v.intact && not (is_verified (state_of g s))
    then verified
    else if v.aligned && not v.fresh
    then (g, none)
    else (r.0, last_transition r.0 s)

-- The matrix is aligned if it says so and gives no reason to skip it.
unfoldable pub evaluate_verification :
    Text
    → Text
    → Bool
    → Option Text
    → Stream
    → Bool
    → Bool
    → ℕ
    → ℕ
    → Gate
    → Gate × Option Transition
evaluate_verification s timeframe matrix_aligned skip_reason stream verified divergent now mono g =
    let v =
      sight_of g.config timeframe stream (matrix_aligned && not (is_some skip_reason)) verified now
        mono in
    if divergent then (g, none) else verify_with s v g

unfoldable pub tick_time_bound :
    Text → Text → Stream → Bool → Bool → Bool → ℕ → ℕ → Gate → Gate × Option Transition
tick_time_bound s timeframe stream aligned verified readiness_ok now mono g =
    let h = set_readiness mono readiness_ok g in
    if readiness_ok
    then evaluate_time_bound s (sight_of g.config timeframe stream aligned verified now mono) h
    else (h, none)

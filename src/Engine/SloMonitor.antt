-- ===== src/Engine/SloMonitor.antt =====
-- src/engine/slo_monitor.py: the monitor that grades the live feeds. Times and ages are in microseconds of
-- UTC, and a rate is a fraction that is compared exactly. The calendar is that of Core.MarketCalendar.
pub mod Gaps
pub mod Integrity
pub mod Grades
pub mod Isolation
mod Examples
use systematic_trading_valid.Common.{
  Bool, List, Option, [], count_if, if◌then◌else◌, length, ltb, nat_eq, none, not, pair_eq, some,
  suc, zero, ℕ, ◌&&◌, ◌*◌, ◌++◌, ◌-◌, ◌∷◌,
}
use systematic_trading_valid.Common.Text.{Text, text_eq, upper}
use systematic_trading_valid.Common.Dict.{Dict, insert, lookup}
use systematic_trading_valid.Core.MarketCalendar.{Calendar, Zone, is_within_rth}
use systematic_trading_valid.Engine.Degradation.{mode_eq}

pub record Rate : Type 0 where
  pub num : ℕ
  pub den : ℕ

-- `r < a / 100`, and `r > a / 100`
abbrev pub below_percent : Rate → ℕ → Bool
below_percent r a = ltb (r.num * 100) (a * r.den)

abbrev pub above_percent : Rate → ℕ → Bool
above_percent r a = ltb (a * r.den) (r.num * 100)

abbrev pub second : ℕ
second = 1000000

abbrev pub minute : ℕ
minute = 60 * second

abbrev pub hour : ℕ
hour = 60 * minute

abbrev pub nbbo_track_window : ℕ
nbbo_track_window = 40

-- The last `n` items, `xs[-n:]`
abbrev drop {ℓ} : {A : Type ℓ} → ℕ → List A → List A
drop zero xs = xs
drop (suc n) [] = []
drop (suc n) (x ∷ xs) = drop n xs

abbrev pub take_last {ℓ} : {A : Type ℓ} → ℕ → List A → List A
take_last n xs = drop (length xs - n) xs

-- `SLOMonitor`, with the attempts of each symbol, oldest first. `RL_BACKFILL_MIN_AGE_HOURS` is a constant of
-- src/persistence/db.py, which the repository does not hold.
pub record Monitor : Type 0 where
  pub zone : Zone
  pub calendar : Calendar
  pub max_cycle_budget_ms : ℕ
  pub max_pending_bundles : ℕ
  pub rl_backfill_min_age : ℕ
  pub nbbo_attempts : Dict Text (List Bool)

abbrev pub or_no_attempts : Option (List Bool) → List Bool
or_no_attempts none = []
or_no_attempts (some d) = d

abbrev pub attempts_of : Monitor → Text → List Bool
attempts_of m symbol = or_no_attempts (lookup (upper symbol) m.nbbo_attempts)

abbrev pub note_attempt : Monitor → Text → Bool → Monitor
note_attempt m symbol success = record m {
  nbbo_attempts =
      insert (upper symbol) (take_last nbbo_track_window (attempts_of m symbol ++ (success ∷ [])))
        m.nbbo_attempts;
}

unfoldable pub is_market_dormant : Monitor → Bool → ℕ → Bool
is_market_dormant m is_crypto t = not is_crypto && not (is_within_rth m.zone m.calendar t)

-- No sample of a closed market is recorded.
unfoldable pub note_nbbo_fetch : Monitor → Bool → Text → Bool → ℕ → Monitor
note_nbbo_fetch m success symbol is_crypto reference =
    if not is_crypto && not (is_within_rth m.zone m.calendar reference)
    then m
    else note_attempt m symbol success

abbrev pub mean_of : List Bool → Rate
mean_of [] = record { num = 1; den = 1 }
mean_of (b ∷ bs) = record { num = count_if (λ x. x) (b ∷ bs); den = length (b ∷ bs) }

unfoldable pub nbbo_success_rate : Monitor → Text → Rate
nbbo_success_rate m symbol = mean_of (attempts_of m symbol)

pub record CycleLatencyVerdict : Type 0 where
  pub total_cycle_ms : ℕ
  pub phase_a_ms : ℕ
  pub phase_b_ms : ℕ
  pub phase_c_ms : ℕ
  pub cycle_budget_ms : ℕ
  pub violated : Bool

unfoldable pub evaluate_cycle_latency : Monitor → ℕ → ℕ → ℕ → ℕ → CycleLatencyVerdict
evaluate_cycle_latency m a b c total = record {
  total_cycle_ms = total;
  phase_a_ms = a;
  phase_b_ms = b;
  phase_c_ms = c;
  cycle_budget_ms = m.max_cycle_budget_ms;
  violated = ltb m.max_cycle_budget_ms total;
}

pub record BackpressureVerdict : Type 0 where
  pub pending_bundles : ℕ
  pub bundle_limit : ℕ
  pub blocks_new_entries : Bool

unfoldable pub evaluate_fill_sieve_backpressure : Monitor → ℕ → BackpressureVerdict
evaluate_fill_sieve_backpressure m pending = record {
  pending_bundles = pending;
  bundle_limit = m.max_pending_bundles;
  blocks_new_entries = ltb m.max_pending_bundles pending;
}

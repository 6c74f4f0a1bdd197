-- ===== src/Core/MarketCalendar.antt =====
-- src/core/market_calendar.py: the NYSE session calendar. A date is its ordinal (`date.toordinal`), a time of
-- day is in microseconds, and the zone database of `zoneinfo` is a parameter. Dates near the year 1,
-- where `date` arithmetic overflows, are not modelled.
pub mod LastClose
pub mod Reference
mod Examples
use systematic_trading_valid.Common.{
  Bool, List, Option, [], contains, false, if◌then◌else◌, leb, ltb, max, nat_eq, none, not, pair_eq,
  some, suc, zero, ℕ, ◌%◌, ◌&&◌, ◌*◌, ◌+◌, ◌-◌, ◌/◌, ◌<◌, ◌==◌, ◌||◌, ◌∷◌, ◌≡◌, ◌≤◌,
}
use systematic_trading_valid.Common.Text.{text_eq}

abbrev pub is_leap : ℕ → Bool
is_leap y = (y % 4 == 0) && (not (y % 100 == 0) || (y % 400 == 0))

-- The days of a year before a month from 1 to 12
abbrev pub days_before_month : ℕ → ℕ → ℕ
days_before_month y m =
    if leb m 2 then (m - 1) * 31 else (153 * (m - 3) + 2) / 5 + 59 + (if is_leap y then 1 else 0)

-- `datetime.date(y, m, d)`, by its ordinal
abbrev pub date : ℕ → ℕ → ℕ → ℕ
date y m d = let p = y - 1 in p * 365 + p / 4 - p / 100 + p / 400 + days_before_month y m + d

-- `date.weekday()`: Monday is 0.
abbrev pub weekday : ℕ → ℕ
weekday d = (d + 6) % 7

-- `datetime.time(h, m)`
abbrev pub time : ℕ → ℕ → ℕ
time h m = (h * 60 + m) * 60000000

abbrev pub rth_open : ℕ
rth_open = time 9 30

abbrev pub rth_close_regular : ℕ
rth_close_regular = time 16 0

abbrev pub rth_close_early : ℕ
rth_close_early = time 13 0

abbrev pub nyse_holidays : List ℕ
nyse_holidays =
    date 2025 1 1
    ∷ date 2025 1 20
    ∷ date 2025 2 17
    ∷ date 2025 4 18
    ∷ date 2025 5 26
    ∷ date 2025 6 19
    ∷ date 2025 7 4
    ∷ date 2025 9 1
    ∷ date 2025 11 27
    ∷ date 2025 12 25
    ∷ date 2026 1 1
    ∷ date 2026 1 19
    ∷ date 2026 2 16
    ∷ date 2026 4 3
    ∷ date 2026 5 25
    ∷ date 2026 6 19
    ∷ date 2026 7 3
    ∷ date 2026 9 7
    ∷ date 2026 11 26
    ∷ date 2026 12 25
    ∷ date 2027 1 1
    ∷ date 2027 1 18
    ∷ date 2027 2 15
    ∷ date 2027 3 26
    ∷ date 2027 5 31
    ∷ date 2027 6 18
    ∷ date 2027 7 5
    ∷ date 2027 9 6
    ∷ date 2027 11 25
    ∷ date 2027 12 24
    ∷ []

abbrev pub nyse_early_close : List ℕ
nyse_early_close =
    date 2025 7 3
    ∷ date 2025 11 28
    ∷ date 2025 12 24
    ∷ date 2026 11 27
    ∷ date 2026 12 24
    ∷ date 2027 11 26
    ∷ date 2027 12 31
    ∷ []

-- A `datetime` with the exchange's zone: two of them compare by the clock on the wall.
pub record Wall : Type 0 where
  pub day : ℕ
  pub clock : ℕ

abbrev pub wall_leb : Wall → Wall → Bool
wall_leb a b = ltb a.day b.day || ((a.day == b.day) && leb a.clock b.clock)

-- `astimezone(ET)` of an instant in UTC, and `astimezone(timezone.utc)` back. From three in the morning
-- on, when no clock is put forward or back, the wall's time stands for one instant.
pub record Zone : Type 0 where
  pub to_et : ℕ → Wall
  pub to_utc : Wall → ℕ
  pub back : (w : Wall) → time 3 0 ≤ w.clock → w.clock < time 24 0 → to_et (to_utc w) ≡ w

pub record SessionBounds : Type 0 where
  pub session_date : ℕ
  pub open_et : Wall
  pub close_et : Wall
  pub session_minutes : ℕ
  pub early_close : Bool
  pub trading_day : Bool

-- `MarketSessionCalendar`
pub record Calendar : Type 0 where
  pub holidays : List ℕ
  pub early_closes : List ℕ

abbrev pub nyse : Calendar
nyse = record { holidays = nyse_holidays; early_closes = nyse_early_close }

unfoldable pub is_trading_day : Calendar → ℕ → Bool
is_trading_day c d = if leb 5 (weekday d) then false else not (contains d c.holidays)

unfoldable pub is_early_close : Calendar → ℕ → Bool
is_early_close c d = contains d c.early_closes

unfoldable pub session_close_time : Calendar → ℕ → ℕ
unfolding is_early_close
session_close_time c d = if is_early_close c d then rth_close_early else rth_close_regular

unfoldable pub session_bounds : Calendar → ℕ → SessionBounds
session_bounds c d = record {
  session_date = d;
  open_et = record { day = d; clock = rth_open };
  close_et = record { day = d; clock = session_close_time c d };
  session_minutes =
      if is_trading_day c d then (session_close_time c d - rth_open) / 60000000 else 0;
  early_close = is_early_close c d;
  trading_day = is_trading_day c d;
}

-- `is_within_rth` of the time on the wall
unfoldable pub within_rth_at : Calendar → Wall → Bool
unfolding session_bounds
within_rth_at c et =
    let bounds = session_bounds c et.day in
    if not bounds.trading_day
    then false
    else leb rth_open et.clock && leb et.clock bounds.close_et.clock

unfoldable pub is_within_rth : Zone → Calendar → ℕ → Bool
is_within_rth z c t = within_rth_at c (z.to_et t)

-- The loop of `last_session_close`, with the rounds left and the cursor
unfoldable pub last_close_from : Calendar → Wall → ℕ → ℕ → Option Wall
unfolding session_bounds
last_close_from c et zero cursor = none
last_close_from c et (suc n) cursor =
    let close_dt = (session_bounds c cursor).close_et in
    let earlier = last_close_from c et n (cursor - 1) in
    if is_trading_day c cursor && (wall_leb close_dt et || ltb cursor et.day)
    then some close_dt
    else earlier

-- `last_session_close`: an instant in UTC
unfoldable pub last_session_close : Zone → Calendar → ℕ → ℕ
last_session_close z c reference =
    let et = z.to_et reference in
    elim (last_close_from c et 10 et.day) [ none ↦ reference | some w ↦ z.to_utc w ]

unfoldable pub effective_reference_time : Zone → Calendar → ℕ → Bool → ℕ
effective_reference_time z c t is_crypto =
    if is_crypto then t else if is_within_rth z c t then t else last_session_close z c t

unfoldable pub expected_bars_for_session : Calendar → ℕ → ℕ → ℕ
unfolding session_bounds
expected_bars_for_session c d bar_minutes =
    let bounds = session_bounds c d in
    if not bounds.trading_day || leb bar_minutes 0
    then 0
    else max 1 (bounds.session_minutes / bar_minutes)

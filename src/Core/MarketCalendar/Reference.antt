-- ===== src/Core/MarketCalendar/Reference.antt =====
-- The reference time of a stock on the NYSE calendar, for every instant from the first days of the calendar on.
use systematic_trading_valid.Common.{
  All, Bool, Bool-cases, List, [], and_left, and_right, arith, contains, false, if◌then◌else◌, inl,
  inr, ltb, ltb→lt, nat_beq, nat_beq_iff, nat_eq, pair_eq, refl, some, suc, true, zero, ℕ, ◌&&◌,
  ◌+◌, ◌-◌, ◌<◌, ◌||◌, ◌∷◌, ◌≡◌, ◌≤◌, ◌⊎◌,
}
use systematic_trading_valid.Common.Text.{text_eq}
use systematic_trading_valid.Core.MarketCalendar.{
  Calendar, Wall, Zone, date, effective_reference_time, is_trading_day, is_within_rth,
  last_close_from, last_session_close, nyse, nyse_holidays, session_close_time, weekday,
  within_rth_at,
}
use systematic_trading_valid.Core.MarketCalendar.LastClose.{close_of, ten_days_suffice}

-- One of the `k` days before `n` has a session.
open_before : Calendar → ℕ → ℕ → Bool
open_before c n zero = false
open_before c n (suc k) = is_trading_day c (n - 1) || open_before c (n - 1) k

open_before_sound :
    (c : Calendar) (n k : ℕ)
    → k ≤ n
    → open_before c n k ≡ true
    → (d : ℕ) × (is_trading_day c d ≡ true) × (d < n) × (n ≤ d + k)
unfolding open_before
open_before_sound c n zero le h = cc
open_before_sound c n (suc k) le h = elim (Bool-cases (is_trading_day c (n - 1))) [
  | inl e ↦ (n - 1, e, omega arith, omega arith)
  | inr e ↦
      let (d, t, lt, near) = open_before_sound c (n - 1) k (omega arith) (simp e at h) in
      (d, t, omega arith, omega arith)
]

all_from : ℕ → ℕ → (ℕ → Bool) → Bool
all_from a zero p = true
all_from a (suc n) p = p a && all_from (a + 1) n p

all_from_sound :
    (a n : ℕ) (p : ℕ → Bool) (x : ℕ) → all_from a n p ≡ true → a ≤ x → x < a + n → p x ≡ true
unfolding all_from
all_from_sound a zero p x h le lt = absurd (omega arith)
all_from_sound a (suc n) p x h le lt = elim (Bool-cases (nat_beq a x)) [
  | inl e ↦ rw ((nat_beq_iff a x).0 e) at (and_left (p a) _ h)
  | inr e ↦ all_from_sound (a + 1) n p x (and_right (p a) _ h) (ground arith) (omega arith)
]

abbrev first_holiday : ℕ
first_holiday = date 2025 1 1

abbrev last_holiday : ℕ
last_holiday = date 2027 12 24

holidays_between : All (λ h. (first_holiday ≤ h) × (h ≤ last_holiday)) nyse_holidays
holidays_between = omega arith

not_listed :
    (lo hi d : ℕ) (hs : List ℕ)
    → All (λ h. (lo ≤ h) × (h ≤ hi)) hs
    → (d < lo) ⊎ (hi < d)
    → contains d hs ≡ false
not_listed lo hi d [] a out = refl
not_listed lo hi d (h ∷ hs) a out = ground (arith, not_listed lo hi d hs a.1 out)

-- In the years that the list of holidays covers, and the ten days after
nyse_covered :
    all_from first_holiday (last_holiday + 10 - first_holiday) (λ n. open_before nyse n 9) ≡ true
unfolding is_trading_day open_before all_from
nyse_covered = refl

weekday_before : (n : ℕ) → 3 ≤ n → (d : ℕ) × (weekday d < 5) × (d < n) × (n ≤ d + 3)
weekday_before n h = elim (Bool-cases (ltb (weekday (n - 1)) 5)) [
  | inl e ↦ (n - 1, ltb→lt _ _ e, omega arith, omega arith)
  | inr e ↦ elim (Bool-cases (ltb (weekday (n - 2)) 5)) [
    | inl f ↦ (n - 2, ltb→lt _ _ f, omega arith, omega arith)
    | inr f ↦ (n - 3, ground arith, omega arith, omega arith)
  ]
]

trading_of_weekday :
    (d : ℕ) → weekday d < 5 → contains d nyse_holidays ≡ false → is_trading_day nyse d ≡ true
unfolding is_trading_day
trading_of_weekday d w h = simp h (ground arith)

pub nyse_open_before :
    (n : ℕ) → 10 ≤ n → (d : ℕ) × (is_trading_day nyse d ≡ true) × (d < n) × (n < d + 10)
nyse_open_before n h = elim (Bool-cases (ltb first_holiday n && ltb n (last_holiday + 10))) [
  | inl e ↦
      let covered =
        all_from_sound first_holiday _ (λ m. open_before nyse m 9) n nyse_covered (ground arith)
          (ground arith) in
      let (d, t, lt, near) = open_before_sound nyse n 9 (omega arith) covered in
      (d, t, lt, omega arith)
  | inr e ↦
      let (d, w, lt, near) = weekday_before n (omega arith) in
      (
        d,
        trading_of_weekday d w
            (not_listed first_holiday last_holiday d nyse_holidays holidays_between (ground arith)),
        lt,
        omega arith,
      )
]

-- The close of a session is in it, and the zone database reads it back.
close_in_session :
    (z : Zone) (c : Calendar) (d : ℕ)
    → is_trading_day c d ≡ true
    → is_within_rth z c (z.to_utc (close_of c d)) ≡ true
unfolding is_within_rth within_rth_at session_close_time
close_in_session z c d t =
    rw (z.back (close_of c d) (ground arith) (ground arith)) (rw t (ground arith))

last_session_close-found :
    (z : Zone) (c : Calendar) (t : ℕ) (w : Wall)
    → last_close_from c (z.to_et t) 10 (z.to_et t).day ≡ some w
    → last_session_close z c t ≡ z.to_utc w
unfolding last_session_close
last_session_close-found z c t w e = ground arith

module _ (z : Zone) (t : ℕ) (recent : 10 ≤ (z.to_et t).day) where
  last_close_in_session : is_within_rth z nyse (last_session_close z nyse t) ≡ true
  last_close_in_session =
      let et = z.to_et t in
      let (d, trades, lt, near) = nyse_open_before et.day recent in
      let (w, found, last) = ten_days_suffice nyse et d (trades, ground arith) near in
      rw (last_session_close-found z nyse t w found, last.is_close)
        (close_in_session z nyse w.day last.has_closed.0)

  reference_in_session : is_within_rth z nyse (effective_reference_time z nyse t false) ≡ true
  unfolding effective_reference_time
  reference_in_session = elim (Bool-cases (is_within_rth z nyse t)) [
    | inl e ↦ rw (e, if◌then◌else◌) e
    | inr e ↦ rw (e, if◌then◌else◌) last_close_in_session
  ]

  -- On the NYSE calendar the reference time of a stock lies in a session, whatever the instant that it is
  -- asked for, and is its own reference time.
  pub stock_reference :
      (is_within_rth z nyse (effective_reference_time z nyse t false) ≡ true)
      × (effective_reference_time z nyse (effective_reference_time z nyse t false) false
          ≡ effective_reference_time z nyse t false)
  stock_reference =
      (reference_in_session, kept (effective_reference_time z nyse t false) reference_in_session)
    where
      kept : (r : ℕ) → is_within_rth z nyse r ≡ true → effective_reference_time z nyse r false ≡ r
      kept r e = unfold effective_reference_time in (rw (e, if◌then◌else◌))

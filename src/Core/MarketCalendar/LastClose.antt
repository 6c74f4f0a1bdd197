-- ===== src/Core/MarketCalendar/LastClose.antt =====
-- The last close of a session, and the reference time that it gives.
use systematic_trading_valid.Common.{
  Bool-cases, and_left, and_right, arith, false, inl, inr, ltb, nat_eq, pair_eq, refl, some, suc,
  true, zero, ℕ, ◌&&◌, ◌+◌, ◌-◌, ◌<◌, ◌||◌, ◌≡◌, ◌≢◌, ◌≤◌,
}
use systematic_trading_valid.Common.Text.{text_eq}
use systematic_trading_valid.Core.MarketCalendar.{
  Calendar, Wall, is_trading_day, last_close_from, session_close_time, wall_leb,
}

abbrev pub close_of : Calendar → ℕ → Wall
close_of c d = record { day = d; clock = session_close_time c d }

-- The day has a session, whose close has passed.
abbrev pub HasClosed : Calendar → Wall → ℕ → Type 0
HasClosed c et d = (is_trading_day c d ≡ true) × (wall_leb (close_of c d) et ≡ true)

pub record IsLastClose (c : Calendar) (et w : Wall) : Type 0 where
  pub is_close : w ≡ close_of c w.day
  pub has_closed : HasClosed c et w.day
  pub latest : (d : ℕ) → HasClosed c et d → wall_leb (close_of c d) w ≡ true

wall_leb-day : (a b : Wall) → wall_leb a b ≡ true → a.day ≤ b.day
wall_leb-day a b h = ground arith

closes_ordered : (c : Calendar) (d e : ℕ) → d ≤ e → wall_leb (close_of c d) (close_of c e) ≡ true
closes_ordered c d e h = ground arith

passed :
    (c : Calendar) (et : Wall) (d : ℕ)
    → (wall_leb (close_of c d) et || ltb d et.day) ≡ true
    → wall_leb (close_of c d) et ≡ true
passed c et d h = ground arith

-- No day after the cursor has closed, and one of the `n` days up to it has.
last_close_from_lem :
    (c : Calendar) (et : Wall) (n cursor d : ℕ)
    → ((e : ℕ) → HasClosed c et e → e ≤ cursor)
    → HasClosed c et d
    → cursor < d + n
    → (w : Wall) × (last_close_from c et n cursor ≡ some w) × IsLastClose c et w
unfolding last_close_from
last_close_from_lem c et zero cursor d bound h lt = absurd (omega (arith, bound d h))
last_close_from_lem c et (suc n) cursor d bound h lt =
    elim (Bool-cases
      (is_trading_day c cursor && (wall_leb (close_of c cursor) et || ltb cursor et.day))) [
        | inl e ↦ (
          close_of c cursor,
          rw e,
          record {
            is_close = refl;
            has_closed = (and_left _ _ e, passed c et cursor (and_right _ _ e));
            latest = λ d' h'. closes_ordered c d' cursor (bound d' h');
          },
        )
        | inr e ↦ rw e (
            last_close_from_lem c et n (cursor - 1) d
              (λ d' h'. omega (arith, bound d' h', before d' h' e)) h
              (omega (arith, bound d h, before d h e)))
      ]
  where
    before :
        (d' : ℕ)
        → HasClosed c et d'
        → (is_trading_day c cursor && (wall_leb (close_of c cursor) et || ltb cursor et.day))
          ≡ false
        → d' ≢ cursor
    before d' h' e q = ground (arith)

-- The search of ten days ends at the last close that has passed, if the day of it is among the ten.
pub ten_days_suffice :
    (c : Calendar) (et : Wall) (d : ℕ)
    → HasClosed c et d
    → et.day < d + 10
    → (w : Wall) × (last_close_from c et 10 et.day ≡ some w) × IsLastClose c et w
ten_days_suffice c et d h lt =
    last_close_from_lem c et 10 et.day d (λ e k. wall_leb-day (close_of c e) et k.1) h lt

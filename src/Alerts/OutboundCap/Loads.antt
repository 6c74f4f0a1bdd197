-- ===== src/Alerts/OutboundCap/Loads.antt =====
-- The rows that count against one limit while calls overlap, landed or in flight.
use systematic_trading_valid.Common.{
  List, [], arith, false, leb, length, nat_eq, pair_eq, refl, suc, zero, ℕ, ◌+◌, ◌-◌, ◌==◌, ◌∷◌,
  ◌≡◌, ◌≤◌,
}
use systematic_trading_valid.Common.Text.{text_eq}
use systematic_trading_valid.Alerts.OutboundCap.{
  Cap, Lane, Send, ago, count_since, insert_row, lane_eq,
}
use systematic_trading_valid.Alerts.OutboundCap.Overlap.{Shared, item, without}

count-antitone :
    (s t : ℕ) (lane : Lane) (sends : List Send)
    → s ≤ t
    → count_since t lane sends ≤ count_since s lane sends
count-antitone s t lane [] h = omega arith
count-antitone s t lane (x ∷ xs) h = ground (arith, count-antitone s t lane xs h)

count-le-length :
    (t : ℕ) (lane : Lane) (sends : List Send) → count_since t lane sends ≤ length sends
count-le-length t lane [] = omega arith
count-le-length t lane (x ∷ xs) = ground (arith, count-le-length t lane xs)

-- The rows of a lane since an instant, landed or in flight
abbrev pub load : ℕ → Lane → Shared → ℕ
load since lane s = count_since since lane s.cap.sends + count_since since lane s.in_flight

pub count-without :
    (t : ℕ) (lane : Lane) (n : ℕ) (xs : List Send)
    → count_since t lane (without n xs) ≤ count_since t lane xs
count-without t lane n [] = omega arith
count-without t lane zero (x ∷ xs) = ground arith
count-without t lane (suc n) (x ∷ xs) = ground (arith, count-without t lane n xs)

pub none_left :
    (t : ℕ) (lane : Lane) (c : Cap) (n : ℕ) (xs : List Send)
    → count_since t lane (insert_row (item n xs) c).sends + count_since t lane (without n xs)
      ≡ count_since t lane c.sends + count_since t lane xs
none_left t lane c n [] = refl
none_left t lane c zero (x ∷ xs) = ground arith
none_left t lane c (suc n) (x ∷ xs) = ground (arith, none_left t lane c n xs)

-- One limit: from `t` on, the load of every window is within it, but for the calls that overlap.
abbrev pub Holds : ℕ → Lane → ℕ → ℕ → ℕ → Shared → Type 0
Holds window lane limit k t s = (u : ℕ) → t ≤ u → load (ago u window) lane s ≤ limit + (k - 1)

pub Holds-later :
    (window : ℕ) (lane : Lane) (limit k t u : ℕ) (s : Shared)
    → t ≤ u
    → Holds window lane limit k t s
    → Holds window lane limit k u s
Holds-later window lane limit k t u s h i v g = i v (omega (arith, h, g))

pub Holds-new :
    (window : ℕ) (lane : Lane) (limit k now : ℕ) (s : Shared) (x : Send)
    → leb limit (count_since (ago now window) lane s.cap.sends) ≡ false
    → length (x ∷ s.in_flight) ≤ k
    → Holds window lane limit k now (record s { in_flight = x ∷ s.in_flight })
Holds-new window lane limit k now s x h o u g = ground (
  arith,
  h,
  o,
  count-antitone (ago now window) (ago u window) lane s.cap.sends (omega (arith, g)),
  count-le-length (ago u window) lane (x ∷ s.in_flight),
)

pub Holds-other :
    (window : ℕ) (lane : Lane) (limit k now : ℕ) (s : Shared) (x : Send)
    → (x.lane == lane) ≡ false
    → Holds window lane limit k now s
    → Holds window lane limit k now (record s { in_flight = x ∷ s.in_flight })
Holds-other window lane limit k now s x h i u g = ground (arith, i u g)

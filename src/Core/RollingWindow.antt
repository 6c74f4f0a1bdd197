-- ===== src/Core/RollingWindow.antt =====
-- src/core/rolling_window.py. Prices and volumes are exact integers, timestamps are numbers, and a
-- numpy buffer is the list of its items. The rate limit of the rejection log is left out.
pub mod Rings
pub mod Rewrites
pub mod Columns
pub mod Offsets
pub mod Refinement
mod Examples
use systematic_trading_valid.Common.{
  Bool, List, Option, [], false, if◌then◌else◌, leb, length, ltb, map, min, nat_eq, none, pair_eq,
  some, suc, take, true, zero, ℕ, ◌%◌, ◌++◌, ◌+◌, ◌-◌, ◌==◌, ◌||◌, ◌∷◌,
}
use systematic_trading_valid.Common.Int.{leb_ℤ, ltb_ℤ, pos, ℤ, ◌+ℤ◌}
use systematic_trading_valid.Common.Text.{text_eq}

pub record Bar : Type 0 where
  pub timestamp : ℕ
  pub open_price : ℤ
  pub high : ℤ
  pub low : ℤ
  pub close : ℤ
  pub volume : ℤ

-- The deque, the five buffers with their common head and count, and the bar that is still forming.
pub record Window : Type 0 where
  pub maxlen : ℕ
  pub bars : List Bar
  pub last_ts : Option ℕ
  pub count : ℕ
  pub head : ℕ
  pub closes : List ℤ
  pub highs : List ℤ
  pub lows : List ℤ
  pub opens : List ℤ
  pub volumes : List ℤ
  pub applied_offset : ℤ
  pub forming : Option Bar

abbrev pub zeros : ℕ → List ℤ
zeros zero = []
zeros (suc n) = pos 0 ∷ zeros n

-- The source raises for a length that is not positive: read it for `1 ≤ maxlen`.
unfoldable pub new_window : ℕ → Window
new_window maxlen = record {
  maxlen = maxlen;
  bars = [];
  last_ts = none;
  count = 0;
  head = 0;
  closes = zeros maxlen;
  highs = zeros maxlen;
  lows = zeros maxlen;
  opens = zeros maxlen;
  volumes = zeros maxlen;
  applied_offset = pos 0;
  forming = none;
}

-- `buf[i] = v`
abbrev pub set_at : ℕ → ℤ → List ℤ → List ℤ
set_at i v [] = []
set_at zero v (x ∷ xs) = v ∷ xs
set_at (suc i) v (x ∷ xs) = x ∷ set_at i v xs

-- `buf[n:]`
abbrev pub drop : ℕ → List ℤ → List ℤ
drop zero xs = xs
drop (suc n) [] = []
drop (suc n) (x ∷ xs) = drop n xs

-- `deque.append` with its `maxlen`
abbrev pub tail : {A : Type 0} → List A → List A
tail [] = []
tail (x ∷ xs) = xs

abbrev pub push : {A : Type 0} → ℕ → List A → A → List A
push maxlen xs x = if ltb (length xs) maxlen then xs ++ (x ∷ []) else tail xs ++ (x ∷ [])

-- `bars[-1] = bar`
abbrev pub replace_last : {A : Type 0} → List A → A → List A
replace_last [] y = []
replace_last (x ∷ []) y = y ∷ []
replace_last (x ∷ z ∷ xs) y = x ∷ replace_last (z ∷ xs) y

abbrev pub last_of : {A : Type 0} → List A → Option A
last_of [] = none
last_of (x ∷ []) = some x
last_of (x ∷ y ∷ xs) = last_of (y ∷ xs)

-- The five buffers with one slot written
abbrev pub write_at : ℕ → Bar → Window → Window
write_at i b w = record w {
  opens = set_at i b.open_price w.opens;
  highs = set_at i b.high w.highs;
  lows = set_at i b.low w.lows;
  closes = set_at i b.close w.closes;
  volumes = set_at i b.volume w.volumes;
}

unfoldable pub write_bar_slot : Bar → Window → Window
write_bar_slot b w = record (write_at w.head b w) {
  head = (w.head + 1) % w.maxlen;
  count = min (w.count + 1) w.maxlen;
}

-- `(head - 1) % maxlen`, where Python's remainder is not negative
abbrev pub before_head : Window → ℕ
before_head w = if leb w.head 0 then w.maxlen - 1 else w.head - 1

unfoldable pub rewrite_latest : Bar → Window → Window
rewrite_latest b w = if leb w.count 0 then w else record (write_at (before_head w) b w) {
  bars = replace_last w.bars b;
  last_ts = some b.timestamp;
}

-- The new bar in the deque, once its slot is written
abbrev pub add_bar : Bar → Window → Window
add_bar b w = record (write_bar_slot b w) {
  bars = push w.maxlen w.bars b;
  last_ts = some b.timestamp;
}

-- `self._last_ts is not None and t <= self._last_ts`
abbrev pub covered : Option ℕ → ℕ → Bool
covered none t = false
covered (some u) t = leb t u

unfoldable pub append : Bar → Window → Window × Bool
append b w = if covered w.last_ts b.timestamp then (w, false) else (add_bar b w, true)

pub data Upsert : Type 0 where
  appended updated ignored : Upsert

abbrev pub upsert_on : Option Bar → Bar → Window → Window × Upsert
upsert_on none b w = (add_bar b w, appended)
upsert_on (some latest) b w =
    let a = append b w in
    if b.timestamp == latest.timestamp
    then (rewrite_latest b w, updated)
    else if ltb latest.timestamp b.timestamp
    then (a.0, (if a.1 then appended else ignored))
    else (w, ignored)

unfoldable pub upsert_bar : Bar → Window → Window × Upsert
upsert_bar b w = if leb w.count 0 then (add_bar b w, appended) else upsert_on (last_of w.bars) b w

abbrev pub older_than : Bar → Option Bar → Bool
older_than b none = false
older_than b (some f) = ltb b.timestamp f.timestamp

unfoldable pub set_forming : Bar → Window → Window × Bool
set_forming b w =
    if covered w.last_ts b.timestamp
    then (w, false)
    else if older_than b w.forming
    then (w, false)
    else (record w { forming = some b }, true)

unfoldable pub forming_bar : Window → Option Bar
forming_bar w = elim w.forming [
  | none ↦ none
  | some f ↦ if covered w.last_ts f.timestamp then none else some f
]

unfoldable pub latest_including_forming : Window → Option Bar
latest_including_forming w = elim (forming_bar w) [ none ↦ last_of w.bars | some f ↦ some f ]

-- `buf[:n] += offset`
abbrev pub add_first : ℕ → ℤ → List ℤ → List ℤ
add_first zero offset xs = xs
add_first (suc n) offset [] = []
add_first (suc n) offset (x ∷ xs) = (x +ℤ offset) ∷ add_first n offset xs

abbrev pub shift_bar : ℤ → Bar → Bar
shift_bar offset b = record b {
  open_price = b.open_price +ℤ offset;
  high = b.high +ℤ offset;
  low = b.low +ℤ offset;
  close = b.close +ℤ offset;
}

-- The buffers of the prices, all of their slots if the window is full
abbrev pub shift_buffer : Window → ℤ → List ℤ → List ℤ
shift_buffer w offset buf =
    if ltb w.count w.maxlen then add_first w.count offset buf else map (λ x. x +ℤ offset) buf

unfoldable pub apply_corporate_action_offset : ℤ → Window → Window × Bool
apply_corporate_action_offset offset w =
    if leb_ℤ offset (pos 0) || leb w.count 0 || ltb_ℤ (pos 0) w.applied_offset
    then (w, false)
    else (
      record w {
        applied_offset = offset;
        opens = shift_buffer w offset w.opens;
        highs = shift_buffer w offset w.highs;
        lows = shift_buffer w offset w.lows;
        closes = shift_buffer w offset w.closes;
        bars = map (shift_bar offset) w.bars;
      },
      true,
    )

unfoldable pub clear : Window → Window
clear w = record w { bars = []; last_ts = none; count = 0; head = 0; forming = none }

-- `_ordered(buf)`
unfoldable pub ordered : Window → List ℤ → List ℤ
ordered w buf =
    if ltb w.count w.maxlen then take w.count buf else drop w.head buf ++ take w.head buf

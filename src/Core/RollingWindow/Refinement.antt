-- ===== src/Core/RollingWindow/Refinement.antt =====
-- The ring buffers are the columns of the deque.
use systematic_trading_valid.Common.{
  Bool-cases, List, Option, [], ap, arith, inl, inr, leb, length, ltb, map, min, nat_eq, none,
  pair_eq, refl, some, suc, sym, zero, ℕ, ◌%◌, ◌+◌, ◌<◌, ◌==◌, ◌||◌, ◌∙◌, ◌∷◌, ◌≡◌, ◌≤◌,
}
use systematic_trading_valid.Common.Int.{leb_ℤ, ltb_ℤ, pos, ℤ, ◌+ℤ◌}
use systematic_trading_valid.Common.Text.{text_eq}
use systematic_trading_valid.Core.RollingWindow.{
  Bar, Window, add_bar, append, apply_corporate_action_offset, before_head, clear, covered, last_of,
  new_window, older_than, ordered, push, replace_last, rewrite_latest, set_at, set_forming,
  shift_bar, shift_buffer, upsert_bar, upsert_on, write_at, write_bar_slot, zeros,
}
use systematic_trading_valid.Core.RollingWindow.Rings.{
  Reads, Shape, view_room, write-Reads, write-Shape,
}
use systematic_trading_valid.Core.RollingWindow.Rewrites.{rewrite-Reads}
use systematic_trading_valid.Core.RollingWindow.Columns.{
  length-map, length-push, length-replace_last, map-push, map-replace_last,
}
use systematic_trading_valid.Core.RollingWindow.Offsets.{same-column, shift-Reads, shift-column}

-- The head and the count fit, the deque holds `count` bars, and each buffer reads as its column.
pub record IsWindow (w : Window) : Type 0 where
  pub shape : Shape w.maxlen w.head w.count
  pub counted : length w.bars ≡ w.count
  pub opens_read : Reads w.maxlen w.head w.count w.opens (map (λ b. b.open_price) w.bars)
  pub highs_read : Reads w.maxlen w.head w.count w.highs (map (λ b. b.high) w.bars)
  pub lows_read : Reads w.maxlen w.head w.count w.lows (map (λ b. b.low) w.bars)
  pub closes_read : Reads w.maxlen w.head w.count w.closes (map (λ b. b.close) w.bars)
  pub volumes_read : Reads w.maxlen w.head w.count w.volumes (map (λ b. b.volume) w.bars)

module _ (w : Window) (h : IsWindow w) (b : Bar) where
  column-push :
      (f : Bar → ℤ) (buf : List ℤ)
      → Reads w.maxlen w.head w.count buf (map f w.bars)
      → Reads w.maxlen
          ((w.head + 1) % w.maxlen)
          (min (w.count + 1) w.maxlen)
          (set_at w.head (f b) buf)
          (map f (push w.maxlen w.bars b))
  column-push f buf r =
      rw (map-push f w.maxlen w.bars b)
        (write-Reads w.maxlen w.head w.count h.shape buf (map f w.bars) (f b) r)

  add_bar-IsWindow : IsWindow (add_bar b w)
  unfolding write_bar_slot
  add_bar-IsWindow = record {
    shape = write-Shape w.maxlen w.head w.count h.shape;
    counted =
        length-push w.maxlen w.bars b (omega (arith, h.counted, h.shape.count_le))
          (omega (arith, h.shape.head_in))
        ∙ ap (λ c. min (c + 1) w.maxlen) h.counted;
    opens_read = column-push (λ x. x.open_price) w.opens h.opens_read;
    highs_read = column-push (λ x. x.high) w.highs h.highs_read;
    lows_read = column-push (λ x. x.low) w.lows h.lows_read;
    closes_read = column-push (λ x. x.close) w.closes h.closes_read;
    volumes_read = column-push (λ x. x.volume) w.volumes h.volumes_read;
  }

  column-replace :
      (f : Bar → ℤ) (buf : List ℤ)
      → 0 < w.count
      → Reads w.maxlen w.head w.count buf (map f w.bars)
      → Reads w.maxlen w.head w.count
          (set_at (before_head w) (f b) buf)
          (map f (replace_last w.bars b))
  column-replace f buf c r =
      rw (map-replace_last f w.bars b)
        (rewrite-Reads w.maxlen w.head w.count h.shape buf (map f w.bars) (f b) c r)

  replaced :
      0 < w.count
      → IsWindow (record (write_at (before_head w) b w) {
        bars = replace_last w.bars b;
        last_ts = some b.timestamp;
      })
  replaced c = record {
    shape = h.shape;
    counted = length-replace_last w.bars b ∙ h.counted;
    opens_read = column-replace (λ x. x.open_price) w.opens c h.opens_read;
    highs_read = column-replace (λ x. x.high) w.highs c h.highs_read;
    lows_read = column-replace (λ x. x.low) w.lows c h.lows_read;
    closes_read = column-replace (λ x. x.close) w.closes c h.closes_read;
    volumes_read = column-replace (λ x. x.volume) w.volumes c h.volumes_read;
  }

  rewrite-IsWindow : IsWindow (rewrite_latest b w)
  unfolding rewrite_latest
  rewrite-IsWindow = elim (Bool-cases (leb w.count 0)) [
    | inl e ↦ simp e h
    | inr e ↦ simp e (replaced (ground (arith, e)))
  ]

  append-IsWindow : IsWindow (append b w).0
  unfolding append
  append-IsWindow = elim (Bool-cases (covered w.last_ts b.timestamp)) [
    | inl e ↦ simp e h
    | inr e ↦ simp e add_bar-IsWindow
  ]

  upsert_on-IsWindow : (latest : Option Bar) → IsWindow (upsert_on latest b w).0
  upsert_on-IsWindow none = add_bar-IsWindow
  upsert_on-IsWindow (some latest) = elim (Bool-cases (b.timestamp == latest.timestamp)) [
    | inl e ↦ simp e rewrite-IsWindow
    | inr e ↦ elim (Bool-cases (ltb latest.timestamp b.timestamp)) [
      | inl l ↦ simp (e, l) append-IsWindow
      | inr l ↦ simp (e, l) h
    ]
  ]

  upsert-IsWindow : IsWindow (upsert_bar b w).0
  unfolding upsert_bar
  upsert-IsWindow = elim (Bool-cases (leb w.count 0)) [
    | inl e ↦ simp e add_bar-IsWindow
    | inr e ↦ simp e (upsert_on-IsWindow (last_of w.bars))
  ]

  same_bars : (f : Option Bar) → IsWindow (record w { forming = f })
  same_bars f = record {
    shape = h.shape;
    counted = h.counted;
    opens_read = h.opens_read;
    highs_read = h.highs_read;
    lows_read = h.lows_read;
    closes_read = h.closes_read;
    volumes_read = h.volumes_read;
  }

  set_forming-IsWindow : IsWindow (set_forming b w).0
  unfolding set_forming
  set_forming-IsWindow = elim (Bool-cases (covered w.last_ts b.timestamp)) [
    | inl e ↦ simp e h
    | inr e ↦ elim (Bool-cases (older_than b w.forming)) [
      | inl o ↦ simp (e, o) h
      | inr o ↦ simp (e, o) (same_bars (some b))
    ]
  ]

module _ (w : Window) (h : IsWindow w) (k : ℤ) where
  column-shift :
      (f : Bar → ℤ) (buf : List ℤ)
      → ((b : Bar) → f (shift_bar k b) ≡ f b +ℤ k)
      → Reads w.maxlen w.head w.count buf (map f w.bars)
      → Reads w.maxlen w.head w.count (shift_buffer w k buf) (map f (map (shift_bar k) w.bars))
  column-shift f buf e r =
      rw (sym (shift-column f k w.bars e)) (shift-Reads w k buf (map f w.bars) r)

  offset-IsWindow : IsWindow (apply_corporate_action_offset k w).0
  unfolding apply_corporate_action_offset
  offset-IsWindow =
      elim (Bool-cases (leb_ℤ k (pos 0) || leb w.count 0 || ltb_ℤ (pos 0) w.applied_offset)) [
        | inl e ↦ simp e h
        | inr e ↦ simp e (record {
          shape = h.shape;
          counted = length-map (shift_bar k) w.bars ∙ h.counted;
          opens_read = column-shift (λ x. x.open_price) w.opens (λ b. refl) h.opens_read;
          highs_read = column-shift (λ x. x.high) w.highs (λ b. refl) h.highs_read;
          lows_read = column-shift (λ x. x.low) w.lows (λ b. refl) h.lows_read;
          closes_read = column-shift (λ x. x.close) w.closes (λ b. refl) h.closes_read;
          volumes_read = rw (same-column (λ x. x.volume) k w.bars (λ b. refl)) h.volumes_read;
        })
      ]

empty-Reads : (m : ℕ) (buf : List ℤ) → 0 < m → length buf ≡ m → Reads m 0 0 buf []
empty-Reads m buf h e = record { size = e; items = view_room m 0 0 buf h }

empty-Shape : (m : ℕ) → 0 < m → Shape m 0 0
empty-Shape m h = record { head_in = h; count_le = omega arith; head_at = λ k. refl }

clear-IsWindow : (w : Window) → IsWindow w → IsWindow (clear w)
unfolding clear
clear-IsWindow w h =
    let positive : 0 < w.maxlen = omega (arith, h.shape.head_in) in
    record {
      shape = empty-Shape w.maxlen positive;
      counted = refl;
      opens_read = empty-Reads w.maxlen w.opens positive h.opens_read.size;
      highs_read = empty-Reads w.maxlen w.highs positive h.highs_read.size;
      lows_read = empty-Reads w.maxlen w.lows positive h.lows_read.size;
      closes_read = empty-Reads w.maxlen w.closes positive h.closes_read.size;
      volumes_read = empty-Reads w.maxlen w.volumes positive h.volumes_read.size;
    }

length-zeros : (m : ℕ) → length (zeros m) ≡ m
length-zeros zero = refl
length-zeros (suc m) = ap suc (length-zeros m)

new-IsWindow : (m : ℕ) → 0 < m → IsWindow (new_window m)
unfolding new_window
new-IsWindow m h =
    let r = empty-Reads m (zeros m) h (length-zeros m) in
    record {
      shape = empty-Shape m h;
      counted = refl;
      opens_read = r;
      highs_read = r;
      lows_read = r;
      closes_read = r;
      volumes_read = r;
    }

-- The operations that the ingestion and the seeding call.
pub data Op : Type 0 where
  append_bar upsert form : Bar → Op
  shift : ℤ → Op
  reset : Op

unfoldable pub apply : Window → Op → Window
apply w (append_bar b) = (append b w).0
apply w (upsert b) = (upsert_bar b w).0
apply w (form b) = (set_forming b w).0
apply w (shift k) = (apply_corporate_action_offset k w).0
apply w reset = clear w

unfoldable pub run : Window → List Op → Window
run w [] = w
run w (o ∷ os) = run (apply w o) os

apply-IsWindow : (w : Window) (o : Op) → IsWindow w → IsWindow (apply w o)
unfolding apply
apply-IsWindow w (append_bar b) h = append-IsWindow w h b
apply-IsWindow w (upsert b) h = upsert-IsWindow w h b
apply-IsWindow w (form b) h = set_forming-IsWindow w h b
apply-IsWindow w (shift k) h = offset-IsWindow w h k
apply-IsWindow w reset h = clear-IsWindow w h

run-IsWindow : (w : Window) (os : List Op) → IsWindow w → IsWindow (run w os)
unfolding run
run-IsWindow w [] h = h
run-IsWindow w (o ∷ os) h = run-IsWindow (apply w o) os (apply-IsWindow w o h)

-- What a reader of the window sees: each array is the column of the deque's bars, oldest first, and the
-- window holds `count` of them, no more than its length.
pub record Mirrors (w : Window) : Type 0 where
  pub opens : ordered w w.opens ≡ map (λ b. b.open_price) w.bars
  pub highs : ordered w w.highs ≡ map (λ b. b.high) w.bars
  pub lows : ordered w w.lows ≡ map (λ b. b.low) w.bars
  pub closes : ordered w w.closes ≡ map (λ b. b.close) w.bars
  pub volumes : ordered w w.volumes ≡ map (λ b. b.volume) w.bars
  pub counted : length w.bars ≡ w.count
  pub bounded : w.count ≤ w.maxlen

IsWindow-Mirrors : (w : Window) → IsWindow w → Mirrors w
unfolding ordered
IsWindow-Mirrors w h = record {
  opens = h.opens_read.items;
  highs = h.highs_read.items;
  lows = h.lows_read.items;
  closes = h.closes_read.items;
  volumes = h.volumes_read.items;
  counted = h.counted;
  bounded = h.shape.count_le;
}

-- After any appends, upserts, forming bars, offsets and resets of a new window with a positive length,
-- the five arrays that the indicators read are the columns of the bars in the deque, oldest first, which
-- are as many as the window counts and no more than its length.
pub run-Mirrors : (m : ℕ) (os : List Op) → 0 < m → Mirrors (run (new_window m) os)
run-Mirrors m os h = IsWindow-Mirrors _ (run-IsWindow (new_window m) os (new-IsWindow m h))

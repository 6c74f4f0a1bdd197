-- ===== src/Core/RollingWindow/Offsets.antt =====
-- A corporate action's offset on one ring buffer.
use mathlib.Core.Path.{ap₂}
use systematic_trading_valid.Common.{
  Bool-cases, List, [], ap, arith, false, inl, inr, length, ltb, ltb→lt, map, nat_eq, pair_eq, refl,
  suc, sym, take, zero, ℕ, ◌++◌, ◌∙◌, ◌∷◌, ◌≡◌, ◌≤◌,
}
use systematic_trading_valid.Common.Int.{ℤ, ◌+ℤ◌}
use systematic_trading_valid.Common.Text.{text_eq}
use systematic_trading_valid.Core.RollingWindow.{
  Bar, Window, add_first, drop, shift_bar, shift_buffer,
}
use systematic_trading_valid.Core.RollingWindow.Rings.{Reads, view_full, view_room}
use systematic_trading_valid.Core.RollingWindow.Columns.{length-map, map-append}

length-add_first : (n : ℕ) (k : ℤ) (buf : List ℤ) → length (add_first n k buf) ≡ length buf
length-add_first zero k buf = refl
length-add_first (suc n) k [] = refl
length-add_first (suc n) k (x ∷ buf) = ap suc (length-add_first n k buf)

take-add_first :
    (n : ℕ) (k : ℤ) (buf : List ℤ) → take n (add_first n k buf) ≡ map (λ x. x +ℤ k) (take n buf)
take-add_first zero k buf = refl
take-add_first (suc n) k [] = refl
take-add_first (suc n) k (x ∷ buf) = ap (λ l. (x +ℤ k) ∷ l) (take-add_first n k buf)

take-map : (n : ℕ) (f : ℤ → ℤ) (buf : List ℤ) → take n (map f buf) ≡ map f (take n buf)
take-map zero f buf = refl
take-map (suc n) f [] = refl
take-map (suc n) f (x ∷ buf) = ap (λ l. f x ∷ l) (take-map n f buf)

drop-map : (n : ℕ) (f : ℤ → ℤ) (buf : List ℤ) → drop n (map f buf) ≡ map f (drop n buf)
drop-map zero f buf = refl
drop-map (suc n) f [] = refl
drop-map (suc n) f (x ∷ buf) = drop-map n f buf

not_less : (a b : ℕ) → ltb a b ≡ false → b ≤ a
not_less a b h = ground (arith, h)

-- A shifted buffer reads as the shifted items.
pub shift-Reads :
    (w : Window) (k : ℤ) (buf xs : List ℤ)
    → Reads w.maxlen w.head w.count buf xs
    → Reads w.maxlen w.head w.count (shift_buffer w k buf) (map (λ x. x +ℤ k) xs)
shift-Reads w k buf xs r = elim (Bool-cases (ltb w.count w.maxlen)) [
  | inl h ↦ simp h (record {
    size = length-add_first w.count k buf ∙ r.size;
    items =
        view_room w.maxlen w.head w.count _ (ltb→lt w.count w.maxlen h)
        ∙ take-add_first w.count k buf
        ∙ ap (map (λ x. x +ℤ k))
            (sym (view_room w.maxlen w.head w.count buf (ltb→lt w.count w.maxlen h)) ∙ r.items);
  })
  | inr h ↦ simp h (record {
    size = length-map _ buf ∙ r.size;
    items =
        view_full w.maxlen w.head w.count _ (not_less w.count w.maxlen h)
        ∙ ap₂ (λ a b. a ++ b) (drop-map w.head (λ x. x +ℤ k) buf)
            (take-map w.head (λ x. x +ℤ k) buf)
        ∙ sym (map-append (λ x. x +ℤ k) (drop w.head buf) (take w.head buf))
        ∙ ap (map (λ x. x +ℤ k))
            (sym (view_full w.maxlen w.head w.count buf (not_less w.count w.maxlen h)) ∙ r.items);
  })
]

-- The column of shifted bars is the shifted column.
pub shift-column :
    (f : Bar → ℤ) (k : ℤ) (bars : List Bar)
    → ((b : Bar) → f (shift_bar k b) ≡ f b +ℤ k)
    → map (λ x. x +ℤ k) (map f bars) ≡ map f (map (shift_bar k) bars)
shift-column f k [] h = refl
shift-column f k (b ∷ bars) h = ap₂ (λ x xs. x ∷ xs) (sym (h b)) (shift-column f k bars h)

pub same-column :
    (f : Bar → ℤ) (k : ℤ) (bars : List Bar)
    → ((b : Bar) → f (shift_bar k b) ≡ f b)
    → map f (map (shift_bar k) bars) ≡ map f bars
same-column f k [] h = refl
same-column f k (b ∷ bars) h = ap₂ (λ x xs. x ∷ xs) (h b) (same-column f k bars h)

-- ===== src/Core/RollingWindow/Columns.antt =====
-- The columns of the deque.
use systematic_trading_valid.Common.{
  Bool-cases, List, [], ap, arith, false, inl, inr, length, length-append, ltb, ltb→lt, map, min,
  nat_eq, pair_eq, refl, suc, ℕ, ◌++◌, ◌+◌, ◌<◌, ◌∙◌, ◌∷◌, ◌≡◌, ◌≤◌,
}
use systematic_trading_valid.Common.Int.{ℤ}
use systematic_trading_valid.Common.Text.{text_eq}
use systematic_trading_valid.Core.RollingWindow.{Bar, push, replace_last, tail}

pub length-map : {A B : Type 0} (f : A → B) (xs : List A) → length (map f xs) ≡ length xs
length-map f [] = refl
length-map f (x ∷ xs) = ap suc (length-map f xs)

pub map-append :
    {A B : Type 0} (f : A → B) (xs ys : List A) → map f (xs ++ ys) ≡ map f xs ++ map f ys
map-append f [] ys = refl
map-append f (x ∷ xs) ys = ap (λ l. f x ∷ l) (map-append f xs ys)

map-tail : {A B : Type 0} (f : A → B) (xs : List A) → map f (tail xs) ≡ tail (map f xs)
map-tail f [] = refl
map-tail f (x ∷ xs) = refl

pub map-push :
    (f : Bar → ℤ) (m : ℕ) (xs : List Bar) (b : Bar) → map f (push m xs b) ≡ push m (map f xs) (f b)
map-push f m xs b = elim (Bool-cases (ltb (length xs) m)) [
  | inl h ↦ simp (h, length-map f xs) (map-append f xs (b ∷ []))
  | inr h ↦
      simp (h, length-map f xs)
        (map-append f (tail xs) (b ∷ []) ∙ ap (λ l. l ++ (f b ∷ [])) (map-tail f xs))
]

pub map-replace_last :
    (f : Bar → ℤ) (xs : List Bar) (b : Bar)
    → map f (replace_last xs b) ≡ replace_last (map f xs) (f b)
map-replace_last f [] b = refl
map-replace_last f (x ∷ []) b = refl
map-replace_last f (x ∷ y ∷ xs) b = ap (λ l. f x ∷ l) (map-replace_last f (y ∷ xs) b)

pub length-replace_last : (xs : List Bar) (b : Bar) → length (replace_last xs b) ≡ length xs
length-replace_last [] b = refl
length-replace_last (x ∷ []) b = refl
length-replace_last (x ∷ y ∷ xs) b = ap suc (length-replace_last (y ∷ xs) b)

length-tail :
    (m : ℕ) (xs : List Bar)
    → length xs ≤ m
    → 0 < m
    → ltb (length xs) m ≡ false
    → length (tail xs) + 1 ≡ min (length xs + 1) m
length-tail m [] h k l = ground (arith, h, k, l)
length-tail m (x ∷ xs) h k l = ground (arith, h, l)

pub length-push :
    (m : ℕ) (xs : List Bar) (b : Bar)
    → length xs ≤ m
    → 0 < m
    → length (push m xs b) ≡ min (length xs + 1) m
length-push m xs b h k = elim (Bool-cases (ltb (length xs) m)) [
  | inl l ↦ simp l (length-append xs (b ∷ []) ∙ omega (arith, ltb→lt (length xs) m l))
  | inr l ↦ simp l (length-append (tail xs) (b ∷ []) ∙ length-tail m xs h k l)
]

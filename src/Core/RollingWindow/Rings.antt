-- ===== src/Core/RollingWindow/Rings.antt =====
-- One ring buffer: what a write does to the order in which it is read.
use native.Mathlib.Nat.{mod_self, mod-eq_of_lt, mod-lt}
use mathlib.Core.Path.{ap₂}
use mathlib.Core.List.{append-nil, append_assoc}
use systematic_trading_valid.Common.{
  Bool-cases, List, [], ap, arith, false, if◌then◌else◌, inl, inr, length, length-append, ltb,
  ltb→lt, min, nat_eq, pair_eq, refl, suc, sym, take, true, zero, ℕ, ◌%◌, ◌++◌, ◌+◌, ◌<◌, ◌∙◌, ◌∷◌,
  ◌≡◌, ◌≤◌,
}
use systematic_trading_valid.Common.Int.{ℤ}
use systematic_trading_valid.Common.Text.{text_eq}
use systematic_trading_valid.Core.RollingWindow.{drop, push, replace_last, set_at, tail}

-- The chronological view of a buffer, by the window's length, head and count.
abbrev pub view : (maxlen head count : ℕ) → List ℤ → List ℤ
view maxlen head count buf =
    if ltb count maxlen then take count buf else drop head buf ++ take head buf

-- A buffer cut at an index.
pub data Cut (i : ℕ) (buf : List ℤ) : Type 0 where
  cut :
      (pre : List ℤ) (x : ℤ) (post : List ℤ) → length pre ≡ i → buf ≡ pre ++ (x ∷ post) → Cut i buf

none_below : (i : ℕ) → i < 0 → ⊥
none_below i h = omega (arith, h)

pub at-Cut : (i : ℕ) (buf : List ℤ) → i < length buf → Cut i buf
at-Cut i [] h = elim (none_below i h) [ ]
at-Cut zero (x ∷ xs) h = cut [] x xs refl refl
at-Cut (suc i) (x ∷ xs) h = elim (at-Cut i xs (omega (arith, h))) [
  | cut pre y post e p ↦ cut (x ∷ pre) y post (ap suc e) (ap (λ l. x ∷ l) p)
]

pub set_at-cut :
    (pre : List ℤ) (x v : ℤ) (post : List ℤ)
    → set_at (length pre) v (pre ++ (x ∷ post)) ≡ pre ++ (v ∷ post)
set_at-cut [] x v post = refl
set_at-cut (y ∷ pre) x v post = ap (λ l. y ∷ l) (set_at-cut pre x v post)

take-append : (pre ys : List ℤ) → take (length pre) (pre ++ ys) ≡ pre
take-append [] ys = refl
take-append (y ∷ pre) ys = ap (λ l. y ∷ l) (take-append pre ys)

drop-append : (pre ys : List ℤ) → drop (length pre) (pre ++ ys) ≡ ys
drop-append [] ys = refl
drop-append (y ∷ pre) ys = drop-append pre ys

pub take-next :
    (pre : List ℤ) (v : ℤ) (post : List ℤ)
    → take (suc (length pre)) (pre ++ (v ∷ post)) ≡ pre ++ (v ∷ [])
take-next [] v post = refl
take-next (y ∷ pre) v post = ap (λ l. y ∷ l) (take-next pre v post)

pub drop-next :
    (pre : List ℤ) (v : ℤ) (post : List ℤ) → drop (suc (length pre)) (pre ++ (v ∷ post)) ≡ post
drop-next [] v post = refl
drop-next (y ∷ pre) v post = drop-next pre v post

next_head : (n m : ℕ) → n + 1 < m → (n + 1) % m ≡ suc n
next_head n m h = mod-eq_of_lt h ∙ omega arith

wrap_head : (n m : ℕ) → m ≡ n + 1 → (n + 1) % m ≡ 0
wrap_head n m e = ap (λ k. (n + 1) % k) e ∙ mod_self (n + 1)

ltb-true : (a b : ℕ) → a < b → ltb a b ≡ true
ltb-true a b h = ground (arith, h)

ltb-false : (a b : ℕ) → b ≤ a → ltb a b ≡ false
ltb-false a b h = ground (arith, h)

pub view_room : (m h c : ℕ) (buf : List ℤ) → c < m → view m h c buf ≡ take c buf
view_room m h c buf k = simp (ltb-true c m k) refl

pub view_full : (m h c : ℕ) (buf : List ℤ) → m ≤ c → view m h c buf ≡ drop h buf ++ take h buf
view_full m h c buf k = simp (ltb-false c m k) refl

pub view_at : (m h h' c c' : ℕ) (buf : List ℤ) → h ≡ h' → c ≡ c' → view m h c buf ≡ view m h' c' buf
view_at m h h' c c' buf e f = rw (e, f) refl

-- A buffer whose write wraps around, and one whose write does not.
pub wrapped : (m h c : ℕ) (buf : List ℤ) → h ≡ 0 → m ≤ c → view m h c buf ≡ buf
wrapped m h c buf e k = view_at m h 0 c c buf e refl ∙ view_full m 0 c buf k ∙ append-nil buf

-- A buffer with room: the write goes to the slot after the items.
push_partial :
    (pre : List ℤ) (v : ℤ) (post : List ℤ) (m : ℕ)
    → m ≡ length pre + suc (length post)
    → view m ((length pre + 1) % m) (min (length pre + 1) m) (pre ++ (v ∷ post)) ≡ pre ++ (v ∷ [])
push_partial pre v [] m e =
    wrapped m _ _ _ (wrap_head (length pre) m (omega (arith, e))) (omega (arith, e))
push_partial pre v (y ∷ post) m e =
    view_at m _ _ _ (suc (length pre)) _ refl (omega (arith, e))
    ∙ view_room m _ (suc (length pre)) _ (omega (arith, e))
    ∙ take-next pre v (y ∷ post)

-- A full buffer: the write goes to the slot of the oldest item.
push_full :
    (pre : List ℤ) (v : ℤ) (post : List ℤ) (m : ℕ)
    → m ≡ length pre + suc (length post)
    → view m ((length pre + 1) % m) (min (m + 1) m) (pre ++ (v ∷ post)) ≡ post ++ pre ++ (v ∷ [])
push_full pre v [] m e =
    wrapped m _ _ _ (wrap_head (length pre) m (omega (arith, e))) (omega (arith, e))
push_full pre v (y ∷ post) m e =
    let buf = pre ++ (v ∷ y ∷ post) in
    view_at m _ (suc (length pre)) _ m buf (next_head (length pre) m (omega (arith, e)))
      (omega arith)
    ∙ view_full m (suc (length pre)) m buf (omega arith)
    ∙ ap₂ (λ a b. a ++ b) (drop-next pre v (y ∷ post)) (take-next pre v (y ∷ post))
    ∙ sym (append_assoc (y ∷ post) pre (v ∷ []))

-- The head and the count of a window, and a buffer of it that reads as the items `xs`.
pub record Shape (m head count : ℕ) : Type 0 where
  pub head_in : head < m
  pub count_le : count ≤ m
  pub head_at : count < m → head ≡ count

pub record Reads (m head count : ℕ) (buf xs : List ℤ) : Type 0 where
  pub size : length buf ≡ m
  pub items : view m head count buf ≡ xs

pub length-set_at : (i : ℕ) (v : ℤ) (buf : List ℤ) → length (set_at i v buf) ≡ length buf
length-set_at i v [] = refl
length-set_at zero v (x ∷ xs) = refl
length-set_at (suc i) v (x ∷ xs) = ap suc (length-set_at i v xs)

push_room : (m : ℕ) (xs : List ℤ) (v : ℤ) → length xs < m → push m xs v ≡ xs ++ (v ∷ [])
push_room m xs v h = simp (ltb-true (length xs) m h) refl

push_over : (m : ℕ) (xs : List ℤ) (v : ℤ) → m ≤ length xs → push m xs v ≡ tail xs ++ (v ∷ [])
push_over m xs v h = simp (ltb-false (length xs) m h) refl

-- A write at the head, on a buffer that is cut there.
module _ (pre : List ℤ) (x v : ℤ) (post : List ℤ) (m count : ℕ)
    (e : m ≡ length pre + suc (length post)) where
  abbrev before : List ℤ
  before = pre ++ (x ∷ post)

  abbrev after : List ℤ
  after = pre ++ (v ∷ post)

  write_room :
      count < m
      → length pre ≡ count
      → view m ((length pre + 1) % m) (min (count + 1) m) after
        ≡ push m (view m (length pre) count before) v
  write_room h k =
      view_at m _ _ _ (min (length pre + 1) m) after refl (ap (λ c. min (c + 1) m) (sym k))
      ∙ push_partial pre v post m e
      ∙ sym (push_room m pre v (omega (arith, h, k)))
      ∙ ap (λ ys. push m ys v)
          (sym (
            view_room m (length pre) count before h
            ∙ ap (λ c. take c before) (sym k)
            ∙ take-append pre (x ∷ post)))

  write_over :
      count ≡ m
      → view m ((length pre + 1) % m) (min (count + 1) m) after
        ≡ push m (view m (length pre) count before) v
  write_over h =
      view_at m _ _ _ (min (m + 1) m) after refl (ap (λ c. min (c + 1) m) h)
      ∙ push_full pre v post m e
      ∙ sym (push_over m ((x ∷ post) ++ pre) v (omega (arith, length-append (x ∷ post) pre, e)))
      ∙ ap (λ ys. push m ys v)
          (sym (
            view_full m (length pre) count before (omega (arith, h))
            ∙ ap₂ (λ a b. a ++ b) (drop-append pre (x ∷ post)) (take-append pre (x ∷ post))))

from_cut :
    (m head count count' : ℕ) (buf xs : List ℤ) (v : ℤ) (pre : List ℤ) (x : ℤ) (post : List ℤ)
    → length pre ≡ head
    → buf ≡ pre ++ (x ∷ post)
    → view m head count buf ≡ xs
    → view m ((length pre + 1) % m) count' (pre ++ (v ∷ post))
      ≡ push m (view m (length pre) count (pre ++ (x ∷ post))) v
    → view m ((head + 1) % m) count' (set_at head v buf) ≡ push m xs v
from_cut m head count count' buf xs v pre x post e p q h =
    rw (sym q, p, sym e, set_at-cut pre x v post) h

pub full : (c m : ℕ) → ltb c m ≡ false → c ≤ m → c ≡ m
full c m h k = ground (arith, h, k)

pub length-cut :
    (buf pre : List ℤ) (x : ℤ) (post : List ℤ)
    → buf ≡ pre ++ (x ∷ post)
    → length buf ≡ length pre + suc (length post)
length-cut buf pre x post p = ap length p ∙ length-append pre (x ∷ post)

pub replace_last-append : (ys : List ℤ) (x v : ℤ) → replace_last (ys ++ (x ∷ [])) v ≡ ys ++ (v ∷ [])
replace_last-append [] x v = refl
replace_last-append (y ∷ []) x v = refl
replace_last-append (y ∷ z ∷ ys) x v = ap (λ l. y ∷ l) (replace_last-append (z ∷ ys) x v)

module _ (m head count : ℕ) (s : Shape m head count) where
  -- A write at the head is a push to the items.
  pub write-Reads :
      (buf xs : List ℤ) (v : ℤ)
      → Reads m head count buf xs
      → Reads m ((head + 1) % m) (min (count + 1) m) (set_at head v buf) (push m xs v)
  write-Reads buf xs v r = record {
    size = length-set_at head v buf ∙ r.size;
    items = elim (at-Cut head buf (omega (arith, s.head_in, r.size))) [
      | cut pre x post e p ↦
          from_cut m head count _ buf xs v pre x post e p r.items
            (write_cut pre x post e (omega (arith, sym r.size, length-cut buf pre x post p)))
    ];
  }
    where
      write_cut :
          (pre : List ℤ) (x : ℤ) (post : List ℤ)
          → length pre ≡ head
          → m ≡ length pre + suc (length post)
          → view m ((length pre + 1) % m) (min (count + 1) m) (pre ++ (v ∷ post))
            ≡ push m (view m (length pre) count (pre ++ (x ∷ post))) v
      write_cut pre x post e k = elim (Bool-cases (ltb count m)) [
        | inl h ↦
            write_room pre x v post m count k (ltb→lt count m h) (e ∙ s.head_at (ltb→lt count m h))
        | inr h ↦ write_over pre x v post m count k (full count m h s.count_le)
      ]

  pub write-Shape : Shape m ((head + 1) % m) (min (count + 1) m)
  write-Shape = record {
    head_in = mod-lt (head + 1) (omega (arith, s.head_in));
    count_le = omega arith;
    head_at = λ h.
        next_head head m (omega (arith, h, s.head_at (omega (arith, h))))
        ∙ omega (arith, h, s.head_at (omega (arith, h)));
  }

-- ===== src/Core/RollingWindow/Rewrites.antt =====
-- One ring buffer: what a write before the head does to the order in which it is read.
use mathlib.Core.Path.{ap₂}
use mathlib.Core.List.{append_assoc}
use systematic_trading_valid.Common.{
  Bool-cases, List, [], ap, arith, false, if◌then◌else◌, inl, inr, leb, length, ltb, ltb→lt, nat_eq,
  pair_eq, suc, sym, take, true, ℕ, ◌++◌, ◌+◌, ◌-◌, ◌<◌, ◌∙◌, ◌∷◌, ◌≡◌,
}
use systematic_trading_valid.Common.Int.{ℤ}
use systematic_trading_valid.Common.Text.{text_eq}
use systematic_trading_valid.Core.RollingWindow.{replace_last, set_at}
use systematic_trading_valid.Core.RollingWindow.Rings.{
  Reads, Shape, cut, at-Cut, drop-next, full, length-cut, length-set_at, replace_last-append,
  set_at-cut, take-next, view, view_at, view_full, view_room, wrapped,
}

-- The view ends with the item at the cut, after items that do not depend on it.
record EndsAt (m head count : ℕ) (pre post : List ℤ) : Type 0 where
  base : List ℤ
  ends : (y : ℤ) → view m head count (pre ++ (y ∷ post)) ≡ base ++ (y ∷ [])

module _ (m head count : ℕ) (s : Shape m head count) (pre post : List ℤ)
    (e : m ≡ length pre + suc (length post)) where
  ends_room : count < m → head ≡ suc (length pre) → EndsAt m head count pre post
  ends_room h k = record {
    base = pre;
    ends = λ y.
        view_room m head count (pre ++ (y ∷ post)) h
        ∙ ap (λ c. take c (pre ++ (y ∷ post))) (sym (s.head_at h) ∙ k)
        ∙ take-next pre y post;
  }

  ends_full : count ≡ m → head ≡ suc (length pre) → EndsAt m head count pre post
  ends_full h k = record {
    base = post ++ pre;
    ends = λ y.
        let buf = pre ++ (y ∷ post) in
        view_at m head (suc (length pre)) count m buf k h
        ∙ view_full m (suc (length pre)) m buf (omega arith)
        ∙ ap₂ (λ a b. a ++ b) (drop-next pre y post) (take-next pre y post)
        ∙ sym (append_assoc post pre (y ∷ []));
  }

ends_wrapped :
    (m head count : ℕ) (pre post : List ℤ)
    → m ≡ length pre + suc (length post)
    → count ≡ m
    → head ≡ 0
    → length pre ≡ m - 1
    → EndsAt m head count pre post
ends_wrapped m head count pre [] e h k l = record {
  base = pre;
  ends = λ y. wrapped m head count _ k (omega (arith, h));
}
ends_wrapped m head count pre (z ∷ post) e h k l =
    elim (too_long (length pre) (length post) m e l) [ ]
  where
    too_long : (a b m : ℕ) → m ≡ a + suc (suc b) → a ≡ m - 1 → ⊥
    too_long a b m e l = omega (arith, e, l)

replaced :
    (m head count : ℕ) (pre post : List ℤ) (x v : ℤ)
    → EndsAt m head count pre post
    → view m head count (pre ++ (v ∷ post)) ≡ replace_last (view m head count (pre ++ (x ∷ post))) v
replaced m head count pre post x v d =
    d.ends v ∙ sym (ap (λ ys. replace_last ys v) (d.ends x) ∙ replace_last-append d.base x v)

from_cut :
    (m head count i : ℕ) (buf xs : List ℤ) (v : ℤ) (pre : List ℤ) (x : ℤ) (post : List ℤ)
    → length pre ≡ i
    → buf ≡ pre ++ (x ∷ post)
    → view m head count buf ≡ xs
    → EndsAt m head count pre post
    → view m head count (set_at i v buf) ≡ replace_last xs v
from_cut m head count i buf xs v pre x post e p q d =
    rw (sym q, p, sym e, set_at-cut pre x v post) (replaced m head count pre post x v d)

le_zero : (n : ℕ) → leb n 0 ≡ true → n ≡ 0
le_zero n h = ground (arith, h)

index_zero : (n m : ℕ) → leb n 0 ≡ true → (if leb n 0 then m - 1 else n - 1) ≡ m - 1
index_zero n m h = ground (arith, h)

index_next : (n m : ℕ) → leb n 0 ≡ false → suc (if leb n 0 then m - 1 else n - 1) ≡ n
index_next n m h = ground (arith, h)

module _ (m head count : ℕ) (s : Shape m head count) where
  abbrev pub latest_index : ℕ
  latest_index = if leb head 0 then m - 1 else head - 1

  full_at_zero : head ≡ 0 → 0 < count → count ≡ m
  full_at_zero z c = elim (Bool-cases (ltb count m)) [
    | inl h ↦ omega (arith, s.head_at (ltb→lt count m h), z, c)
    | inr h ↦ full count m h s.count_le
  ]

  ends :
      (pre post : List ℤ)
      → 0 < count
      → m ≡ length pre + suc (length post)
      → length pre ≡ latest_index
      → EndsAt m head count pre post
  ends pre post c e l = elim (Bool-cases (leb head 0)) [
    | inl z ↦
        ends_wrapped m head count pre post e (full_at_zero (le_zero head z) c) (le_zero head z)
          (omega (arith, l, index_zero head m z))
    | inr z ↦ elim (Bool-cases (ltb count m)) [
      | inl h ↦
          ends_room m head count s pre post e (ltb→lt count m h)
            (omega (arith, l, index_next head m z))
      | inr h ↦
          ends_full m head count s pre post e (full count m h s.count_le)
            (omega (arith, l, index_next head m z))
    ]
  ]

  -- A write before the head, where there are items, replaces the last of them.
  pub rewrite-Reads :
      (buf xs : List ℤ) (v : ℤ)
      → 0 < count
      → Reads m head count buf xs
      → Reads m head count (set_at latest_index v buf) (replace_last xs v)
  rewrite-Reads buf xs v c r = record {
    size = length-set_at latest_index v buf ∙ r.size;
    items = elim (at-Cut latest_index buf (ground (arith, s.head_in, r.size))) [
      | cut pre x post e p ↦
          from_cut m head count latest_index buf xs v pre x post e p r.items
            (ends pre post c (omega (arith, sym r.size, length-cut buf pre x post p)) e)
    ];
  }

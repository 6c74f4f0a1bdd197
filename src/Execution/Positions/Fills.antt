-- ===== src/Execution/Positions/Fills.antt =====
-- A tracked position is the sum of the first fills that were applied of its orders.
use systematic_trading_valid.Common.{
  Bool, Bool-cases, List, Option, [], ap, arith, contains, false, if◌then◌else◌, inl, inr, nat_eq,
  none, not, pair_eq, refl, some, sym, true, ◌&&◌, ◌==◌, ◌∙◌, ◌∷◌, ◌≡◌,
}
use systematic_trading_valid.Common.Int.{int_laws, leb_ℤ, ltb_ℤ, pos, ℤ, ◌+ℤ◌}
use systematic_trading_valid.Common.Text.{Text, lower, text_beq_iff, text_eq, upper}
use systematic_trading_valid.Common.Dict.{insert, lookup, lookup-insert}
use systematic_trading_valid.Execution.Positions.{
  Fill, Mean, Position, Tracker, apply, filled, no_fill_statuses, position, position_or, qty_of,
  signed,
}

-- The signed quantity of the symbol in the orders, of which each id counts once, with its first fill.
abbrev pub first_fills : {P : Type 0} → Text → List Text → List (Fill P × Option P) → ℤ
first_fills symbol seen [] = pos 0
first_fills symbol seen ((o, price) ∷ os) =
    let rest = first_fills symbol seen os in
    let others = first_fills symbol (o.client_order_id ∷ seen) os in
    if ltb_ℤ (pos 0) o.filled_qty && not (contains o.client_order_id seen)
    then (if upper o.symbol == symbol then signed o +ℤ others else others)
    else rest

positive : (q : ℤ) → ltb_ℤ (pos 0) q ≡ not (leb_ℤ q (pos 0))
positive q = ground arith

abbrev branch :
    {P : Type 0} → (dead nonpositive known : Bool) → Tracker P → Tracker P → ℤ → ℤ → Tracker P × ℤ
branch dead nonpositive known t u x y =
    if dead && nonpositive
    then (t, x)
    else if known
    then (t, y)
    else if nonpositive
    then (t, y)
    else (u, y)

branches :
    {P : Type 0}
    → (dead nonpositive known : Bool) (t u : Tracker P) (x y : ℤ)
    → (branch dead nonpositive known t u x y).0 ≡ (if not nonpositive && not known then u else t)
branches dead nonpositive known t u x y = ground arith

add_add : (a b c : ℤ) → a +ℤ b +ℤ c ≡ a +ℤ (b +ℤ c)
add_add a b c = grind int_laws

spread : (e : Bool) (h s f : ℤ) → (if e then h +ℤ s else h) +ℤ f ≡ h +ℤ (if e then s +ℤ f else f)
spread true h s f = add_add h s f
spread false h s f = refl

module _ {P : Type 0} (mean : Mean P) (zero_price : P) where
  abbrev pub apply_all : Tracker P → List (Fill P × Option P) → Tracker P
  apply_all t [] = t
  apply_all t ((o, price) ∷ os) = apply_all (apply mean zero_price t o price).0 os

  -- Whether an application changes the tracker.
  abbrev counts : Tracker P → Fill P → Bool
  counts t o = ltb_ℤ (pos 0) o.filled_qty && not (contains o.client_order_id t.applied)

  abbrev applied_to : Tracker P → Fill P → Option P → Tracker P
  applied_to t o price = record {
    positions =
        insert (upper o.symbol)
          (filled mean (position_or zero_price (lookup (upper o.symbol) t.positions)) o price)
          t.positions;
    applied = o.client_order_id ∷ t.applied;
  }

  apply-counts :
      (t : Tracker P) (o : Fill P) (price : Option P)
      → (apply mean zero_price t o price).0 ≡ (if counts t o then applied_to t o price else t)
  unfolding apply
  apply-counts t o price =
      branches (contains (lower o.status) no_fill_statuses) (leb_ℤ o.filled_qty (pos 0))
        (contains o.client_order_id t.applied) t (applied_to t o price) _ _
      ∙ ap
          (λ c. if c && not (contains o.client_order_id t.applied) then applied_to t o price else t)
          (sym (positive o.filled_qty))

  abbrev held : Text → Tracker P → ℤ
  held symbol t = qty_of (lookup symbol t.positions)

  held-filled :
      (p : Option (Position P)) (o : Fill P) (price : Option P)
      → (filled mean (position_or zero_price p) o price).qty ≡ qty_of p +ℤ signed o
  held-filled none o price = refl
  held-filled (some p) o price = refl

  held-applied_to :
      (t : Tracker P) (o : Fill P) (price : Option P) (symbol : Text)
      → held symbol (applied_to t o price)
        ≡ (if upper o.symbol == symbol then held symbol t +ℤ signed o else held symbol t)
  held-applied_to t o price symbol =
      ap qty_of (lookup-insert (upper o.symbol) symbol _ t.positions)
      ∙ elim (Bool-cases (upper o.symbol == symbol)) [
        | inl e ↦ simp e (
            held-filled (lookup (upper o.symbol) t.positions) o price
            ∙ ap (λ s. held s t +ℤ signed o) ((text_beq_iff _ symbol).0 e))
        | inr e ↦ simp e refl
      ]

  counted :
      (t : Tracker P) (o : Fill P) (price : Option P)
      → counts t o ≡ true
      → (apply mean zero_price t o price).0 ≡ applied_to t o price
  counted t o price c = apply-counts t o price ∙ simp c refl

  ignored :
      (t : Tracker P) (o : Fill P) (price : Option P)
      → counts t o ≡ false
      → (apply mean zero_price t o price).0 ≡ t
  ignored t o price c = apply-counts t o price ∙ simp c refl

  apply_all-held :
      (t : Tracker P) (os : List (Fill P × Option P)) (symbol : Text)
      → held symbol (apply_all t os) ≡ held symbol t +ℤ first_fills symbol t.applied os
  apply_all-held t [] symbol = grind int_laws
  apply_all-held t ((o, price) ∷ os) symbol =
      let later = first_fills symbol (o.client_order_id ∷ t.applied) os in
      elim (Bool-cases (counts t o)) [
        | inl c ↦ simp c (
            ap (λ u. held symbol (apply_all u os)) (counted t o price c)
            ∙ apply_all-held (applied_to t o price) os symbol
            ∙ ap (λ h. h +ℤ later) (held-applied_to t o price symbol)
            ∙ spread (upper o.symbol == symbol) (held symbol t) (signed o) later)
        | inr c ↦ simp c (
            ap (λ u. held symbol (apply_all u os)) (ignored t o price c)
            ∙ apply_all-held t os symbol)
      ]

  -- From no positions, after any broker orders: the tracked quantity of a symbol is the sum of the signed
  -- filled quantities of its orders, where each order id counts once, with the first of its reports that
  -- has a fill. A repeated report changes nothing, and neither does a later report with a larger fill.
  pub position_sums_first_fills :
      (os : List (Fill P × Option P)) (symbol : Text)
      → position (apply_all (record { positions = []; applied = [] }) os) symbol
        ≡ first_fills (upper symbol) [] os
  unfolding position lookup
  position_sums_first_fills os symbol =
      apply_all-held (record { positions = []; applied = [] }) os (upper symbol) ∙ grind int_laws

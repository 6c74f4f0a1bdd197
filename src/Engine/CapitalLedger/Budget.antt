-- ===== src/Engine/CapitalLedger/Budget.antt =====
-- The sum of the reservations, and what a change of one of them does to it.
use systematic_trading_valid.Common.{
  Option, [], arith, nat_eq, none, pair_eq, refl, some, ℕ, ◌∷◌, ◌≡◌,
}
use systematic_trading_valid.Common.Int.{int_laws, pos, ℤ, ◌+ℤ◌, ◌≤ℤ◌}
use systematic_trading_valid.Common.Text.{text_eq}
use systematic_trading_valid.Common.Dict.{Dict, erase, insert, lookup, lookup-erase, lookup-insert}
use systematic_trading_valid.Engine.CapitalLedger.{Account, Ledger, or_zero, reserved_for}

-- The sum of the reservations.
abbrev pub sum : Dict ℕ ℤ → ℤ
sum [] = pos 0
sum ((s, a) ∷ d) = a +ℤ sum d

abbrev pub AllNonneg : Dict ℕ ℤ → Type 0
AllNonneg [] = Unit
AllNonneg ((s, a) ∷ d) = (pos 0 ≤ℤ a) × AllNonneg d

-- No strategy has two entries.
abbrev pub KeysOnce : Dict ℕ ℤ → Type 0
KeysOnce [] = Unit
KeysOnce ((s, a) ∷ d) = (lookup s d ≡ none) × KeysOnce d

pub record IsValid (l : Ledger) : Type 0 where
  pub totals : l.reserved_total ≡ sum l.reserved_by_strategy
  pub nonneg : AllNonneg l.reserved_by_strategy
  pub once : KeysOnce l.reserved_by_strategy

pub sum_nonneg : (d : Dict ℕ ℤ) → AllNonneg d → pos 0 ≤ℤ sum d
sum_nonneg [] h = omega arith
sum_nonneg ((s, a) ∷ d) (ha, hd) = omega (int_laws, sum_nonneg d hd)

pub sum-insert :
    (s : ℕ) (v : ℤ) (d : Dict ℕ ℤ)
    → KeysOnce d
    → sum (insert s v d) +ℤ reserved_for s d ≡ sum d +ℤ v
unfolding insert lookup
sum-insert s v [] h = omega int_laws
sum-insert s v ((t, a) ∷ d) (ht, hd) = grind (int_laws, sum-insert s v d hd)

pub sum-erase : (s : ℕ) (d : Dict ℕ ℤ) → KeysOnce d → sum (erase s d) +ℤ reserved_for s d ≡ sum d
unfolding erase lookup
sum-erase s [] h = omega int_laws
sum-erase s ((t, a) ∷ d) (ht, hd) = grind (int_laws, sum-erase s d hd)

pub AllNonneg-insert :
    (s : ℕ) (v : ℤ) (d : Dict ℕ ℤ) → pos 0 ≤ℤ v → AllNonneg d → AllNonneg (insert s v d)
unfolding insert
AllNonneg-insert s v [] h k = (h, tt)
AllNonneg-insert s v ((t, a) ∷ d) h (ka, kd) = ground (arith, AllNonneg-insert s v d h kd)

pub AllNonneg-erase : (s : ℕ) (d : Dict ℕ ℤ) → AllNonneg d → AllNonneg (erase s d)
unfolding erase
AllNonneg-erase s [] k = tt
AllNonneg-erase s ((t, a) ∷ d) (ka, kd) = ground (arith, AllNonneg-erase s d kd)

pub KeysOnce-insert : (s : ℕ) (v : ℤ) (d : Dict ℕ ℤ) → KeysOnce d → KeysOnce (insert s v d)
unfolding insert
KeysOnce-insert s v [] k = (unfold lookup in refl, tt)
KeysOnce-insert s v ((t, a) ∷ d) (ka, kd) =
    ground (arith, KeysOnce-insert s v d kd, lookup-insert s t v d)

pub KeysOnce-erase : (s : ℕ) (d : Dict ℕ ℤ) → KeysOnce d → KeysOnce (erase s d)
unfolding erase
KeysOnce-erase s [] k = tt
KeysOnce-erase s ((t, a) ∷ d) (ka, kd) = ground (arith, KeysOnce-erase s d kd, lookup-erase s t d)

pub reserved_for-nonneg : (s : ℕ) (d : Dict ℕ ℤ) → AllNonneg d → pos 0 ≤ℤ reserved_for s d
unfolding lookup
reserved_for-nonneg s [] h = omega arith
reserved_for-nonneg s ((t, a) ∷ d) (ha, hd) = ground (arith, reserved_for-nonneg s d hd)

pub reserved_for-le-sum :
    (s : ℕ) (d : Dict ℕ ℤ) → KeysOnce d → AllNonneg d → reserved_for s d ≤ℤ sum d
reserved_for-le-sum s d h k =
    grind (int_laws, sum-erase s d h, sum_nonneg (erase s d) (AllNonneg-erase s d k))

-- Zero or the buying power, whichever is more.
abbrev pub budget : Option Account → ℤ
budget none = pos 0
budget (some a) = or_zero a.buying_power

-- The total is within a limit.
abbrev pub IsWithin : ℤ → Ledger → Type 0
IsWithin top l = l.reserved_total ≤ℤ top

-- ===== src/Engine/RiskGovernor/Ids.antt =====
-- Which ids are in the sets and lists of ids.
use systematic_trading_valid.Common.{
  Bool-cases, List, [], arith, beq_iff, contains, inl, inr, is_some, nat_eq, not, pair_eq, refl,
  ◌&&◌, ◌==◌, ◌||◌, ◌∷◌, ◌≡◌,
}
use systematic_trading_valid.Common.Text.{Text, insert_sorted, text_eq}
use systematic_trading_valid.Common.Dict.{Dict, lookup}
use systematic_trading_valid.Engine.RiskGovernor.{add_id, discard_id}
use systematic_trading_valid.Engine.RiskGovernor.Rehydrate.{keys, sort_all}

pub contains-add_id :
    (s t : Text) (ids : List Text) → contains t (add_id s ids) ≡ ((s == t) || contains t ids)
contains-add_id s t ids = elim (Bool-cases (contains s ids)) [
  | inl e ↦ elim (Bool-cases (s == t)) [
    | inl f ↦ simp (e, f) (rw ((beq_iff s t).0 f) at e)
    | inr f ↦ simp (e, f)
  ]
  | inr e ↦ simp e
]

pub contains-discard_id :
    (s t : Text) (ids : List Text)
    → contains t (discard_id s ids) ≡ (not (s == t) && contains t ids)
contains-discard_id s t [] = ground arith
contains-discard_id s t (i ∷ ids) =
    ground (arith, beq_iff s t, beq_iff i s, beq_iff i t, contains-discard_id s t ids)

contains-insert_sorted :
    (s t : Text) (ids : List Text) → contains t (insert_sorted s ids) ≡ ((s == t) || contains t ids)
contains-insert_sorted s t [] = refl
contains-insert_sorted s t (i ∷ ids) =
    ground (arith, beq_iff s t, beq_iff i s, beq_iff i t, contains-insert_sorted s t ids)

pub contains-sort_all :
    (t : Text) (ks acc : List Text)
    → contains t (sort_all ks acc) ≡ (contains t ks || contains t acc)
contains-sort_all t [] acc = refl
contains-sort_all t (k ∷ ks) acc =
    ground (arith, contains-insert_sorted k t (sort_all ks acc), contains-sort_all t ks acc)

pub contains-keys {ℓ} :
    {V : Type ℓ} (t : Text) (d : Dict Text V) → contains t (keys d) ≡ is_some (lookup t d)
unfolding lookup
contains-keys t [] = refl
contains-keys t ((k, v) ∷ d) = ground (arith, contains-keys t d)

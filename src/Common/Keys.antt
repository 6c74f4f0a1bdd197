-- ===== src/Common/Keys.antt =====
-- The keys of a dictionary: each stands for one entry.
use mathlib.Core.Path.{◌≡◌, refl}
use mathlib.Core.Bool.{true, false}
use mathlib.Core.Option.{none, some}
use mathlib.Core.List.{List, [], ◌∷◌, map}
use native.Mathlib.Omega.{arith}
use systematic_trading_valid.Common.Tests.{Eq, beq_iff, beq_refl}
use systematic_trading_valid.Common.Lists.{All, All-map, contains}
use systematic_trading_valid.Common.Dict.{
  Dict, lookup, insert, erase, has_key, lookup-insert, lookup-erase,
}

abbrev pub Distinct {ℓ κ} : {K : Type ℓ} {V : Type κ} ⦃e : Eq K⦄ → Dict K V → Type 0
Distinct [] = Unit
Distinct ((k, v) ∷ d) = (has_key k d ≡ false) × Distinct d

abbrev pub keys_of {ℓ κ} : {K : Type ℓ} {V : Type κ} → Dict K V → List K
keys_of d = map (λ e. e.0) d

module _ {ℓ κ} {K : Type ℓ} {V : Type κ} ⦃e : Eq K⦄ where
  pub Distinct-insert : (k : K) (v : V) (d : Dict K V) → Distinct d → Distinct (insert k v d)
  unfolding lookup insert
  Distinct-insert k v [] h = (refl, tt)
  Distinct-insert k v ((j, w) ∷ d) (h, hs) =
      ground (arith, beq_iff j k, beq_iff k j, lookup-insert k j v d, Distinct-insert k v d hs)

  pub Distinct-erase : (k : K) (d : Dict K V) → Distinct d → Distinct (erase k d)
  unfolding erase
  Distinct-erase k [] h = tt
  Distinct-erase k ((j, w) ∷ d) (h, hs) =
      ground (arith, beq_iff j k, beq_iff k j, lookup-erase k j d, Distinct-erase k d hs)

  -- An entry is what its key looks up.
  pub entries_found : (d : Dict K V) → Distinct d → All (λ (p : K × V). lookup p.0 d ≡ some p.1) d
  unfolding lookup
  entries_found [] h = tt
  entries_found ((k, v) ∷ d) (h, hs) = (
    ground (arith, beq_refl k),
    All-map (λ (p : K × V). lookup p.0 d ≡ some p.1) _ d (λ p q. ground (arith, beq_iff k p.0))
        (entries_found d hs),
  )

  pub found_key :
      (k : K) (v : V) (d : Dict K V) → lookup k d ≡ some v → contains k (keys_of d) ≡ true
  unfolding lookup
  found_key k v [] h = cc
  found_key k v ((j, w) ∷ d) h = ground (arith, found_key k v d)

  pub empty_dict : (d : Dict K V) → ((k : K) → lookup k d ≡ none) → d ≡ []
  unfolding lookup
  empty_dict [] h = refl
  empty_dict ((k, v) ∷ d) h = ground (arith, beq_refl k, h k)

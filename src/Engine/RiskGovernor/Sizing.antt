-- ===== src/Engine/RiskGovernor/Sizing.antt =====
-- Which legs the governor sizes down.
use systematic_trading_valid.Common.{
  Bool, Bool-cases, List, [], ap, arith, beq_iff, contains, false, if◌then◌else◌, inl, inr, ltb,
  min, nat_eq, not, or_default, pair_eq, refl, true, ℕ, ◌&&◌, ◌==◌, ◌||◌, ◌∙◌, ◌∷◌, ◌≡◌,
}
use systematic_trading_valid.Common.Int.{abs_ℤ, ℤ}
use systematic_trading_valid.Common.Text.{Text, text_eq}
use systematic_trading_valid.Common.Dict.{insert, lookup, lookup-insert}
use systematic_trading_valid.Engine.RiskGovernor.{
  Governor, add_id, clamp_multiplier, max_safe_correlation,
}
use systematic_trading_valid.Engine.RiskGovernor.Evaluate.{
  Leg, Pairs, Sizes, clamp_cold, clamp_pairs, clamp_size, compute_correlation_pairs, enabled_legs,
  evaluate, full_sizes, has_samples, sizes_of,
}
use systematic_trading_valid.Engine.RiskGovernor.Ids.{contains-add_id}
use systematic_trading_valid.Engine.RiskGovernor.Pairs.{
  AreDistinct, ids_of, is_concentrated, is_correlated, pairs-concentrated,
}

abbrev pub size_of : Sizes → Text → ℕ
size_of d s = or_default 100 (lookup s d)

-- The leg has too few bars to be compared.
abbrev pub is_cold : List Leg → Text → Bool
is_cold [] s = false
is_cold (l ∷ ls) s = (not (has_samples l) && (l.strategy_id == s)) || is_cold ls s

-- The size after a clamp, if there was one
abbrev clamped : Bool → ℕ → ℕ
clamped b n = if b then min n clamp_multiplier else n

clamped-clamped : (b c : Bool) (n : ℕ) → clamped c (clamped b n) ≡ clamped (b || c) n
clamped-clamped true true n = omega arith
clamped-clamped true false n = refl
clamped-clamped false c n = refl

size_of-clamp :
    (s t : Text) (d : Sizes) → size_of (clamp_size s d) t ≡ clamped (s == t) (size_of d t)
size_of-clamp s t d = elim (Bool-cases (s == t)) [
  | inl e ↦
      simp (lookup-insert, e) (ap (λ r. min (size_of d r) clamp_multiplier) ((beq_iff s t).0 e))
  | inr e ↦ simp (lookup-insert, e)
]

size_of-full :
    (ls : List Leg) (d : Sizes) (t : Text) → size_of d t ≡ 100 → size_of (full_sizes ls d) t ≡ 100
size_of-full [] d t h = h
size_of-full (l ∷ ls) d t h =
    size_of-full ls (insert l.strategy_id 100 d) t (elim (Bool-cases (l.strategy_id == t)) [
      | inl e ↦ simp (lookup-insert, e)
      | inr e ↦ simp (lookup-insert, e) h
    ])

size_of-pairs :
    (ps : Pairs) (d : Sizes) (t : Text)
    → size_of (clamp_pairs ps d) t ≡ clamped (is_concentrated ps t) (size_of d t)
size_of-pairs [] d t = refl
size_of-pairs (((a, b), c) ∷ ps) d t = elim (Bool-cases (ltb (abs_ℤ c) max_safe_correlation)) [
  | inl e ↦ simp e (size_of-pairs ps d t)
  | inr e ↦ simp e (
      size_of-pairs ps (clamp_size b (clamp_size a d)) t
      ∙ ap (clamped (is_concentrated ps t)) (
          size_of-clamp b t (clamp_size a d)
          ∙ ap (clamped (b == t)) (size_of-clamp a t d)
          ∙ clamped-clamped (a == t) (b == t) (size_of d t))
      ∙ clamped-clamped ((a == t) || (b == t)) (is_concentrated ps t) (size_of d t))
]

size_of-cold :
    (ls : List Leg) (d : Sizes) (cold : List Text) (t : Text)
    → size_of (clamp_cold ls (d, cold)).0 t ≡ clamped (is_cold ls t) (size_of d t)
size_of-cold [] d cold t = refl
size_of-cold (l ∷ ls) d cold t = elim (Bool-cases (has_samples l)) [
  | inl e ↦ simp e (size_of-cold ls d cold t)
  | inr e ↦ simp e (
      size_of-cold ls (clamp_size l.strategy_id d) (add_id l.strategy_id cold) t
      ∙ ap (clamped (is_cold ls t)) (size_of-clamp l.strategy_id t d)
      ∙ clamped-clamped (l.strategy_id == t) (is_cold ls t) (size_of d t))
]

contains-cold :
    (ls : List Leg) (d : Sizes) (cold : List Text) (t : Text)
    → contains t (clamp_cold ls (d, cold)).1 ≡ (contains t cold || is_cold ls t)
contains-cold [] d cold t = ground arith
contains-cold (l ∷ ls) d cold t = elim (Bool-cases (has_samples l)) [
  | inl e ↦ simp e (contains-cold ls d cold t)
  | inr e ↦ simp e (
      contains-cold ls (clamp_size l.strategy_id d) (add_id l.strategy_id cold) t
      ∙ ground (arith, contains-add_id l.strategy_id t cold))
]

-- Of enabled legs with distinct ids, a leg is sized at the clamp exactly if its returns and those of another
-- enabled leg, both with enough bars, are correlated at the limit or above, in either direction, or it is
-- enabled with too few bars to tell; else it is sized in full. The legs that are reported as clamped by a
-- cold start are those with too few bars.
pub sizing_exact :
    (correlation : List ℤ → List ℤ → ℤ) (g : Governor) (ls : List Leg) (equity : ℤ) (s : Text)
    → AreDistinct (ids_of (enabled_legs ls))
    → let v = (evaluate correlation g ls equity).1 in
      let on = enabled_legs ls in
      (size_of v.sizing_multipliers s
        ≡ (if is_correlated correlation on s || is_cold on s then clamp_multiplier else 100))
      × (contains s v.cold_start_clamped ≡ is_cold on s)
unfolding evaluate sizes_of
sizing_exact correlation g ls equity s u =
    let on = enabled_legs ls in
    let ps = compute_correlation_pairs correlation ls in
    let full = full_sizes on [] in
    (
      size_of-cold on (clamp_pairs ps full) [] s
          ∙ ap (clamped (is_cold on s)) (size_of-pairs ps full s)
          ∙ clamped-clamped (is_concentrated ps s) (is_cold on s) (size_of full s)
          ∙ ap (λ c. clamped (c || is_cold on s) (size_of full s))
              (pairs-concentrated correlation ls s u)
          ∙ ap (clamped (is_correlated correlation on s || is_cold on s))
              (size_of-full on [] s (no_size s)),
      contains-cold on (clamp_pairs ps full) [] s,
    )
  where
    no_size : (t : Text) → size_of [] t ≡ 100
    no_size t = unfold lookup in refl

-- ===== src/Engine/RiskGovernor/Pairs.antt =====
-- Which legs the pairs of a verdict name as correlated too closely.
use systematic_trading_valid.Common.{
  Bool, Bool-cases, List, [], ap, arith, beq_iff, beq_refl, contains, false, inl, inr, ltb, map,
  nat_eq, none, not, pair_eq, refl, true, ◌&&◌, ◌==◌, ◌||◌, ◌∙◌, ◌∷◌, ◌≡◌,
}
use systematic_trading_valid.Common.Int.{abs_ℤ, ℤ}
use systematic_trading_valid.Common.Text.{Text, text_eq}
use systematic_trading_valid.Common.Dict.{insert, lookup, lookup-insert}
use systematic_trading_valid.Engine.RiskGovernor.{max_safe_correlation}
use systematic_trading_valid.Engine.RiskGovernor.Evaluate.{
  Leg, Pairs, closes_of, compute_correlation_pairs, enabled_legs, has_samples, pair_with,
  pairs_from,
}

-- The correlation of two legs is at the limit or above, in either direction.
abbrev pub is_close : ℤ → Bool
is_close c = not (ltb (abs_ℤ c) max_safe_correlation)

-- The leg is in a pair that is correlated too closely.
abbrev pub is_concentrated : Pairs → Text → Bool
is_concentrated [] s = false
is_concentrated (((a, b), c) ∷ ps) s =
    (is_close c && ((a == s) || (b == s))) || is_concentrated ps s

abbrev pub ids_of : List Leg → List Text
ids_of ls = map (λ l. l.strategy_id) ls

-- No two legs have one id.
abbrev pub AreDistinct : List Text → Type 0
AreDistinct [] = Unit
AreDistinct (s ∷ ss) = (contains s ss ≡ false) × AreDistinct ss

-- Neither order of these two ids is a key.
record NoKey (d : Pairs) (i j : Text) : Type 0 where
  forth : lookup (i, j) d ≡ none
  back : lookup (j, i) d ≡ none

other_ids :
    (s j : Text) (ss : List Text) → contains s ss ≡ false → contains j ss ≡ true → (s == j) ≡ false
other_ids s j ss h k = elim (Bool-cases (s == j)) [
  | inl e ↦ cc (h, k, (beq_iff s j).0 e)
  | inr e ↦ e
]

turned : (s j : Text) → (s == j) ≡ false → (j == s) ≡ false
turned s j h = elim (Bool-cases (j == s)) [
  | inl e ↦ cc (h, (beq_iff j s).0 e, beq_refl s)
  | inr e ↦ e
]

split_or : (b c : Bool) → (b || c) ≡ false → (b ≡ false) × (c ≡ false)
split_or b c h = ground (arith, h)

neither : (b c : Bool) → b ≡ false → c ≡ false → (b || c) ≡ false
neither b c h k = ground (arith, h, k)

in_tail : (b c : Bool) → c ≡ true → (b || c) ≡ true
in_tail b c h = ground (arith, h)

in_head : {b : Bool} → b ≡ true → (c : Bool) → (b || c) ≡ true
in_head h c = ground (arith, h)

concentrated-new :
    (a b : Text) (c : ℤ) (d : Pairs) (t : Text)
    → lookup (a, b) d ≡ none
    → is_concentrated (insert (a, b) c d) t
      ≡ ((is_close c && ((a == t) || (b == t))) || is_concentrated d t)
unfolding insert lookup
concentrated-new a b c [] t h = refl
concentrated-new a b c (((x, y), e) ∷ d) t h = ground (arith, concentrated-new a b c d t)

module _ (correlation : List ℤ → List ℤ → ℤ) where
  -- Two legs with enough bars each, whose closes are correlated too closely, and one of them is the leg.
  abbrev pub with_later : Leg → List Leg → Text → Bool
  with_later l [] s = false
  with_later l (r ∷ rs) s =
      (has_samples r
        && is_close (correlation (closes_of l) (closes_of r))
        && ((l.strategy_id == s) || (r.strategy_id == s)))
      || with_later l rs s

  abbrev pub is_correlated : List Leg → Text → Bool
  is_correlated [] s = false
  is_correlated (l ∷ ls) s = (has_samples l && with_later l ls s) || is_correlated ls s

  abbrev both_keys : Leg → Leg → Pairs → Pairs
  both_keys l r d =
      let c = correlation (closes_of l) (closes_of r) in
      insert (r.strategy_id, l.strategy_id) c (insert (l.strategy_id, r.strategy_id) c d)

  both_keys-elsewhere :
      (l r : Leg) (d : Pairs) (i j : Text)
      → ((l.strategy_id == i) || (l.strategy_id == j)) ≡ false
      → lookup (i, j) (both_keys l r d) ≡ lookup (i, j) d
  both_keys-elsewhere l r d i j h = simp (lookup-insert) (ground (arith, h))

  pair_with-elsewhere :
      (l : Leg) (rs : List Leg) (d : Pairs) (i j : Text)
      → ((l.strategy_id == i) || (l.strategy_id == j)) ≡ false
      → lookup (i, j) (pair_with correlation l rs d) ≡ lookup (i, j) d
  pair_with-elsewhere l [] d i j h = refl
  pair_with-elsewhere l (r ∷ rs) d i j h = elim (Bool-cases (has_samples r)) [
    | inl e ↦
        simp e (pair_with-elsewhere l rs (both_keys l r d) i j h ∙ both_keys-elsewhere l r d i j h)
    | inr e ↦ simp e (pair_with-elsewhere l rs d i j h)
  ]

  one_more : (p a b q : Bool) → ((p && (b || a)) || ((p && (a || b)) || q)) ≡ ((p && (a || b)) || q)
  one_more p a b q = ground arith

  both_keys-concentrated :
      (l r : Leg) (d : Pairs) (t : Text)
      → (l.strategy_id == r.strategy_id) ≡ false
      → NoKey d l.strategy_id r.strategy_id
      → is_concentrated (both_keys l r d) t ≡ (
          (is_close (correlation (closes_of l) (closes_of r))
            && ((l.strategy_id == t) || (r.strategy_id == t)))
          || is_concentrated d t)
  both_keys-concentrated l r d t h n =
      let a = l.strategy_id in
      let b = r.strategy_id in
      let c = correlation (closes_of l) (closes_of r) in
      concentrated-new b a c (insert (a, b) c d) t (simp (lookup-insert, h) n.back)
      ∙ ap (λ q. (is_close c && ((b == t) || (a == t))) || q) (concentrated-new a b c d t n.forth)
      ∙ one_more (is_close c) (a == t) (b == t) (is_concentrated d t)

  both_keys-NoKey :
      (l r : Leg) (d : Pairs) (j : Text)
      → (r.strategy_id == l.strategy_id) ≡ false
      → (r.strategy_id == j) ≡ false
      → NoKey d l.strategy_id j
      → NoKey (both_keys l r d) l.strategy_id j
  both_keys-NoKey l r d j h k n = record {
    forth = simp (lookup-insert, h, k, n.forth) (ground (arith, k, n.forth));
    back = simp (lookup-insert, h, k, n.back) (ground (arith, h, n.back));
  }

  regroup : (s p q d : Bool) → s ≡ true → (q || (p || d)) ≡ (((s && p) || q) || d)
  regroup s p q d h = ground (arith, h)

  pair_with-concentrated :
      (l : Leg) (rs : List Leg) (d : Pairs) (t : Text)
      → contains l.strategy_id (ids_of rs) ≡ false
      → AreDistinct (ids_of rs)
      → ((j : Text) → contains j (ids_of rs) ≡ true → NoKey d l.strategy_id j)
      → is_concentrated (pair_with correlation l rs d) t
        ≡ (with_later l rs t || is_concentrated d t)
  pair_with-concentrated l [] d t h u k = refl
  pair_with-concentrated l (r ∷ rs) d t h (u, us) k =
      let (g, f) = split_or (r.strategy_id == l.strategy_id) _ h in
      let rest =
        λ (j : Text) (m : contains j (ids_of rs) ≡ true). k j (in_tail (r.strategy_id == j) _ m) in
      elim (Bool-cases (has_samples r)) [
        | inl e ↦ simp e (
            pair_with-concentrated l rs (both_keys l r d) t f us (λ j m.
              both_keys-NoKey l r d j g (other_ids r.strategy_id j (ids_of rs) u m) (rest j m))
            ∙ ap (λ q. with_later l rs t || q)
                (both_keys-concentrated l r d t (turned r.strategy_id l.strategy_id g)
                  (k r.strategy_id (in_head (beq_refl r.strategy_id) _)))
            ∙ regroup true _ (with_later l rs t) (is_concentrated d t) refl)
        | inr e ↦ simp e (pair_with-concentrated l rs d t f us rest)
      ]

  pairs_from-concentrated :
      (ls : List Leg) (d : Pairs) (t : Text)
      → AreDistinct (ids_of ls)
      → ((i j : Text)
          → contains i (ids_of ls) ≡ true
          → contains j (ids_of ls) ≡ true
          → lookup (i, j) d ≡ none)
      → is_concentrated (pairs_from correlation ls d) t
        ≡ (is_correlated ls t || is_concentrated d t)
  pairs_from-concentrated [] d t u k = refl
  pairs_from-concentrated (l ∷ ls) d t (u, us) k =
      let s = l.strategy_id in
      let tail = λ (i : Text) (m : contains i (ids_of ls) ≡ true). in_tail (s == i) _ m in
      let head = in_head (beq_refl s) (contains s (ids_of ls)) in
      elim (Bool-cases (has_samples l)) [
        | inl e ↦ simp e (
            pairs_from-concentrated ls (pair_with correlation l ls d) t us (λ i j m n.
              pair_with-elsewhere l ls d i j
                (neither _ _ (other_ids s i (ids_of ls) u m) (other_ids s j (ids_of ls) u n))
              ∙ k i j (tail i m) (tail j n))
            ∙ ap (λ q. is_correlated ls t || q)
                (pair_with-concentrated l ls d t u us
                  (λ j m. record { forth = k s j head (tail j m); back = k j s (tail j m) head }))
            ∙ regroup true (with_later l ls t) (is_correlated ls t) (is_concentrated d t) refl)
        | inr e ↦
            simp e (pairs_from-concentrated ls d t us (λ i j m n. k i j (tail i m) (tail j n)))
      ]

  -- Of legs with distinct ids, the reported pairs name exactly those that are correlated too closely with another.
  pub pairs-concentrated :
      (ls : List Leg) (t : Text)
      → AreDistinct (ids_of (enabled_legs ls))
      → is_concentrated (compute_correlation_pairs correlation ls) t
        ≡ is_correlated (enabled_legs ls) t
  unfolding compute_correlation_pairs
  pairs-concentrated ls t u =
      pairs_from-concentrated (enabled_legs ls) [] t u (λ i j m n. unfold lookup in refl)
      ∙ ground arith

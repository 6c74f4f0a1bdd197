-- ===== src/Lifecycle/DemotionMonitors/Drift.antt =====
-- The runs of weeks that the drift monitor looks for.
use systematic_trading_valid.Common.{
  Bool, Bool-cases, List, Option, [], any, ap, arith, false, if◌then◌else◌, inl, inr, is_some, map,
  nat_eq, none, pair_eq, refl, some, sym, ℕ, ◌*◌, ◌+◌, ◌<◌, ◌||◌, ◌∙◌, ◌∷◌, ◌≡◌,
}
use systematic_trading_valid.Common.Int.{
  +ℤ_parts, -ℤ_parts, eq_of_parts, int_laws, leb_ℤ, ltb_ℤ, max_ℤ, neg_part, pos, pos_part, ℤ, ◌*ℤ◌,
  ◌+ℤ◌, ◌-ℤ◌, ◌≤ℤ◌,
}
use systematic_trading_valid.Common.Text.{text_eq}
use systematic_trading_valid.Lifecycle.DemotionMonitors.{
  Cusum, cusum_drift, cusum_loop, cusum_start, note_first, safe_mode, shortfall, tier_if,
}

-- The shortfalls of the last week, the last two weeks, and so on, of weeks that are listed newest first
abbrev sums_from : ℤ → List ℤ → List ℤ
sums_from a [] = []
sums_from a (x ∷ xs) = (a +ℤ x) ∷ sums_from (a +ℤ x) xs

abbrev drifts : ℤ → List ℤ → Bool
drifts h weeks = any (λ v. ltb_ℤ h v) (sums_from (pos 0) weeks)

-- The index of the first week that ends such a run
abbrev first_drift : ℤ → ℕ → List ℤ → List ℤ → Option ℕ
first_drift h i seen [] = none
first_drift h i seen (x ∷ xs) =
    let later = first_drift h (i + 1) (x ∷ seen) xs in if drifts h (x ∷ seen) then some i else later

add_assoc_ℤ : (a b c : ℤ) → (a +ℤ b) +ℤ c ≡ a +ℤ (b +ℤ c)
add_assoc_ℤ a b c =
    eq_of_parts _ _
      (omega (arith, +ℤ_parts (a +ℤ b) c, +ℤ_parts a b, +ℤ_parts a (b +ℤ c), +ℤ_parts b c))

shifted : (t a b y : ℤ) → ltb_ℤ t (a +ℤ (b +ℤ y)) ≡ ltb_ℤ (t -ℤ a) (b +ℤ y)
shifted t a b y = ground (arith, +ℤ_parts a (b +ℤ y), -ℤ_parts t a)

any_shift :
    (t a b : ℤ) (xs : List ℤ)
    → any (λ v. ltb_ℤ t v) (sums_from (a +ℤ b) xs) ≡ any (λ v. ltb_ℤ (t -ℤ a) v) (sums_from b xs)
any_shift t a b [] = refl
any_shift t a b (y ∷ ys) =
    rw (add_assoc_ℤ a b y, shifted t a b y)
      (ap (λ r. ltb_ℤ (t -ℤ a) (b +ℤ y) || r) (any_shift t a (b +ℤ y) ys))

-- The sum of the monitor stands above a bound exactly if a run that ends now does.
record Stands (s : ℤ) (seen : List ℤ) : Type 0 where
  above_zero : pos 0 ≤ℤ s
  exact : (t : ℤ) → pos 0 ≤ℤ t → ltb_ℤ t s ≡ drifts t seen

from_zero :
    (t s x : ℤ)
    → pos 0 ≤ℤ t
    → pos 0 ≤ℤ s
    → ltb_ℤ t (max_ℤ (pos 0) (s +ℤ x)) ≡ (ltb_ℤ t x || ltb_ℤ (t -ℤ x) s)
from_zero t s x h k = ground (arith, +ℤ_parts s x, -ℤ_parts t x)

zero_left : (x : ℤ) → pos 0 +ℤ x ≡ x
zero_left x = eq_of_parts _ _ (omega (arith, +ℤ_parts (pos 0) x))

zero_right : (x : ℤ) → x +ℤ pos 0 ≡ x
zero_right x = eq_of_parts _ _ (omega (arith, +ℤ_parts x (pos 0)))

-- A run that goes further back than the newest week
longer_run :
    (t x : ℤ) (seen : List ℤ) → any (λ v. ltb_ℤ t v) (sums_from x seen) ≡ drifts (t -ℤ x) seen
longer_run t x seen = rw (zero_right x) at (any_shift t x (pos 0) seen)

reaches : (t x : ℤ) → ltb_ℤ t x ≡ false → pos 0 ≤ℤ (t -ℤ x)
reaches t x e = ground (arith, -ℤ_parts t x)

module _ (s x : ℤ) (seen : List ℤ) (i : Stands s seen) where
  newest_or_longer : (t : ℤ) → (ltb_ℤ t x || ltb_ℤ (t -ℤ x) s) ≡ (ltb_ℤ t x || drifts (t -ℤ x) seen)
  newest_or_longer t = elim (Bool-cases (ltb_ℤ t x)) [
    | inl e ↦ simp e
    | inr e ↦ ap (λ r. ltb_ℤ t x || r) (i.exact (t -ℤ x) (reaches t x e))
  ]

  Stands-step : Stands (max_ℤ (pos 0) (s +ℤ x)) (x ∷ seen)
  Stands-step = record {
    above_zero = ground arith;
    exact = λ t h.
        rw (zero_left x, longer_run t x seen) (from_zero t s x h i.above_zero ∙ newest_or_longer t);
  }

Stands-start : Stands (pos 0) []
Stands-start = record { above_zero = ground arith; exact = λ t h. ground arith }

cusum_loop_keeps :
    (h : ℤ) (i j : ℕ) (xs : List ℤ) (c : Cusum)
    → c.first_trip ≡ some j
    → (cusum_loop h i xs c).first_trip ≡ some j
unfolding cusum_loop
cusum_loop_keeps h i j [] c e = e
cusum_loop_keeps h i j (x ∷ xs) c e = cusum_loop_keeps h (i + 1) j xs _ (ap (note_first _ i) e)

noted :
    (now : Bool) (i : ℕ) (o : Option ℕ)
    → o ≡ none
    → note_first now i o ≡ (if now then some i else none)
noted now i o e = rw e refl

cusum_loop-first_drift :
    (h : ℤ) (i : ℕ) (seen xs : List ℤ) (c : Cusum)
    → pos 0 ≤ℤ h
    → Stands c.s seen
    → c.first_trip ≡ none
    → (cusum_loop h i xs c).first_trip ≡ first_drift h i seen xs
unfolding cusum_loop
cusum_loop-first_drift h i seen [] c z k e = e
cusum_loop-first_drift h i seen (x ∷ xs) c z k e =
    let next = Stands-step c.s x seen k in
    let now = noted (ltb_ℤ h (max_ℤ (pos 0) (c.s +ℤ x))) i c.first_trip e in
    elim (Bool-cases (drifts h (x ∷ seen))) [
      | inl d ↦
          cusum_loop_keeps h (i + 1) i xs _
            (now ∙ ap (λ b. if b then some i else none) (next.exact h z ∙ d))
          ∙ sym (ap (λ b. if b then some i else first_drift h (i + 1) (x ∷ seen) xs) d)
      | inr d ↦
          cusum_loop-first_drift h (i + 1) (x ∷ seen) xs _ z next
            (now ∙ ap (λ b. if b then some i else none) (next.exact h z ∙ d))
          ∙ sym (ap (λ b. if b then some i else first_drift h (i + 1) (x ∷ seen) xs) d)
    ]

-- Some run of weeks that ends at the newest fell behind the mean by more than is allowed: `fell` so far, where
-- every week adds what it fell behind and allows `slack` more.
abbrev pub some_run_behind : ℤ → ℕ → ℤ → ℕ → List ℤ → Bool
some_run_behind mu0 slack fell allowed [] = false
some_run_behind mu0 slack fell allowed (r ∷ rs) =
    let longer = some_run_behind mu0 slack (fell +ℤ (pos 100 *ℤ (mu0 -ℤ r))) (allowed + slack) rs in
    ltb_ℤ (pos (allowed + slack)) (fell +ℤ (pos 100 *ℤ (mu0 -ℤ r))) || longer

-- The first week that ends such a run; the weeks before it are listed newest first.
abbrev pub first_behind : ℤ → ℕ → ℕ → ℕ → List ℤ → List ℤ → Option ℕ
first_behind mu0 slack bound i seen [] = none
first_behind mu0 slack bound i seen (r ∷ rs) =
    let later = first_behind mu0 slack bound (i + 1) (r ∷ seen) rs in
    if some_run_behind mu0 slack (pos 0) bound (r ∷ seen) then some i else later

or_same : {a b c d : Bool} → a ≡ b → c ≡ d → (a || c) ≡ (b || d)
or_same {a} {b} {c} {d} e f = ap (λ x. x || c) e ∙ ap (λ x. b || x) f

if_same :
    {a b : Bool} {o p : Option ℕ} (i : ℕ)
    → a ≡ b
    → o ≡ p
    → (if a then some i else o) ≡ (if b then some i else p)
if_same {a} {b} {o} {p} i e f =
    ap (λ x. if x then some i else o) e ∙ ap (λ x. if b then some i else x) f

module _ (mu0 : ℤ) (sigma k bound : ℕ) where
  balance_step :
      (a x fell : ℤ) (allowed slack : ℕ)
      → a +ℤ pos allowed ≡ fell +ℤ pos bound
      → (a +ℤ (x -ℤ pos slack)) +ℤ pos (allowed + slack) ≡ (fell +ℤ x) +ℤ pos bound
  balance_step a x fell allowed slack e = grind int_laws

  balance_test :
      (a fell : ℤ) (allowed : ℕ)
      → a +ℤ pos allowed ≡ fell +ℤ pos bound
      → ltb_ℤ (pos bound) a ≡ ltb_ℤ (pos allowed) fell
  balance_test a fell allowed e =
      ground
        (arith, +ℤ_parts a (pos allowed), +ℤ_parts fell (pos bound), ap pos_part e, ap neg_part e)

  sums-behind :
      (rs : List ℤ) (a fell : ℤ) (allowed : ℕ)
      → a +ℤ pos allowed ≡ fell +ℤ pos bound
      → any (λ v. ltb_ℤ (pos bound) v) (sums_from a (map (shortfall mu0 sigma k) rs))
        ≡ some_run_behind mu0 (k * sigma) fell allowed rs
  sums-behind [] a fell allowed e = refl
  sums-behind (r ∷ rs) a fell allowed e =
      let x = pos 100 *ℤ (mu0 -ℤ r) in
      let next = balance_step a x fell allowed (k * sigma) e in
      let later =
        sums-behind rs (a +ℤ (x -ℤ pos (k * sigma))) (fell +ℤ x) (allowed + k * sigma) next in
      or_same (balance_test (a +ℤ (x -ℤ pos (k * sigma))) (fell +ℤ x) (allowed + k * sigma) next)
        later

  start_balance : pos 0 +ℤ pos bound ≡ pos 0 +ℤ pos bound
  start_balance = refl

  first_drift-behind :
      (i : ℕ) (seen rs : List ℤ)
      → first_drift
          (pos bound)
          i
          (map (shortfall mu0 sigma k) seen)
          (map (shortfall mu0 sigma k) rs)
        ≡ first_behind mu0 (k * sigma) bound i seen rs
  first_drift-behind i seen [] = refl
  first_drift-behind i seen (r ∷ rs) =
      if_same i (sums-behind (r ∷ seen) (pos 0) (pos 0) bound start_balance)
        (first_drift-behind (i + 1) (r ∷ seen) rs)

-- For a deviation above zero, the drift monitor trips, into safe mode, exactly if over some run of consecutive
-- weeks, of one week or more, the returns fell behind the validated mean by more than the bound and the
-- slack of every week of the run together, in deviations; and the index that it reports is the first
-- week that ends such a run.
pub cusum_exact :
    (returns : List ℤ) (mu0 : ℤ) (sigma k h : ℕ)
    → 0 < sigma
    → let first = first_behind mu0 (k * sigma) (h * sigma) 0 [] returns in
      let verdict = cusum_drift returns mu0 (pos sigma) k h in
      (verdict.trip_index ≡ first) × (verdict.tier ≡ tier_if (is_some first) safe_mode)
unfolding cusum_drift
cusum_exact returns mu0 sigma k h p =
    let weeks = map (shortfall mu0 sigma k) returns in
    let loop =
      cusum_loop-first_drift (pos (h * sigma)) 0 [] weeks cusum_start (omega arith) Stands-start
        refl
      ∙ first_drift-behind mu0 sigma k (h * sigma) 0 [] returns in
    let positive : leb_ℤ (pos sigma) (pos 0) ≡ false = ground arith in
    rw positive (loop, ap (λ o. tier_if (is_some o) safe_mode) loop)

-- ===== src/Research/PurgedWf/Leakage.antt =====
-- No training label reaches a test block.
use systematic_trading_valid.Common.{
  All, Bool, Bool-cases, List, Option, Result, [], ap, arith, contains, false, if◌then◌else◌, inl,
  inr, keep_if, leb, ltb, max, min, nat_beq_iff, nat_eq, not, ok, pair_eq, refl, suc, true, zero, ℕ,
  ◌&&◌, ◌+◌, ◌-◌, ◌<◌, ◌==◌, ◌||◌, ◌∙◌, ◌∷◌, ◌≡◌, ◌≤◌,
}
use systematic_trading_valid.Common.Text.{text_eq}
use systematic_trading_valid.Research.PurgedWf.{
  Split, SplitError, arange, cons_ok, is_dropped, is_full, list_beq, maximum, minimum,
  purge_embargo_splits, purge_embargo_train, purge_split, quarterly_splits, split_loop,
}

contains-keep_if :
    (p : ℕ → Bool) (t : ℕ) (xs : List ℕ) → contains t (keep_if p xs) ≡ contains t xs && p t
contains-keep_if p t [] = refl
contains-keep_if p t (x ∷ xs) = elim (Bool-cases (x == t)) [
  | inl e ↦ ground (arith, contains-keep_if p t xs, e, ap p ((nat_beq_iff x t).0 e))
  | inr e ↦ ground (arith, contains-keep_if p t xs, e)
]

kept-clear :
    (ts te e t : ℕ) → ts ≤ te → not (is_dropped ts te e t) ≡ ltb (t + e) ts || leb (te + e) t
kept-clear ts te e t h = ground arith

-- A bar stays in the training set exactly if it was there and its label window ends before the test
-- block or it comes after the block and the embargo that follows it.
pub purge_exact :
    (train : List ℕ) (ts te e t : ℕ)
    → ts ≤ te
    → contains t (purge_embargo_train train ts te e)
      ≡ contains t train && (ltb (t + e) ts || leb (te + e) t)
unfolding purge_embargo_train
purge_exact train ts te e t h =
    contains-keep_if _ t train ∙ ap (λ b. contains t train && b) (kept-clear ts te e t h)

module _ {P Q : ℕ → Type 0} where
  All-keep_if :
      (p : ℕ → Bool) (xs : List ℕ)
      → ((t : ℕ) → P t → p t ≡ true → Q t)
      → All P xs
      → All Q (keep_if p xs)
  All-keep_if p [] h a = tt
  All-keep_if p (x ∷ xs) h (a, rest) = elim (Bool-cases (p x)) [
    | inl e ↦ simp e (h x a e, All-keep_if p xs h rest)
    | inr e ↦ simp e (All-keep_if p xs h rest)
  ]

  All-map : (xs : List ℕ) → ((t : ℕ) → P t → Q t) → All P xs → All Q xs
  All-map [] h a = tt
  All-map (x ∷ xs) h (a, rest) = (h x a, All-map xs h rest)

arange_from : (a n : ℕ) → All (λ x. a ≤ x) (arange a n)
arange_from a zero = tt
arange_from a (suc n) = (omega arith, All-map _ (λ t h. omega (arith, h)) (arange_from (suc a) n))

arange_below : (a n b : ℕ) → a + n ≤ b → All (λ x. x < b) (arange a n)
arange_below a zero b h = tt
arange_below a (suc n) b h = (omega (arith, h), arange_below (suc a) n b (omega (arith, h)))

min-left : (m a : ℕ) → m ≤ a → min m a ≡ m
min-left m a h = omega (arith, h)

max-suc : (a : ℕ) → max a (suc a) ≡ suc a
max-suc a = omega arith

width : (s k : ℕ) → suc (s + k) - s ≡ suc k
width s k = omega arith

minimum-arange : (m a n : ℕ) → m ≤ a → minimum m (arange a n) ≡ m
minimum-arange m a zero h = refl
minimum-arange m a (suc n) h =
    ap (λ z. minimum z (arange (suc a) n)) (min-left m a h)
    ∙ minimum-arange m (suc a) n (omega (arith, h))

maximum-arange : (a n : ℕ) → maximum a (arange (suc a) n) ≡ a + n
maximum-arange a zero = omega arith
maximum-arange a (suc n) =
    ap (λ z. maximum z (arange (suc (suc a)) n)) (max-suc a)
    ∙ maximum-arange (suc a) n
    ∙ omega arith

list_beq_self : (xs : List ℕ) → list_beq xs xs ≡ true
list_beq_self [] = refl
list_beq_self (x ∷ xs) = ground (arith, list_beq_self xs)

-- Of an anchored split, every label window ends before the test block begins.
abbrev pub NoLeak : ℕ → Split → Type 0
NoLeak e s = All (λ t. All (λ x. t + e < x) s.1) s.0

-- The purge succeeds, and every split that it returns is such.
pub data Purged (P : Split → Type 0) : Result SplitError (List Split) → Type 0 where
  purged : (ss : List Split) → All P ss → Purged P (ok ss)

anchored-purge :
    (e s k : ℕ)
    → purge_split e (arange 0 s, arange s (suc k))
      ≡ ok (purge_embargo_train (arange 0 s) s (suc (s + k)) e, arange s (suc k))
unfolding purge_split
anchored-purge e s k =
    rw (minimum-arange s (suc s) k (omega arith), maximum-arange s k, width s k)
      (simp (list_beq_self (s ∷ arange (suc s) k)) refl)

anchored-NoLeak :
    (e s k : ℕ) → NoLeak e (purge_embargo_train (arange 0 s) s (suc (s + k)) e, arange s (suc k))
unfolding purge_embargo_train
anchored-NoLeak e s k =
    All-keep_if _ (arange 0 s)
      (λ t below kept.
        All-map (arange s (suc k)) (λ x from. ends_before e s k t x below kept from)
          (arange_from s (suc k)))
      (arange_below 0 s s (omega arith))
  where
    ends_before :
        (e s k t x : ℕ) → t < s → not (is_dropped s (suc (s + k)) e t) ≡ true → s ≤ x → t + e < x
    ends_before e s k t x below kept from = ground (arith, below, kept, from)

cons-Purged :
    (P : Split → Type 0) (s : Split) (rest : Result SplitError (List Split))
    → P s
    → Purged P rest
    → Purged P (cons_ok s rest)
cons-Purged P s rest h (purged ss hs) = purged (s ∷ ss) (h, hs)

if-Purged :
    (P : Split → Type 0) (c : Bool) (x y : List Split) (e : ℕ)
    → Purged P (purge_embargo_splits x e)
    → Purged P (purge_embargo_splits y e)
    → Purged P (purge_embargo_splits (if c then x else y) e)
if-Purged P true x y e h k = h
if-Purged P false x y e h k = k

nil-Purged : (P : Split → Type 0) (e : ℕ) → Purged P (purge_embargo_splits [] e)
unfolding purge_embargo_splits
nil-Purged P e = purged [] tt

anchored-Purged :
    (e s k : ℕ) (rest : List Split)
    → Purged (NoLeak e) (purge_embargo_splits rest e)
    → Purged (NoLeak e) (purge_embargo_splits ((arange 0 s, arange s (suc k)) ∷ rest) e)
unfolding purge_embargo_splits
anchored-Purged e s k rest h =
    rw (anchored-purge e s k)
      (cons-Purged (NoLeak e) _ (purge_embargo_splits rest e) (anchored-NoLeak e s k) h)

loop-Purged :
    (fuel n_bars k : ℕ) (n_splits : Option ℕ) (made start e : ℕ)
    → Purged
        (NoLeak e)
        (purge_embargo_splits (split_loop fuel n_bars (suc k) n_splits made start) e)
unfolding split_loop
loop-Purged zero n_bars k n_splits made start e = nil-Purged (NoLeak e) e
loop-Purged (suc fuel) n_bars k n_splits made start e =
    let rest = loop-Purged fuel n_bars k n_splits (suc made) (start + suc k) e in
    if-Purged (NoLeak e) (leb (start + suc k) n_bars) (_ ∷ _) [] e
      (anchored-Purged e start k _
        (if-Purged (NoLeak e) (is_full n_splits (suc made)) [] _ e (nil-Purged (NoLeak e) e) rest))
      (nil-Purged (NoLeak e) e)

pub not_one : 1 ≤ 0 → ⊥
not_one h = omega (arith, h)

-- The purge of the anchored quarterly splits with blocks of one bar or more succeeds, and in each split
-- that it returns, the label window of every training bar ends before every bar of the test block.
pub anchored_splits-Purged :
    (n_bars test_block min_train e : ℕ) (n_splits : Option ℕ)
    → 1 ≤ test_block
    → Purged
        (NoLeak e)
        (purge_embargo_splits (quarterly_splits n_bars test_block n_splits min_train) e)
unfolding quarterly_splits
anchored_splits-Purged n_bars zero min_train e n_splits h = elim (not_one h) [ ]
anchored_splits-Purged n_bars (suc k) min_train e n_splits h =
    loop-Purged (suc n_bars) n_bars k n_splits 0 min_train e

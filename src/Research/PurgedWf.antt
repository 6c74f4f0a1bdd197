-- ===== src/Research/PurgedWf.antt =====
-- src/research/psd/purged_wf.py. Bar indices are numbers, and an array of them is a list. The
-- configuration is its numeric entries: an absent one, a `None` and, for the holding period, a 0 are
-- `none`. The loop of the splits runs on fuel.
pub mod Leakage
pub mod Loop
mod Examples
use systematic_trading_valid.Common.{
  Bool, List, Option, Result, [], err, false, if◌then◌else◌, keep_if, leb, ltb, max, min, nat_eq,
  none, not, ok, pair_eq, some, suc, true, zero, ℕ, ◌&&◌, ◌+◌, ◌-◌, ◌==◌, ◌||◌, ◌∷◌,
}
use systematic_trading_valid.Common.Text.{text_eq}

-- `max_bars_in_trade` and the values of `_LOOKBACK_KEYS`
pub record LegConfig : Type 0 where
  pub max_bars_in_trade : Option ℕ
  pub lookbacks : List (Option ℕ)

pub data SplitError : Type 0 where
  no_horizon not_contiguous : SplitError

abbrev pub or_zero : Option ℕ → ℕ
or_zero none = 0
or_zero (some n) = n

abbrev pub largest : List (Option ℕ) → ℕ
largest [] = 0
largest (l ∷ ls) = max (or_zero l) (largest ls)

unfoldable pub derive_embargo : LegConfig → Result SplitError ℕ
derive_embargo c =
    let e = max (or_zero c.max_bars_in_trade) (largest c.lookbacks) in
    if leb e 0 then err no_horizon else ok e

-- `purged | embargoed`
abbrev pub is_dropped : (test_start test_end e t : ℕ) → Bool
is_dropped test_start test_end e t =
    (leb test_start (t + e) && ltb t test_end) || (leb test_end t && ltb t (test_end + e))

unfoldable pub purge_embargo_train : List ℕ → (test_start test_end e : ℕ) → List ℕ
purge_embargo_train train test_start test_end e =
    keep_if (λ t. not (is_dropped test_start test_end e t)) train

-- `np.arange(start, start + n)`
abbrev pub arange : ℕ → ℕ → List ℕ
arange start zero = []
arange start (suc n) = start ∷ arange (suc start) n

abbrev pub minimum : ℕ → List ℕ → ℕ
minimum m [] = m
minimum m (x ∷ xs) = minimum (min m x) xs

abbrev pub maximum : ℕ → List ℕ → ℕ
maximum m [] = m
maximum m (x ∷ xs) = maximum (max m x) xs

abbrev pub list_beq : List ℕ → List ℕ → Bool
list_beq [] [] = true
list_beq (x ∷ xs) (y ∷ ys) = (x == y) && list_beq xs ys
list_beq _ _ = false

abbrev pub Split : Type 0
Split = List ℕ × List ℕ

-- The body of the loop of `purge_embargo_splits`
unfoldable pub purge_split : ℕ → Split → Result SplitError Split
purge_split e (train, []) = ok (train, [])
purge_split e (train, x ∷ xs) =
    let ts = minimum x xs in
    let te = suc (maximum x xs) in
    if list_beq (x ∷ xs) (arange ts (te - ts))
    then ok (purge_embargo_train train ts te e, x ∷ xs)
    else err not_contiguous

abbrev pub cons_ok : Split → Result SplitError (List Split) → Result SplitError (List Split)
cons_ok s (ok ss) = ok (s ∷ ss)
cons_ok s (err e) = err e

abbrev pub and_then :
    Result SplitError Split → Result SplitError (List Split) → Result SplitError (List Split)
and_then (ok s) rest = cons_ok s rest
and_then (err e) rest = err e

unfoldable pub purge_embargo_splits : List Split → ℕ → Result SplitError (List Split)
purge_embargo_splits [] e = ok []
purge_embargo_splits (s ∷ ss) e = and_then (purge_split e s) (purge_embargo_splits ss e)

-- `n_splits is not None and len(splits) >= n_splits`
abbrev pub is_full : Option ℕ → ℕ → Bool
is_full none made = false
is_full (some n) made = leb n made

-- The loop from `start` on, with `made` splits before it
unfoldable pub split_loop : ℕ → (n_bars test_block : ℕ) → Option ℕ → (made start : ℕ) → List Split
split_loop zero n_bars test_block n_splits made start = []
split_loop (suc fuel) n_bars test_block n_splits made start =
    let rest = split_loop fuel n_bars test_block n_splits (suc made) (start + test_block) in
    if leb (start + test_block) n_bars
    then (arange 0 start, arange start test_block)
      ∷ (if is_full n_splits (suc made) then [] else rest)
    else []

unfoldable pub quarterly_splits : (n_bars test_block : ℕ) → Option ℕ → (min_train : ℕ) → List Split
quarterly_splits n_bars test_block n_splits min_train =
    split_loop (suc n_bars) n_bars test_block n_splits 0 min_train

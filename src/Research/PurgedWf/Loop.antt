-- ===== src/Research/PurgedWf/Loop.antt =====
-- The fuel of the split loop.
use systematic_trading_valid.Common.{
  Option, [], ap, arith, if◌then◌else◌, leb, length, nat_eq, none, pair_eq, refl, suc, sym, true,
  zero, ℕ, ◌+◌, ◌<◌, ◌∷◌, ◌≡◌, ◌≤◌,
}
use systematic_trading_valid.Common.Text.{text_eq}
use systematic_trading_valid.Research.PurgedWf.{arange, is_full, quarterly_splits, split_loop}
use systematic_trading_valid.Research.PurgedWf.Leakage.{not_one}

loop_ends :
    (fuel n_bars test_block : ℕ) (n_splits : Option ℕ) (made start : ℕ)
    → n_bars < start
    → split_loop fuel n_bars test_block n_splits made start ≡ []
unfolding split_loop
loop_ends zero n_bars test_block n_splits made start h = refl
loop_ends (suc fuel) n_bars test_block n_splits made start h = ground (arith, h)

same_splits :
    (f g n_bars k : ℕ) (n_splits : Option ℕ) (made start : ℕ)
    → n_bars < start + f
    → n_bars < start + g
    → split_loop f n_bars (suc k) n_splits made start
      ≡ split_loop g n_bars (suc k) n_splits made start
unfolding split_loop
same_splits zero g n_bars k n_splits made start h j =
    sym (loop_ends g n_bars (suc k) n_splits made start (omega (arith, h)))
same_splits (suc f) zero n_bars k n_splits made start h j =
    loop_ends (suc f) n_bars (suc k) n_splits made start (omega (arith, j))
same_splits (suc f) (suc g) n_bars k n_splits made start h j =
    ap
      (λ rest.
        if leb (start + suc k) n_bars
        then (arange 0 start, arange start (suc k))
          ∷ (if is_full n_splits (suc made) then [] else rest)
        else [])
      (same_splits f g n_bars k n_splits (suc made) (start + suc k) (omega (arith, h))
        (omega (arith, j)))

-- With blocks of one bar or more the loop of the splits ends by itself: with any fuel above the number of
-- bars it gives the same splits.
pub fuel_enough :
    (fuel n_bars test_block : ℕ) (n_splits : Option ℕ) (min_train : ℕ)
    → 1 ≤ test_block
    → n_bars < fuel
    → split_loop fuel n_bars test_block n_splits 0 min_train
      ≡ quarterly_splits n_bars test_block n_splits min_train
unfolding quarterly_splits
fuel_enough fuel n_bars zero n_splits min_train h k = elim (not_one h) [ ]
fuel_enough fuel n_bars (suc b) n_splits min_train h k =
    same_splits fuel (suc n_bars) n_bars b n_splits 0 min_train (omega (arith, k)) (omega arith)

-- With blocks of no bars and no limit on the splits, no fuel is enough: the loop goes on while there is any.
pub empty_blocks_go_on :
    (fuel n_bars made start : ℕ)
    → start ≤ n_bars
    → length (split_loop fuel n_bars 0 none made start) ≡ fuel
unfolding split_loop
empty_blocks_go_on zero n_bars made start h = refl
empty_blocks_go_on (suc fuel) n_bars made start h =
    simp (le_test start n_bars h)
      (ap suc (empty_blocks_go_on fuel n_bars (suc made) (start + 0) (omega (arith, h))))
  where
    le_test : (start n_bars : ℕ) → start ≤ n_bars → leb (start + 0) n_bars ≡ true
    le_test start n_bars h = ground (arith, h)

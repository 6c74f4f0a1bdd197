-- ===== src/Research/PurgedWf/Examples.antt =====
-- Ten bars in blocks of three.
use systematic_trading_valid.Common.{
  List, [], arith, err, nat_eq, none, ok, pair_eq, refl, some, ◌∷◌, ◌≡◌,
}
use systematic_trading_valid.Common.Text.{text_eq}
use systematic_trading_valid.Research.PurgedWf.{
  LegConfig, Split, derive_embargo, not_contiguous, purge_embargo_splits, purge_embargo_train,
  purge_split, quarterly_splits, split_loop,
}
use systematic_trading_valid.Research.PurgedWf.Leakage.{NoLeak, Purged, anchored_splits-Purged}
use systematic_trading_valid.Research.PurgedWf.Loop.{fuel_enough}

abbrev leg : LegConfig
leg = record { max_bars_in_trade = some 2; lookbacks = some 1 ∷ none ∷ [] }

embargo_of_leg : derive_embargo leg ≡ ok 2
unfolding derive_embargo
embargo_of_leg = refl

abbrev splits : List Split
splits = quarterly_splits 10 3 none 4

purged_splits :
    purge_embargo_splits splits 2
    ≡ ok ((0 ∷ 1 ∷ [], 4 ∷ 5 ∷ 6 ∷ []) ∷ (0 ∷ 1 ∷ 2 ∷ 3 ∷ 4 ∷ [], 7 ∷ 8 ∷ 9 ∷ []) ∷ [])
unfolding purge_embargo_splits purge_split purge_embargo_train quarterly_splits split_loop
purged_splits = refl

gap_refused : purge_embargo_splits ((0 ∷ [], 4 ∷ 6 ∷ []) ∷ []) 2 ≡ err not_contiguous
unfolding purge_embargo_splits purge_split
gap_refused = refl

anchored_splits-Purged_example :
    Purged (NoLeak 2) (purge_embargo_splits (quarterly_splits 10 3 none 4) 2)
anchored_splits-Purged_example = anchored_splits-Purged 10 3 4 2 none (omega arith)

fuel_enough_example : split_loop 40 10 3 none 0 4 ≡ quarterly_splits 10 3 none 4
fuel_enough_example = fuel_enough 40 10 3 none 4 (omega arith) (omega arith)

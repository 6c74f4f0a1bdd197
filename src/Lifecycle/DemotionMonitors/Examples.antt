-- ===== src/Lifecycle/DemotionMonitors/Examples.antt =====
-- A slow decay, and costs that diverge on three days of four.
use systematic_trading_valid.Common.{
  List, [], arith, is_some, leb, length, map, max, nat_eq, pair_eq, refl, some, ◌&&◌, ◌∷◌, ◌≡◌,
}
use systematic_trading_valid.Common.Int.{ltb_ℤ, negsuc, pos, ℤ, ◌*ℤ◌, ◌+ℤ◌, ◌-ℤ◌}
use systematic_trading_valid.Common.Text.{text_eq}
use systematic_trading_valid.Lifecycle.DemotionMonitors.{
  cost_divergence_monitor, cusum_drift, cusum_loop, divergence_loop, diverges,
  rolling_sharpe_monitor, safe_mode, tier_if, tier_none, watch, windows_of, zip,
}
use systematic_trading_valid.Lifecycle.DemotionMonitors.Drift.{cusum_exact, first_behind}
use systematic_trading_valid.Lifecycle.DemotionMonitors.Streaks.{some_run, watch_exact}

abbrev weeks : List ℤ
weeks = pos 10 ∷ negsuc 19 ∷ negsuc 19 ∷ pos 5 ∷ negsuc 29 ∷ []

-- The mean is 5, the deviation 10, the slack 0.5 and the bound 3.
trips_at_two : (cusum_drift weeks (pos 5) (pos 10) 50 300).trip_index ≡ some 2
unfolding cusum_drift cusum_loop ◌+ℤ◌ ◌-ℤ◌ ◌*ℤ◌
trips_at_two = refl

cusum_exact_example :
    ((cusum_drift weeks (pos 5) (pos 10) 50 300).trip_index
      ≡ first_behind (pos 5) 500 3000 0 [] weeks)
    × ((cusum_drift weeks (pos 5) (pos 10) 50 300).tier
        ≡ tier_if (is_some (first_behind (pos 5) 500 3000 0 [] weeks)) safe_mode)
cusum_exact_example = cusum_exact weeks (pos 5) 10 50 300 (omega arith)

abbrev modeled : List ℤ
modeled = pos 10 ∷ pos 10 ∷ pos 10 ∷ pos 10 ∷ []

abbrev realized : List ℤ
realized = pos 20 ∷ pos 15 ∷ pos 16 ∷ pos 17 ∷ []

abbrev first_return : List ℤ → ℤ
first_return [] = pos 0
first_return (r ∷ rs) = r

is_watched : (cost_divergence_monitor realized modeled 150 2).tier ≡ watch
unfolding cost_divergence_monitor divergence_loop ◌*ℤ◌
is_watched = refl

is_not_watched : (cost_divergence_monitor realized modeled 150 3).tier ≡ tier_none
unfolding cost_divergence_monitor divergence_loop ◌*ℤ◌
is_not_watched = refl

watch_exact_example :
    ((rolling_sharpe_monitor first_return weeks (pos 0) 2 2 3).tier
      ≡ tier_if
          (leb (max 3 2) (length weeks)
            && some_run 2 (map (λ w. ltb_ℤ (first_return w) (pos 0)) (windows_of 2 weeks)))
          watch)
    × ((cost_divergence_monitor realized modeled 150 2).tier
        ≡ tier_if (some_run 2 (map (diverges 150) (zip realized modeled))) watch)
watch_exact_example = watch_exact first_return weeks realized modeled (pos 0) 2 3 150 1

-- ===== src/Lifecycle/DemotionMonitors/Streaks.antt =====
-- The monitors of the first tier watch a leg after a condition held for some number of consecutive periods.
use systematic_trading_valid.Common.{
  Bool, Bool-cases, List, [], ap, arith, false, if◌then◌else◌, inl, inr, leb, length, ltb, map, max,
  nat_eq, pair_eq, refl, suc, true, zero, ℕ, ◌&&◌, ◌+◌, ◌||◌, ◌∙◌, ◌∷◌, ◌≡◌, ◌≤◌,
}
use systematic_trading_valid.Common.Int.{ltb_ℤ, ℤ}
use systematic_trading_valid.Common.Text.{text_eq}
use systematic_trading_valid.Lifecycle.DemotionMonitors.{
  breach_loop, cost_divergence_monitor, divergence_loop, diverges, next_run, rolling_sharpe_monitor,
  tier_if, watch, windows_of, zip,
}

-- The first n periods met the condition.
abbrev starts : ℕ → List Bool → Bool
starts zero bs = true
starts (suc n) [] = false
starts (suc n) (b ∷ bs) = b && starts n bs

-- Some n consecutive periods met the condition.
abbrev pub some_run : ℕ → List Bool → Bool
some_run n [] = starts n []
some_run n (b ∷ bs) = starts n (b ∷ bs) || some_run n bs

-- The count of a run reaches n.
abbrev streak : ℕ → List Bool → ℕ → Bool
streak n [] run = false
streak n (b ∷ bs) run =
    let rest = streak n bs (next_run b run) in if leb n (next_run b run) then true else rest

starts_shorter : (n m : ℕ) (bs : List Bool) → m ≤ n → starts n bs ≡ true → starts m bs ≡ true
starts_shorter n zero bs le h = refl
starts_shorter zero (suc m) bs le h = absurd (omega (arith, le))
starts_shorter (suc n) (suc m) [] le h = h
starts_shorter (suc n) (suc m) (b ∷ bs) le h =
    ground (arith, starts_shorter n m bs (omega (arith, le)))

run_from_start : (n : ℕ) (bs : List Bool) → starts n bs ≡ true → some_run n bs ≡ true
run_from_start n [] h = h
run_from_start n (b ∷ bs) h = rw h refl

absorb_longer :
    (n m : ℕ) (bs : List Bool) (r : Bool)
    → m ≤ n
    → (starts m bs || r) ≡ (starts m bs || (starts n bs || r))
absorb_longer n m bs r le = elim (Bool-cases (starts n bs)) [
  | inl e ↦ simp (e, starts_shorter n m bs le e)
  | inr e ↦ simp e
]

absorb_run : (n : ℕ) (bs : List Bool) → (starts n bs || some_run n bs) ≡ some_run n bs
absorb_run n bs = elim (Bool-cases (starts n bs)) [
  | inl e ↦ simp (e, run_from_start n bs e)
  | inr e ↦ simp e
]

-- A run of r periods so far is completed by m + 1 more, or all of another run is still to come.
streak-some_run :
    (r m p : ℕ) (bs : List Bool)
    → r + m ≡ p
    → streak (suc p) bs r ≡ (starts (suc m) bs || some_run (suc p) bs)
streak-some_run r m p [] e = refl
streak-some_run r zero p (true ∷ bs) e = ground arith
streak-some_run r (suc m) p (true ∷ bs) e =
    let below : leb (suc p) (r + 1) ≡ false = ground arith in
    rw below (
      streak-some_run (r + 1) m p bs (omega (arith, e))
      ∙ absorb_longer p (suc m) bs (some_run (suc p) bs) (omega (arith, e)))
streak-some_run r m p (false ∷ bs) e =
    let below : leb (suc p) 0 ≡ false = ground arith in
    rw below (streak-some_run 0 p p bs (omega arith) ∙ absorb_run (suc p) bs)

whole_streak : (p : ℕ) (bs : List Bool) → streak (suc p) bs 0 ≡ some_run (suc p) bs
whole_streak p bs = streak-some_run 0 p p bs (omega arith) ∙ absorb_run (suc p) bs

breach_loop-streak :
    (n : ℕ) (bs : List Bool) (run : ℕ)
    → (breach_loop n bs run).tier ≡ tier_if (streak n bs run) watch
unfolding breach_loop
breach_loop-streak n [] run = refl
breach_loop-streak n (b ∷ bs) run = elim (Bool-cases (leb n (next_run b run))) [
  | inl e ↦ rw e refl
  | inr e ↦ rw e (breach_loop-streak n bs (next_run b run))
]

divergence_loop-streak :
    (multiplier p : ℕ) (ds : List (ℤ × ℤ)) (run : ℕ)
    → (divergence_loop multiplier (suc p) ds run).tier
      ≡ tier_if (streak (suc p) (map (diverges multiplier) ds) run) watch
unfolding divergence_loop
divergence_loop-streak multiplier p [] run = refl
divergence_loop-streak multiplier p (d ∷ ds) run =
    let on = divergence_loop-streak multiplier p ds (run + 1) in
    let off = divergence_loop-streak multiplier p ds 0 in
    let below : leb (suc p) 0 ≡ false = ground arith in
    elim (Bool-cases (diverges multiplier d)) [
      | inl e ↦ elim (Bool-cases (leb (suc p) (run + 1))) [
        | inl f ↦ rw (e, f) refl
        | inr f ↦ rw (e, f) on
      ]
      | inr e ↦ rw (e, below) off
    ]

-- For one period or more in a row, the rolling Sharpe monitor watches a leg exactly if it has the history that
-- arms it, and the ratios of some that many consecutive windows are below the bound; and the cost
-- monitor exactly if the costs of some that many consecutive days diverge. Neither trips on a
-- shorter run, and neither misses a run because of periods before or after it. Every week counts for the
-- history and the windows, one without exposure as well.
pub watch_exact :
    (sharpe : List ℤ → ℤ) (weekly_returns realized modeled : List ℤ) (ci_lower : ℤ)
    (window min_armed multiplier p : ℕ)
    → ((rolling_sharpe_monitor sharpe weekly_returns ci_lower window (suc p) min_armed).tier
        ≡ tier_if
            (leb (max min_armed window) (length weekly_returns)
              && some_run
                  (suc p)
                  (map (λ w. ltb_ℤ (sharpe w) ci_lower) (windows_of window weekly_returns)))
            watch)
      × ((cost_divergence_monitor realized modeled multiplier (suc p)).tier
          ≡ tier_if (some_run (suc p) (map (diverges multiplier) (zip realized modeled))) watch)
unfolding rolling_sharpe_monitor cost_divergence_monitor
watch_exact sharpe weekly_returns realized modeled ci_lower window min_armed multiplier p =
    let below = map (λ w. ltb_ℤ (sharpe w) ci_lower) (windows_of window weekly_returns) in
    (
      elim (Bool-cases (ltb (length weekly_returns) (max min_armed window))) [
        | inl e ↦
            let unarmed : leb (max min_armed window) (length weekly_returns) ≡ false =
              ground (arith, e) in
            rw (e, unarmed) refl
        | inr e ↦
            let armed : leb (max min_armed window) (length weekly_returns) ≡ true =
              ground (arith, e) in
            rw (e, armed)
              (breach_loop-streak (suc p) below 0
                ∙ ap (λ b. tier_if b watch) (whole_streak p below))
      ],
      divergence_loop-streak multiplier p (zip realized modeled) 0
          ∙ ap (λ b. tier_if b watch)
              (whole_streak p (map (diverges multiplier) (zip realized modeled))),
    )

-- ===== src/Engine/RiskGovernor/Examples.antt =====
-- A leg that gives back its profit, over a restart, beside one that is not due.
use systematic_trading_valid.Common.{
  Bool, List, [], contains, false, length, nat_eq, none, pair_eq, refl, some, true, ◌∷◌, ◌≡◌,
}
use systematic_trading_valid.Common.Int.{abs_ℤ, negsuc, pos, ℤ, ◌+ℤ◌, ◌-ℤ◌}
use systematic_trading_valid.Common.Text.{Text, text, text_eq}
use systematic_trading_valid.Common.Dict.{insert, lookup}
use systematic_trading_valid.Engine.RiskGovernor.{Governor, new_governor, peak_of}
use systematic_trading_valid.Engine.RiskGovernor.Evaluate.{
  Leg, carry_leg, compute_drawdown_from_peak, evaluate, measure_leg, resolve_peak, score_legs,
  sizes_of,
}
use systematic_trading_valid.Engine.RiskGovernor.Rehydrate.{
  RiskPayload, rehydrate_risk_state, serialize_risk_state,
}
use systematic_trading_valid.Engine.RiskGovernor.Store.{
  load_portfolio_risk_state, persist_portfolio_risk_state,
}
use systematic_trading_valid.Engine.RiskGovernor.HighWater.{
  Cycle, all_readings, high_water, peak_is_high_water, run_cycles,
}
use systematic_trading_valid.Engine.RiskGovernor.Pairs.{is_correlated}
use systematic_trading_valid.Engine.RiskGovernor.Sizing.{size_of, sizing_exact}
use systematic_trading_valid.Engine.RiskGovernor.Reread.{without_high_water}
use systematic_trading_valid.Engine.RiskGovernor.Restart.{after_store, restart_transparent}

abbrev leg : Text → Bool → ℤ → Leg
leg s due open_profit = record {
  strategy_id = s;
  enabled = true;
  due = due;
  realized = pos 100;
  unrealized = open_profit;
  closes = none;
}

abbrev twenty : List ℤ
twenty =
    let five = λ (l : List ℤ). pos 1 ∷ pos 2 ∷ pos 3 ∷ pos 4 ∷ pos 5 ∷ l in
    five (five (five (five [])))

abbrev alike : List ℤ → List ℤ → ℤ
alike a b = negsuc 8999

abbrev fingerprint : RiskPayload → Text
fingerprint p = length p.strategies ∷ abs_ℤ p.broker_peak ∷ []

abbrev before : List Cycle
before =
    record {
      legs = leg (text "qqq") true (pos 0) ∷ leg (text "btc") true (pos 0) ∷ [];
      broker_equity = pos 1000;
    }
    ∷ record {
      legs = leg (text "qqq") true (negsuc 99) ∷ leg (text "btc") false (pos 0) ∷ [];
      broker_equity = pos 900;
    }
    ∷ []

abbrev governed : Governor
governed = run_cycles alike new_governor before

abbrev next_legs : List Leg
next_legs = leg (text "qqq") false (pos 0) ∷ leg (text "btc") true (pos 0) ∷ []

-- The loss of 100 is a tenth of the high water of 1000.
gives_back :
    (evaluate alike governed next_legs (pos 900)).1.exit_only_strategy_ids ≡ text "qqq" ∷ []
unfolding evaluate run_cycles score_legs measure_leg carry_leg resolve_peak
    compute_drawdown_from_peak sizes_of lookup insert ◌+ℤ◌ ◌-ℤ◌
gives_back = refl

accepted : (rehydrate_risk_state fingerprint new_governor (after_store governed) []).1 ≡ true
unfolding rehydrate_risk_state serialize_risk_state evaluate run_cycles score_legs measure_leg
    carry_leg resolve_peak compute_drawdown_from_peak lookup insert ◌+ℤ◌ ◌-ℤ◌
    persist_portfolio_risk_state load_portfolio_risk_state
accepted = refl

restart_transparent_example :
    (evaluate alike
      (run_cycles alike
        (rehydrate_risk_state fingerprint new_governor (after_store governed) []).0
        before)
      next_legs
      (pos 900)).1
    ≡ (evaluate alike (run_cycles alike (without_high_water governed) before) next_legs (pos 900)).1
restart_transparent_example =
    restart_transparent alike fingerprint before before next_legs (pos 900) accepted

-- A loss of 57 is within six percent of the high water of 1000, and not of the 900 that a restart sees.
abbrev small_loss : List Leg
small_loss = leg (text "btc") true (negsuc 56) ∷ []

kept_on : (evaluate alike governed small_loss (pos 900)).1.exit_only_strategy_ids ≡ []
unfolding evaluate run_cycles score_legs measure_leg carry_leg resolve_peak
    compute_drawdown_from_peak sizes_of lookup insert ◌+ℤ◌ ◌-ℤ◌
kept_on = refl

shut_out_by_restart :
    (evaluate alike (without_high_water governed) small_loss (pos 900)).1.exit_only_strategy_ids
    ≡ text "btc" ∷ []
unfolding evaluate run_cycles score_legs measure_leg carry_leg resolve_peak
    compute_drawdown_from_peak sizes_of lookup insert ◌+ℤ◌ ◌-ℤ◌
shut_out_by_restart = refl

peak_is_high_water_example :
    peak_of governed (text "qqq") ≡ high_water (pos 0) (all_readings alike (text "qqq") before)
peak_is_high_water_example = peak_is_high_water alike (text "qqq") before

-- Two legs that move against each other, and one with too few bars
abbrev with_bars : Text → Leg
with_bars s = record (leg s true (pos 0)) { closes = some twenty }

abbrev three_legs : List Leg
three_legs = with_bars (text "qqq") ∷ leg (text "btc") true (pos 0) ∷ with_bars (text "spy") ∷ []

spy_correlated : is_correlated alike three_legs (text "spy") ≡ true
spy_correlated = refl

sizing_exact_example :
    (size_of (evaluate alike governed three_legs (pos 900)).1.sizing_multipliers (text "spy") ≡ 60)
    × (contains (text "spy") (evaluate alike governed three_legs (pos 900)).1.cold_start_clamped
        ≡ false)
sizing_exact_example =
    sizing_exact alike governed three_legs (pos 900) (text "spy") (refl, (refl, (refl, tt)))

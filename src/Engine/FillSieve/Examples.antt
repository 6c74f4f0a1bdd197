-- ===== src/Engine/FillSieve/Examples.antt =====
-- A broker that holds a half filled position, and never fills the rest.
use systematic_trading_valid.Common.{
  List, Result, [], arith, false, is_some, nat_eq, ok, pair_eq, refl, some, true, ℕ, ◌+◌, ◌∷◌, ◌≡◌,
}
use systematic_trading_valid.Common.Int.{pos}
use systematic_trading_valid.Common.Text.{Text, lower, text, text_eq, upper}
use systematic_trading_valid.Common.Dict.{Dict, erase, insert, lookup}
use systematic_trading_valid.Engine.FillSieve.{
  BookOrder, Broker, Held, LegConfig, OrderResult, Sieve, build_slices, bundle_from_submission,
  bundle_key, buy, needs_tracking, new_sieve,
}
use systematic_trading_valid.Engine.FillSieve.Authority.{
  apply_broker_authority, apply_broker_authority_to_leg_memory, detect_leg_broker_memory_drift,
  match_position, reconcile_broker_primary_fill, settle_results,
}
use systematic_trading_valid.Engine.FillSieve.Cycles.{
  advance_bundle, advance_bundles, advance_pending_cycles, has_pending_bundle_for_leg,
  pending_bundle_count, reconcile_post_submit, refresh_slices,
}
use systematic_trading_valid.Engine.FillSieve.Ending.{
  Op, pending_drains, run_ops, submits, three_cycles,
}
use systematic_trading_valid.Engine.FillSieve.Memory.{in_trade, memory_agrees}

abbrev half : Held
half = record { symbol = text "btcusd"; qty = pos 5; side = text "long" }

abbrev steady : Broker ℕ
steady = record {
  get_positions = λ n. (n + 1, ok (half ∷ []));
  short_burst_refresh = λ orders results n. (n, ok results);
  refresh_order_result = λ order result n. (n, ok result);
  cancel_open_orders = λ symbol n. (n, ok 1);
  risk_manager_note = λ n. (n, ok tt);
}

abbrev leg : LegConfig
leg = record { strategy_id = text "mr"; symbol = text "BTC/USD" }

abbrev legs : Dict Text LegConfig
legs = (text "mr", leg) ∷ []

abbrev order : ℕ → BookOrder
order qty = record { symbol = text "BTC/USD"; side = buy; qty = pos qty }

abbrev fill : ℕ → Text → OrderResult
fill qty status = record {
  symbol = text "BTC/USD";
  side = buy;
  qty = pos qty;
  filled_price = pos 100;
  order_id = some (text "o1");
  status = status;
}

abbrev submission : Op
submission = submits leg (order 10 ∷ []) (fill 5 (text "partially_filled") ∷ []) []

abbrev submitted : Sieve ℕ
submitted = run_ops steady (submission ∷ []) (new_sieve 0)

abbrev drained : Sieve ℕ
drained = (three_cycles steady legs legs legs submitted).0

is_tracked : has_pending_bundle_for_leg submitted (text "mr") (text "btc/usd") ≡ true
unfolding has_pending_bundle_for_leg run_ops reconcile_post_submit apply_broker_authority
    settle_results reconcile_broker_primary_fill bundle_from_submission build_slices needs_tracking
    bundle_key match_position detect_leg_broker_memory_drift apply_broker_authority_to_leg_memory
    lookup insert erase upper lower
is_tracked = refl

returns : three_cycles steady legs legs legs submitted ≡ (drained, ok tt)
unfolding advance_pending_cycles advance_bundles advance_bundle refresh_slices run_ops
    reconcile_post_submit apply_broker_authority settle_results reconcile_broker_primary_fill
    bundle_from_submission build_slices needs_tracking bundle_key match_position
    detect_leg_broker_memory_drift apply_broker_authority_to_leg_memory lookup insert erase upper
    lower
returns = refl

pending_drains_example : pending_bundle_count drained ≡ 0
pending_drains_example = pending_drains steady (submission ∷ []) 0 legs legs legs drained returns

abbrev reconciled_once : Sieve ℕ × Result Text (List Held)
reconciled_once =
    reconcile_post_submit steady leg (order 10 ∷ []) (fill 5 (text "partially_filled") ∷ []) []
      (new_sieve 0)

reconciles : reconciled_once ≡ (reconciled_once.0, ok (half ∷ []))
unfolding reconcile_post_submit apply_broker_authority settle_results reconcile_broker_primary_fill
    bundle_from_submission build_slices needs_tracking bundle_key match_position
    detect_leg_broker_memory_drift apply_broker_authority_to_leg_memory lookup insert erase upper
    lower
reconciles = refl

memory_agrees_example :
    in_trade steady leg reconciled_once.0 ≡ is_some (match_position leg.symbol (half ∷ []))
memory_agrees_example =
    memory_agrees steady leg (order 10 ∷ []) (fill 5 (text "partially_filled")) [] [] (half ∷ [])
      (new_sieve 0) reconciled_once.0 reconciles (omega arith, tt)

-- Of two orders with one symbol and side, the quantity of the later stands for both: a buy of 10 that is filled
-- by 2 counts as complete beside a buy of 2.
hidden_shortfall :
    needs_tracking (
      bundle_from_submission leg
        (order 10 ∷ order 2 ∷ [])
        (fill 2 (text "filled") ∷ fill 2 (text "filled") ∷ [])
        [])
    ≡ false
unfolding bundle_from_submission build_slices needs_tracking lookup insert upper lower
hidden_shortfall = refl

-- ===== src/Engine/FillSieve/Cycles.antt =====
-- `reconcile_post_submit`, `register_ioc_residual` and `advance_pending_cycles`: the bundles that are tracked over
-- the cycles of the engine, and their end.
use systematic_trading_valid.Common.{
  Bool, List, Option, [], false, if◌then◌else◌, leb, length, map, nat_eq, none, not, ok, pair_eq,
  pure, some, ℕ, ◌+◌, ◌==◌, ◌>>=◌, ◌∷◌,
}
use systematic_trading_valid.Common.Int.{leb_ℤ, pos, ℤ}
use systematic_trading_valid.Common.Text.{Text, text_eq}
use systematic_trading_valid.Common.Dict.{Dict, erase, has_key, insert, lookup}
use systematic_trading_valid.Engine.FillSieve.{
  BookOrder, Broker, Bundle, ChildFillSlice, Held, LegConfig, M, OrderResult, Sieve, ask,
  build_slices, bundle_from_submission, bundle_key, cancel_threshold, key_of, needs_tracking,
}
use systematic_trading_valid.Engine.FillSieve.Authority.{apply_broker_authority}

module _ {S : Type 0} where
  abbrev track : Text → Bundle → M S (Unit {0})
  track k b w = (record w { pending = insert k b w.pending }, ok tt)

  abbrev pub drop : Text → M S (Unit {0})
  drop k w = (record w { pending = erase k w.pending }, ok tt)

  abbrev pub settle_bundle : Text → Bundle → M S (Unit {0})
  settle_bundle k b = if needs_tracking b then track k b else drop k

-- `pending_bundle_count`
abbrev pub pending_bundle_count : {S : Type 0} → Sieve S → ℕ
pending_bundle_count w = length w.pending

unfoldable pub has_pending_bundle_for_leg : {S : Type 0} → Sieve S → Text → Text → Bool
has_pending_bundle_for_leg w strategy symbol = has_key (bundle_key strategy symbol) w.pending

-- The order and the result that a cycle makes anew of a slice
abbrev pub order_of : Bundle → ChildFillSlice → BookOrder
order_of b s = record { symbol = b.symbol; side = s.side; qty = s.requested }

abbrev pub result_of : Bundle → ChildFillSlice → OrderResult
result_of b s = record {
  symbol = b.symbol;
  side = s.side;
  qty = s.filled;
  filled_price = pos 0;
  order_id = s.order_id;
  status = s.status;
}

abbrev pub has_id : Option Text → Bool
has_id none = false
has_id (some i) = not (i == [])

abbrev pub refreshed_bundle : Bundle → List OrderResult → Bundle
refreshed_bundle b refreshed = record b {
  slices = build_slices (map (order_of b) b.slices) refreshed;
}

module _ {S : Type 0} (o : Broker S) where
  unfoldable pub reconcile_post_submit :
      LegConfig → List BookOrder → List OrderResult → List Held → M S (List Held)
  reconcile_post_submit leg orders [] positions_before = pure positions_before
  reconcile_post_submit leg orders (r ∷ rs) positions_before = do
    refreshed ← ask (o.short_burst_refresh orders (r ∷ rs))
    positions ← apply_broker_authority o leg orders refreshed positions_before
    tracked ←
        settle_bundle (bundle_key leg.strategy_id leg.symbol)
          (bundle_from_submission leg orders refreshed positions_before)
    pure positions

  unfoldable pub register_ioc_residual :
      LegConfig → List BookOrder → List OrderResult → List Held → ℤ → M S (List Held)
  register_ioc_residual leg orders [] positions_before residual = pure positions_before
  register_ioc_residual leg orders (r ∷ rs) positions_before residual =
      let register = (do
        refreshed ← ask (o.short_burst_refresh orders (r ∷ rs))
        positions ← apply_broker_authority o leg orders refreshed positions_before
        tracked ←
            track (bundle_key leg.strategy_id leg.symbol)
              (bundle_from_submission leg orders refreshed positions_before)
        pure positions) in
      if leb_ℤ residual (pos 0) then pure positions_before else register

  abbrev pub refresh_slice : Bundle → ChildFillSlice → M S OrderResult
  refresh_slice b s =
      if has_id s.order_id
      then ask (o.refresh_order_result (order_of b s) (result_of b s))
      else pure (result_of b s)

  unfoldable pub refresh_slices : Bundle → List ChildFillSlice → M S (List OrderResult)
  refresh_slices b [] = pure []
  refresh_slices b (s ∷ ss) = do r ← refresh_slice b s; rs ← refresh_slices b ss; pure (r ∷ rs)

  -- A bundle that stays incomplete is tracked for one more cycle, or given up at the threshold.
  abbrev pub end_cycle : Text → Bundle → M S (Unit {0})
  end_cycle k b =
      let older = record b { unresolved_cycles = b.unresolved_cycles + 1 } in
      let give_up = (do
        counted ← track k older
        cancelled ← ask (o.cancel_open_orders b.symbol)
        drop (key_of b)) in
      let go_on = (do counted ← track k older; track (key_of b) older) in
      if needs_tracking b
      then (if leb cancel_threshold older.unresolved_cycles then give_up else go_on)
      else drop (key_of b)

  -- The bundle is changed in place, under the key that it was found at.
  unfoldable pub advance_bundle : LegConfig → Text → Bundle → M S (Unit {0})
  advance_bundle leg k b = do
    refreshed ← refresh_slices b b.slices
    sliced ← track k (refreshed_bundle b refreshed)
    positions ←
        apply_broker_authority o leg (map (order_of b) b.slices) refreshed b.positions_before
    end_cycle k (refreshed_bundle b refreshed)

  -- The bundle of a leg that is no longer there is dropped.
  abbrev pub advance_of : Option LegConfig → Text → Bundle → M S (Unit {0})
  advance_of none k b = drop k
  advance_of (some leg) k b = advance_bundle leg k b

  unfoldable pub advance_bundles : Dict Text LegConfig → Dict Text Bundle → M S (Unit {0})
  advance_bundles legs [] = pure tt
  advance_bundles legs ((k, b) ∷ bs) = do
    advanced ← advance_of (lookup b.strategy_id legs) k b
    advance_bundles legs bs

  unfoldable pub advance_pending_cycles : Dict Text LegConfig → M S (Unit {0})
  advance_pending_cycles legs w = advance_bundles legs w.pending w

-- ===== src/Engine/FillSieve/Authority.antt =====
-- `_apply_broker_authority`, with the reconciliation of src/engine/execution_adaptor.py and `match_position` of
-- src/engine/leg_performance.py: the leg's memory follows the broker's positions.
use systematic_trading_valid.Common.{
  Bool, List, Option, [], contains, false, if◌then◌else◌, keep_if, ltb, nat_beq, nat_eq, none, not,
  ok, or_default, pair_eq, pure, some, ℕ, ◌&&◌, ◌-◌, ◌==◌, ◌>>=◌, ◌||◌, ◌∷◌,
}
use systematic_trading_valid.Common.Int.{abs_ℤ, leb_ℤ, ltb_ℤ, max_ℤ, pos, pos_part, ℤ, ◌-ℤ◌}
use systematic_trading_valid.Common.Text.{Text, lower, text, text_eq, upper}
use systematic_trading_valid.Common.Dict.{insert, lookup}
use systematic_trading_valid.Engine.FillSieve.{
  BookOrder, Broker, Held, LegConfig, M, OrderResult, Sieve, ask, order_for, reading, requested_of,
  terminal_order_statuses,
}

-- `crypto_position_symbol`
abbrev position_symbol : Text → Text
position_symbol s = keep_if (λ c. not (nat_beq c b'/')) (upper s)

unfoldable pub match_position : Text → List Held → Option Held
match_position symbol [] = none
match_position symbol (p ∷ ps) =
    if position_symbol p.symbol == position_symbol symbol then some p else match_position symbol ps

pub record Reconciliation : Type 0 where
  broker_qty : ℤ
  pub position_side : Text
  pub bars_in_trade : ℤ
  is_partial : Bool
  requested_qty : ℕ
  pub filled_qty : ℕ
  residual_qty : ℕ

abbrev signed_broker_qty : Option Held → ℤ
signed_broker_qty none = pos 0
signed_broker_qty (some p) =
    if lower p.side == text "short" then pos 0 -ℤ pos (abs_ℤ p.qty) else pos (abs_ℤ p.qty)

abbrev position_side_label : Option Held → Text
position_side_label none = text "flat"
position_side_label (some p) = if lower p.side == text "long" then text "long" else text "short"

abbrev at_least_one : ℤ → ℤ
at_least_one bars = max_ℤ bars (pos 1)

abbrev reconciled_bars : ℤ → Option Held → Option Held → ℤ
reconciled_bars bars prior none = pos 0
reconciled_bars bars none (some p) = pos 1
reconciled_bars bars (some q) (some p) = at_least_one bars

unfoldable pub reconcile_broker_primary_fill :
    ℤ → OrderResult → Option Held → Option Held → ℤ → Reconciliation
reconcile_broker_primary_fill requested r prior current bars =
    let filled = pos_part r.qty in
    let asked = pos_part requested in
    let partial =
      (lower r.status == text "partially_filled") || (ltb 0 asked && ltb filled asked) in
    record {
      broker_qty = signed_broker_qty current;
      position_side = position_side_label current;
      bars_in_trade = reconciled_bars bars prior current;
      is_partial = partial;
      requested_qty = asked;
      filled_qty = filled;
      residual_qty = if partial then asked - filled else 0;
    }

abbrev pub is_held : Option Held → Bool
is_held none = false
is_held (some p) = ltb 0 (abs_ℤ p.qty)

unfoldable pub detect_leg_broker_memory_drift : ℤ → Option Held → Bool
detect_leg_broker_memory_drift bars current =
    if ltb_ℤ (pos 0) bars then not (is_held current) else is_held current

unfoldable pub apply_broker_authority_to_leg_memory : ℤ → Option Held → Option Held → ℤ
apply_broker_authority_to_leg_memory bars none prior = pos 0
apply_broker_authority_to_leg_memory bars (some p) none = at_least_one bars
apply_broker_authority_to_leg_memory bars (some p) (some q) = at_least_one bars

module _ {S : Type 0} (o : Broker S) where
  abbrev pub bars_in : Sieve S → Text → ℤ
  bars_in w strategy = or_default (pos 0) (lookup strategy w.memory)

  abbrev pub remember : Text → ℤ → M S (Unit {0})
  remember strategy bars w = (record w { memory = insert strategy bars w.memory }, ok tt)

  -- `get_positions`, with the note to the risk manager
  abbrev pub fetch_positions : M S (List Held)
  fetch_positions = do
    positions ← ask o.get_positions
    noted ← ask o.risk_manager_note
    pure positions

  -- A result that says nothing of a fill yet
  abbrev pub is_silent : OrderResult → Bool
  is_silent r =
      leb_ℤ r.filled_price (pos 0)
      && leb_ℤ r.qty (pos 0)
      && not (contains (lower r.status) terminal_order_statuses)

  abbrev pub cancel_rest : LegConfig → Reconciliation → M S (Unit {0})
  cancel_rest leg recon =
      if recon.is_partial && ltb 0 recon.residual_qty
      then (do cancelled ← ask (o.cancel_open_orders leg.symbol); pure tt)
      else pure tt

  -- The bars of the leg after a result, and the cancel of the rest of a partial fill
  abbrev pub settle_with : LegConfig → Reconciliation → M S (Unit {0})
  settle_with leg recon = do
    remembered ← remember leg.strategy_id recon.bars_in_trade
    cancel_rest leg recon

  abbrev pub reconciled :
      LegConfig
      → List BookOrder
      → Option Held
      → OrderResult
      → Option Held
      → Sieve S
      → Reconciliation
  reconciled leg orders current r prior w =
      reconcile_broker_primary_fill (requested_of (order_for orders r) r) r prior current
        (bars_in w leg.strategy_id)

  abbrev pub settle_result :
      LegConfig → List BookOrder → Option Held → OrderResult → Option Held → M S (Unit {0})
  settle_result leg orders current r prior =
      reading λ w. settle_with leg (reconciled leg orders current r prior w)

  -- The first result that is settled sees the position before the submission, the later ones the current one.
  unfoldable pub settle_results :
      LegConfig → List BookOrder → Option Held → List OrderResult → Option Held → M S (Unit {0})
  unfolding reconcile_broker_primary_fill
  settle_results leg orders current [] prior = pure tt
  settle_results leg orders current (r ∷ rs) prior =
      let skip = settle_results leg orders current rs prior in
      let settle = (do
        settled ← settle_result leg orders current r prior
        settle_results leg orders current rs current) in
      if is_silent r then skip else settle

  abbrev pub follow_positions : LegConfig → Option Held → Option Held → M S (Unit {0})
  follow_positions leg current prior = reading λ w.
      remember leg.strategy_id
        (apply_broker_authority_to_leg_memory (bars_in w leg.strategy_id) current prior)

  abbrev refetch : LegConfig → List Held → M S (List Held)
  refetch leg positions_before = do
    fresh ← fetch_positions
    followed ←
        follow_positions leg (match_position leg.symbol fresh)
          (match_position leg.symbol positions_before)
    pure fresh

  -- On a drift the positions are read again, and the leg follows them.
  abbrev pub correct_drift : LegConfig → List Held → List Held → M S (List Held)
  correct_drift leg positions_before positions = reading λ w.
      if detect_leg_broker_memory_drift (bars_in w leg.strategy_id)
        (match_position leg.symbol positions)
      then refetch leg positions_before
      else pure positions

  unfoldable pub apply_broker_authority :
      LegConfig → List BookOrder → List OrderResult → List Held → M S (List Held)
  apply_broker_authority leg orders results positions_before = do
    positions ← fetch_positions
    settled ←
        settle_results leg orders (match_position leg.symbol positions) results
          (match_position leg.symbol positions_before)
    correct_drift leg positions_before positions

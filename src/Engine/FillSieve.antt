-- ===== src/Engine/FillSieve.antt =====
-- src/engine/broker_fill_sieve.py: the fills that are still pending after a submission, over the broker, which the
-- source knows by a protocol only. A quantity is a multiple of a smallest unit above the tolerance
-- 1e-9, so a comparison within the tolerance is exact. The times of results and the log lines
-- are left out, and one method runs at a time.
pub mod Authority
pub mod Cycles
pub mod Frames
pub mod Tracked
pub mod Drain
pub mod Ending
pub mod Memory
mod Examples
use systematic_trading_valid.Common.{
  Bool, List, Method, Option, [], any, contains, false, if◌then◌else◌, ltb, map, nat_eq, none,
  pair_eq, some, ℕ, ◌&&◌, ◌++◌, ◌+◌, ◌==◌, ◌||◌, ◌∷◌,
}
use systematic_trading_valid.Common.Int.{ltb_ℤ, max_ℤ, pos, pos_part, ℤ}
use systematic_trading_valid.Common.Text.{Text, lower, text, text_eq, upper}
use systematic_trading_valid.Common.Dict.{Dict, insert, lookup}

abbrev pub cancel_threshold : ℕ
cancel_threshold = 3

abbrev pub terminal_order_statuses : List Text
terminal_order_statuses =
    text "filled"
    ∷ text "partially_filled"
    ∷ text "canceled"
    ∷ text "cancelled"
    ∷ text "expired"
    ∷ text "rejected"
    ∷ []

abbrev open_order_statuses : List Text
open_order_statuses =
    text "new" ∷ text "accepted" ∷ text "pending_new" ∷ text "submitted" ∷ text "open" ∷ []

pub data Side : Type 0 where
  buy sell : Side

abbrev side_value : Side → Text
side_value buy = text "buy"
side_value sell = text "sell"

pub record BookOrder : Type 0 where
  pub symbol : Text
  pub side : Side
  pub qty : ℤ

pub record OrderResult : Type 0 where
  pub symbol : Text
  pub side : Side
  pub qty : ℤ
  pub filled_price : ℤ
  pub order_id : Option Text
  pub status : Text

pub record Held : Type 0 where
  pub symbol : Text
  pub qty : ℤ
  pub side : Text

-- `FillReconciliationBroker` with `risk_manager_note`; a call answers, or raises.
pub record Broker (S : Type 0) : Type 0 where
  pub get_positions : Method S Text (List Held)
  pub short_burst_refresh : List BookOrder → List OrderResult → Method S Text (List OrderResult)
  pub refresh_order_result : BookOrder → OrderResult → Method S Text OrderResult
  pub cancel_open_orders : Text → Method S Text ℕ
  pub risk_manager_note : Method S Text (Unit {0})

pub record ChildFillSlice : Type 0 where
  pub order_id : Option Text
  pub requested : ℤ
  pub side : Side
  pub filled : ℤ
  pub status : Text

pub record Bundle : Type 0 where
  pub strategy_id : Text
  pub symbol : Text
  pub slices : List ChildFillSlice
  pub positions_before : List Held
  pub unresolved_cycles : ℕ

abbrev sum_requested : List ChildFillSlice → ℕ
sum_requested [] = 0
sum_requested (s ∷ ss) = pos_part s.requested + sum_requested ss

abbrev sum_filled : List ChildFillSlice → ℕ
sum_filled [] = 0
sum_filled (s ∷ ss) = pos_part s.filled + sum_filled ss

abbrev pub is_open : ChildFillSlice → Bool
is_open s = contains (lower s.status) open_order_statuses

abbrev is_short : ChildFillSlice → Bool
is_short s =
    (lower s.status == text "partially_filled")
    || (ltb_ℤ (pos 0) s.requested && ltb_ℤ s.filled s.requested)

abbrev tracking_of : List ChildFillSlice → Bool
tracking_of [] = false
tracking_of (s ∷ ss) =
    any is_open (s ∷ ss)
    || ltb (sum_filled (s ∷ ss)) (sum_requested (s ∷ ss))
    || any is_short (s ∷ ss)

unfoldable pub needs_tracking : Bundle → Bool
needs_tracking b = tracking_of b.slices

-- `f"{strategy_id}:{symbol.upper()}"`
unfoldable pub bundle_key : Text → Text → Text
bundle_key strategy symbol = strategy ++ text ":" ++ upper symbol

abbrev pub key_of : Bundle → Text
key_of b = bundle_key b.strategy_id b.symbol

abbrev pub order_key : Text → Side → Text
order_key symbol side = symbol ++ text ":" ++ side_value side

-- A later order of the same symbol and side takes the place of an earlier one.
abbrev order_lookup : List BookOrder → Dict Text BookOrder → Dict Text BookOrder
order_lookup [] d = d
order_lookup (o ∷ os) d = order_lookup os (insert (order_key o.symbol o.side) o d)

abbrev pub order_for : List BookOrder → OrderResult → Option BookOrder
order_for orders r = lookup (order_key r.symbol r.side) (order_lookup orders [])

abbrev pub requested_of : Option BookOrder → OrderResult → ℤ
requested_of none r = r.qty
requested_of (some o) r = o.qty

abbrev pub side_of : Option BookOrder → OrderResult → Side
side_of none r = r.side
side_of (some o) r = o.side

-- `str(result.status or "submitted").lower()`
abbrev status_of : OrderResult → Text
status_of r = lower (if r.status == [] then text "submitted" else r.status)

abbrev slice_of : List BookOrder → OrderResult → ChildFillSlice
slice_of orders r = record {
  order_id = r.order_id;
  requested = requested_of (order_for orders r) r;
  side = side_of (order_for orders r) r;
  filled = max_ℤ r.qty (pos 0);
  status = status_of r;
}

unfoldable pub build_slices : List BookOrder → List OrderResult → List ChildFillSlice
build_slices orders results = map (slice_of orders) results

pub record LegConfig : Type 0 where
  pub strategy_id : Text
  pub symbol : Text

unfoldable pub bundle_from_submission :
    LegConfig → List BookOrder → List OrderResult → List Held → Bundle
bundle_from_submission leg orders results positions_before = record {
  strategy_id = leg.strategy_id;
  symbol = upper leg.symbol;
  slices = build_slices orders results;
  positions_before = positions_before;
  unresolved_cycles = 0;
}

-- The sieve, with the bars in trade that each leg remembers, by its strategy id
pub record Sieve (S : Type 0) : Type 0 where
  pub outside : S
  pub memory : Dict Text ℤ
  pub pending : Dict Text Bundle

abbrev pub M : Type 0 → Type 0 → Type 0
M S A = Method (Sieve S) Text A

-- A call of the broker
abbrev pub ask : {S A : Type 0} → Method S Text A → M S A
ask call w = let r = call w.outside in (record w { outside = r.0 }, r.1)

-- A method that reads the sieve first
abbrev pub reading : {S A : Type 0} → (Sieve S → M S A) → M S A
reading f w = f w w

abbrev pub new_sieve : {S : Type 0} → S → Sieve S
new_sieve s = record { outside = s; memory = []; pending = [] }

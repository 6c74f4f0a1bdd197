-- ===== src/Execution/Positions.antt =====
-- src/execution/idempotent_execution.py: `PositionTracker`. A quantity is an exact multiple of a smallest
-- unit; prices stay abstract, with the volume-weighted mean of the source as a parameter.
pub mod Fills
mod Examples
use systematic_trading_valid.Common.{
  Bool, List, Option, [], contains, if◌then◌else◌, leb, ltb, nat_eq, none, not, pair_eq, some, ℕ,
  ◌&&◌, ◌+◌, ◌==◌, ◌||◌, ◌∷◌,
}
use systematic_trading_valid.Common.Int.{abs_ℤ, leb_ℤ, ltb_ℤ, max_ℤ, pos, ℤ, ◌+ℤ◌, ◌-ℤ◌}
use systematic_trading_valid.Common.Text.{Text, lower, text, text_eq, upper}
use systematic_trading_valid.Common.Dict.{Dict, insert, lookup}

-- The volume-weighted mean: `(abs(q) * avg + abs(s) * price) / (abs(q) + abs(s))`.
abbrev pub Mean : Type 0 → Type 0
Mean P = ℕ → P → ℕ → P → P

pub record Position (P : Type 0) : Type 0 where
  pub qty : ℤ
  pub avg_price : P

-- `_positions` and `_applied`
pub record Tracker (P : Type 0) : Type 0 where
  pub positions : Dict Text (Position P)
  pub applied : List Text

-- The order of a broker, with its average price of the abstract type.
pub record Fill (P : Type 0) : Type 0 where
  pub client_order_id : Text
  pub symbol : Text
  pub side : Text
  pub qty : ℤ
  pub status : Text
  pub filled_qty : ℤ
  pub filled_avg_price : P

abbrev pub qty_of : {P : Type 0} → Option (Position P) → ℤ
qty_of none = pos 0
qty_of (some p) = p.qty

-- `position(symbol)`
unfoldable pub position : {P : Type 0} → Tracker P → Text → ℤ
position t symbol = qty_of (lookup (upper symbol) t.positions)

-- `snapshot()`: the quantities that are not zero
abbrev pub open_positions : {P : Type 0} → Dict Text (Position P) → Dict Text ℤ
open_positions [] = []
open_positions ((s, p) ∷ d) =
    let rest = open_positions d in if ltb 0 (abs_ℤ p.qty) then (s, p.qty) ∷ rest else rest

abbrev pub no_fill_statuses : List Text
no_fill_statuses =
    text "rejected"
    ∷ text "submission_failed"
    ∷ text "canceled"
    ∷ text "cancelled"
    ∷ text "new"
    ∷ []

abbrev pub left_over : {P : Type 0} → Fill P → ℤ
left_over o = max_ℤ (o.qty -ℤ o.filled_qty) (pos 0)

abbrev pub signed : {P : Type 0} → Fill P → ℤ
signed o = if lower o.side == text "buy" then o.filled_qty else pos 0 -ℤ o.filled_qty

-- `pos.qty == 0.0 or (pos.qty > 0) == (signed > 0)`
abbrev pub same_side : ℤ → ℤ → Bool
same_side q s =
    leb (abs_ℤ q) 0 || (if ltb_ℤ (pos 0) q then ltb_ℤ (pos 0) s else not (ltb_ℤ (pos 0) s))

abbrev pub or_price : {P : Type 0} → Option P → P → P
or_price none p = p
or_price (some q) p = q

-- The position after the fill of an order, at the price given or at the order's own
abbrev pub filled : {P : Type 0} → Mean P → Position P → Fill P → Option P → Position P
filled mean p o price =
    let s = signed o in
    record {
      qty = p.qty +ℤ s;
      avg_price =
          if same_side p.qty s && ltb 0 (abs_ℤ p.qty + abs_ℤ s)
          then mean (abs_ℤ p.qty) p.avg_price (abs_ℤ s) (or_price price o.filled_avg_price)
          else p.avg_price;
    }

abbrev pub position_or : {P : Type 0} → P → Option (Position P) → Position P
position_or zero_price none = record { qty = pos 0; avg_price = zero_price }
position_or zero_price (some p) = p

-- `apply`, with the remainder that it returns
unfoldable pub apply : {P : Type 0} → Mean P → P → Tracker P → Fill P → Option P → Tracker P × ℤ
apply mean zero_price t o price =
    let status = lower o.status in
    if contains status no_fill_statuses && leb_ℤ o.filled_qty (pos 0)
    then (t, (if status == text "new" then left_over o else pos 0))
    else if contains o.client_order_id t.applied
    then (t, left_over o)
    else if leb_ℤ o.filled_qty (pos 0)
    then (t, left_over o)
    else (
      record {
        positions =
            insert (upper o.symbol)
              (filled mean (position_or zero_price (lookup (upper o.symbol) t.positions)) o price)
              t.positions;
        applied = o.client_order_id ∷ t.applied;
      },
      left_over o,
    )

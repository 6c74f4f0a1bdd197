-- ===== src/Execution/Positions/Examples.antt =====
-- An order whose fills arrive in two reports.
use systematic_trading_valid.Common.{
  List, Option, String, [], nat_eq, none, pair_eq, refl, ℕ, ◌*◌, ◌+◌, ◌/◌, ◌∷◌, ◌≡◌,
}
use systematic_trading_valid.Common.Int.{pos, ◌+ℤ◌, ◌-ℤ◌}
use systematic_trading_valid.Common.Text.{lower, text, text_eq, upper}
use systematic_trading_valid.Common.Dict.{insert, lookup}
use systematic_trading_valid.Execution.Positions.{Fill, Mean, apply, filled, position}
use systematic_trading_valid.Execution.Positions.Fills.{
  apply_all, first_fills, position_sums_first_fills,
}

-- Prices are numbers here, and their mean is rounded down.
abbrev mean : Mean ℕ
mean q p s r = (q * p + s * r) / (q + s)

abbrev report : ℕ → String → Fill ℕ
report filled status = record {
  client_order_id = text "mbappe-1";
  symbol = text "spy";
  side = text "Buy";
  qty = pos 100;
  status = text status;
  filled_qty = pos filled;
  filled_avg_price = 500;
}

abbrev reports : List (Fill ℕ × Option ℕ)
reports =
    (report 0 "new", none)
    ∷ (report 30 "partially_filled", none)
    ∷ (report 30 "partially_filled", none)
    ∷ (report 100 "filled", none)
    ∷ []

-- The last 70 of the fill are not in the tracked position.
stays_partial :
    position (apply_all mean 0 (record { positions = []; applied = [] }) reports) (text "SPY")
    ≡ pos 30
unfolding position apply lookup insert upper lower ◌+ℤ◌ ◌-ℤ◌
stays_partial = refl

position_sums_first_fills_example :
    position (apply_all mean 0 (record { positions = []; applied = [] }) reports) (text "SPY")
    ≡ first_fills (upper (text "SPY")) [] reports
position_sums_first_fills_example = position_sums_first_fills mean 0 reports (text "SPY")

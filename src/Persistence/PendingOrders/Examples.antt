-- ===== src/Persistence/PendingOrders/Examples.antt =====
-- Two legs whose ids differ in one character.
use systematic_trading_valid.Common.{
  All, Option, [], inl, inr, nat_eq, ok, pair_eq, refl, some, true, ◌++◌, ◌∷◌, ◌≡◌, ◌≢◌,
}
use systematic_trading_valid.Common.Text.{Text, text, text_eq, upper}
use systematic_trading_valid.Persistence.PendingOrders.{Row, Table, clear_prefix, like, prefix_of}
use systematic_trading_valid.Persistence.PendingOrders.Prefixes.{clear_prefix-Covers}

abbrev order : Text → Option Text → Row
order strategy id = record {
  order_key = strategy ++ text ":SPY:buy";
  strategy_id = strategy;
  symbol = text "SPY";
  side = text "buy";
  broker_order_id = id;
  submitted_at = 7;
}

abbrev table : Table
table = order (text "mr_a") (some (text "o1")) ∷ order (text "mr1a") (some (text "o2")) ∷ []

both_deleted : clear_prefix true (text "mr_a") (text "spy") table ≡ ([], ok 2)
unfolding clear_prefix like upper
both_deleted = refl

clear_prefix-Covers_example :
    All
      (λ r. (rest : Text) → r.order_key ≢ prefix_of (text "mr1a") (text "SPY") ++ rest)
      (clear_prefix true (text "mr_a") (text "SPY") table).0
clear_prefix-Covers_example =
    clear_prefix-Covers (text "mr_a") (text "mr1a") (text "SPY") table
      (inl refl, (inl refl, (inr refl, (inl refl, tt))))

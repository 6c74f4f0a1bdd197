-- ===== src/Execution/Submission/Examples.antt =====
-- A storm on one intent, with a broker that accepts everything.
use systematic_trading_valid.Common.{
  Bool, List, Option, [], beq_refl, false, if◌then◌else◌, is_some, nat_eq, none, pair_eq, refl,
  some, true, ◌∙◌, ◌∷◌, ◌≡◌, ◌≤◌,
}
use systematic_trading_valid.Common.Int.{pos}
use systematic_trading_valid.Common.Text.{Text, lower, text, text_eq}
use systematic_trading_valid.Common.Dict.{Dict, insert, lookup, lookup-insert}
use systematic_trading_valid.Engine.EntryAuthority.{EntryDecision, blocked, risk_halt}
use systematic_trading_valid.Execution.Submission.{
  Broker, BrokerOrder, Call, Intent, deterministic_client_order_id, submit,
}
use systematic_trading_valid.Execution.Submission.Storm.{one_order_per_id, sends}

-- SHA-256 is stood for by the text itself.
abbrev id_of : Intent → Text
id_of = deterministic_client_order_id (λ t. t)

abbrev accept : Intent → BrokerOrder
accept i = record {
  client_order_id = id_of i;
  symbol = i.symbol;
  side = i.side;
  qty = i.qty;
  status = text "new";
  filled_qty = pos 0;
  filled_avg_price = pos 0;
  order_id = none;
}

paper_broker : Broker (Dict Text BrokerOrder) id_of
paper_broker = record {
  submit = λ s i. (insert (id_of i) (accept i) s, accept i);
  get_by_client_order_id = λ s id. lookup id s;
  found = λ s i. lookup-insert (id_of i) (id_of i) (accept i) s ∙ simp (beq_refl (id_of i)) refl;
  others = λ s i id e. lookup-insert (id_of i) id (accept i) s ∙ simp e refl;
}

abbrev buy : Intent
buy = record {
  leg_id = text "mr";
  symbol = text "SPY";
  side = text "BUY";
  qty = pos 10;
  signal_ts = text "2026-01-02T15:00";
  epoch = text "7";
}

abbrev try_buy : Option EntryDecision → Option Bool → Call
try_buy guard preempt = record { intent = buy; entry_guard = guard; preempt_check = preempt }

-- Blocked, preempted, sent, and twice repeated.
abbrev storm : List Call
storm =
    try_buy (some (blocked risk_halt)) none
    ∷ try_buy none (some true)
    ∷ try_buy none (some false)
    ∷ try_buy none none
    ∷ try_buy (some (blocked risk_halt)) none
    ∷ []

storm_sends : sends paper_broker (id_of buy) [] storm ≡ 1
unfolding submit paper_broker deterministic_client_order_id lookup insert lower
storm_sends = refl

one_order_per_id_example :
    sends paper_broker (id_of buy) [] storm
    ≤ (if is_some (paper_broker.get_by_client_order_id [] (id_of buy)) then 0 else 1)
one_order_per_id_example = one_order_per_id paper_broker (id_of buy) [] storm

-- ===== src/Engine/Flatten/Examples.antt =====
-- A broker that raises for one of three positions, and cannot clear the orders of another.
use systematic_trading_valid.Common.{
  List, [], err, false, if◌then◌else◌, nat_eq, not, ok, pair_eq, refl, true, ℕ, ◌+◌, ◌==◌, ◌∷◌, ◌≡◌,
}
use systematic_trading_valid.Common.Int.{pos}
use systematic_trading_valid.Common.Text.{Text, text, text_eq, upper}
use systematic_trading_valid.Persistence.PendingOrders.{clear_all, clear_prefix, like}
use systematic_trading_valid.Engine.Flatten.{
  Fault, Outside, Position, Protocol, call_raised, do_await, do_cancel, do_flatten, do_force_cancel,
  do_log, do_positions,
}
use systematic_trading_valid.Engine.Flatten.Portfolio.{
  await_loop, cancel_loop, enter_portfolio, execute_portfolio_flatten, flatten_loop,
  flatten_positions, leave_portfolio, portfolio_body,
}
use systematic_trading_valid.Engine.Flatten.Leg.{
  LegOrder, enter_leg, execute_leg_flatten, leave_leg, leg_body, leg_clearance, leg_exit,
}
use systematic_trading_valid.Engine.Flatten.Attempts.{Isolated, every_position_attempted}
use systematic_trading_valid.Engine.Flatten.Flags.{
  AreExclusive, Event, Running, call_leg, call_portfolio, finish, happen, leg_task, one_body_each,
  portfolio_task, run_events,
}

abbrev held : List Position
held =
    record { symbol = text "spy"; side = text "long"; qty = pos 10 }
    ∷ record { symbol = text "BTC"; side = []; qty = pos 2 }
    ∷ record { symbol = text "QQQ"; side = text "short"; qty = pos 0 }
    ∷ record { symbol = text "ETH"; side = text "long"; qty = pos 5 }
    ∷ []

abbrev lost : Fault
lost = call_raised (text "connection lost")

-- The state counts the calls.
abbrev shaky : Outside ℕ
shaky = record {
  get_positions = λ s. (s + 1, ok held);
  cancel_open_orders = λ s symbol. (s + 1, if symbol == text "BTC" then err lost else ok 1);
  force_cancel_all_orders = λ s symbol. (s + 1, ok 1);
  await_open_orders_cleared = λ s symbol. (s + 1, ok (not (symbol == text "ETH"), 0));
  force_flatten_position =
      λ s symbol side qty. (s + 1, if symbol == text "BTC" then err lost else ok true);
  close_all_positions = λ s. (s + 1, ok tt);
  log_system_event = λ s. (s + 1, ok tt);
}

abbrev idle : Protocol ℕ
idle = record {
  portfolio_flattening = false;
  leg_flattening = [];
  world = record { outside = 0; calls = []; staged = []; writable = true };
}

abbrev drill : Text
drill = text "operator_drill"

drill_result :
    (execute_portfolio_flatten shaky idle drill).1
    ≡ ok (record {
      executed = true;
      skipped = false;
      reason = drill;
      symbols_flattened = text "SPY" ∷ text "ETH" ∷ [];
      symbols_failed = text "BTC" ∷ [];
    })
unfolding execute_portfolio_flatten enter_portfolio leave_portfolio portfolio_body do_positions
    cancel_loop await_loop do_cancel do_await do_force_cancel do_flatten flatten_positions
    flatten_loop do_log clear_all upper
drill_result = refl

abbrev eth : LegOrder
eth = record {
  strategy_id = text "mr_eth";
  symbol = text "eth";
  position_side = text "long";
  position_qty = pos 5;
}

eth_not_confirmed : (execute_leg_flatten shaky idle eth).1 ≡ ok false
unfolding execute_leg_flatten enter_leg leave_leg leg_body leg_clearance leg_exit do_cancel do_await
    do_flatten do_log clear_prefix like upper
eth_not_confirmed = refl

every_position_attempted_example :
    Isolated idle.world
      (execute_portfolio_flatten shaky idle drill).0.world
      held
      (execute_portfolio_flatten shaky idle drill).1
every_position_attempted_example = every_position_attempted shaky idle drill 1 held refl refl refl

-- A second call of either method while the first awaits the broker, and one after it ended
abbrev storm : List (Event ℕ)
storm =
    call_portfolio
    ∷ call_leg (text "mr_eth:ETH")
    ∷ call_portfolio
    ∷ call_leg (text "mr_eth:ETH")
    ∷ finish 1
    ∷ call_portfolio
    ∷ []

abbrev at_rest : Running ℕ
at_rest = record { protocol = idle; bodies = [] }

storm_bodies :
    (run_events at_rest storm).bodies ≡ portfolio_task ∷ leg_task (text "mr_eth:ETH") ∷ []
unfolding run_events happen enter_portfolio enter_leg leave_portfolio
storm_bodies = refl

one_body_each_example : AreExclusive (run_events at_rest storm)
one_body_each_example = one_body_each idle.world storm

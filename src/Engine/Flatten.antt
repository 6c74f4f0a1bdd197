-- ===== src/Engine/Flatten.antt =====
-- src/engine/flatten_protocol.py: the flatten cascade. The broker, which the source knows by a protocol only, and
-- the event log of src/persistence/db.py, which the repository does not hold, are the parameter
-- `Outside`. The world keeps the calls that were made, oldest first, for the theorems to speak of.
pub mod Portfolio
pub mod Leg
pub mod Calls
pub mod Isolation
pub mod Attempts
pub mod Flags
mod Examples
use systematic_trading_valid.Common.{
  Bool, List, Method, Result, [], err, nat_eq, ok, pair_eq, ℕ, ◌++◌, ◌∷◌,
}
use systematic_trading_valid.Common.Int.{ℤ}
use systematic_trading_valid.Common.Text.{Text, text_eq}
use systematic_trading_valid.Persistence.PendingOrders.{StoreError, Table, clear_all, clear_prefix}

pub record Position : Type 0 where
  pub symbol : Text
  pub side : Text
  pub qty : ℤ

-- An exception that a call raises
pub data Fault : Type 0 where
  call_raised : Text → Fault
  store_raised : StoreError → Fault

-- `FlattenBroker`, and `log_system_event`. A flatten answers whether its result is not `None`.
pub record Outside (S : Type 0) : Type 0 where
  pub get_positions : S → S × Result Fault (List Position)
  pub cancel_open_orders : S → Text → S × Result Fault ℕ
  pub force_cancel_all_orders : S → Text → S × Result Fault ℕ
  pub await_open_orders_cleared : S → Text → S × Result Fault (Bool × ℕ)
  pub force_flatten_position : S → Text → Text → ℤ → S × Result Fault Bool
  pub close_all_positions : S → S × Result Fault (Unit {0})
  pub log_system_event : S → S × Result Fault (Unit {0})

pub data Call : Type 0 where
  cancel force_cancel await_cleared : Text → Call
  flatten : Text → Text → ℤ → Result Fault Bool → Call
  close_all : Call

pub record World (S : Type 0) : Type 0 where
  pub outside : S
  pub calls : List Call
  pub staged : Table
  pub writable : Bool

-- A method that may raise, on the world
abbrev pub M : Type 0 → Type 0 → Type 0
M S A = Method (World S) Fault A

-- What one more call leaves, with the broker's answer
abbrev pub called : {S A : Type 0} → Call → S × Result Fault A → M S A
called c r w = (record w { outside = r.0; calls = w.calls ++ (c ∷ []) }, r.1)

module _ {S : Type 0} (o : Outside S) where
  unfoldable pub do_cancel : Text → M S ℕ
  do_cancel s w = called (cancel s) (o.cancel_open_orders w.outside s) w

  unfoldable pub do_force_cancel : Text → M S ℕ
  do_force_cancel s w = called (force_cancel s) (o.force_cancel_all_orders w.outside s) w

  unfoldable pub do_await : Text → M S (Bool × ℕ)
  do_await s w = called (await_cleared s) (o.await_open_orders_cleared w.outside s) w

  unfoldable pub do_flatten : Text → Text → ℤ → M S Bool
  do_flatten s side qty w =
      let r = o.force_flatten_position w.outside s side qty in called (flatten s side qty r.1) r w

  unfoldable pub do_close_all : M S (Unit {0})
  do_close_all w = called close_all (o.close_all_positions w.outside) w

  unfoldable pub do_log : M S (Unit {0})
  do_log w = let r = o.log_system_event w.outside in (record w { outside = r.0 }, r.1)

  unfoldable pub do_positions : M S (List Position)
  do_positions w = let r = o.get_positions w.outside in (record w { outside = r.0 }, r.1)

-- The result of a store's method, as that of the protocol's
abbrev pub store_result : {A : Type 0} → Result StoreError A → Result Fault A
store_result (ok a) = ok a
store_result (err e) = err (store_raised e)

abbrev pub do_clear_all : {S : Type 0} → M S ℕ
do_clear_all w =
    let r = clear_all w.writable w.staged in (record w { staged = r.0 }, store_result r.1)

abbrev pub do_clear_prefix : {S : Type 0} → Text → Text → M S ℕ
do_clear_prefix strategy symbol w =
    let r = clear_prefix w.writable strategy symbol w.staged in
    (record w { staged = r.0 }, store_result r.1)

-- `UnifiedFlattenProtocol`
pub record Protocol (S : Type 0) : Type 0 where
  pub portfolio_flattening : Bool
  pub leg_flattening : List Text
  pub world : World S

-- ===== src/Engine/CapitalLedger.antt =====
-- src/engine/reserved_capital_ledger.py: the buying power that strategies reserve within a cycle.
-- Amounts are exact integers; the two functions that size a plan call the omitted risk manager and
-- are not modelled.
pub mod Budget
pub mod Cycle
mod Examples
use systematic_trading_valid.Common.{Option, [], if◌then◌else◌, is_some, nat_eq, none, not, some, ℕ}
use systematic_trading_valid.Common.Int.{max_ℤ, min_ℤ, pos, ℤ, ◌+ℤ◌, ◌-ℤ◌}
use systematic_trading_valid.Common.Text.{text_eq}
use systematic_trading_valid.Common.Dict.{Dict, erase, insert, lookup}

-- `Account` of src/models.py
pub record Account : Type 0 where
  pub equity : ℤ
  pub cash : ℤ
  pub buying_power : ℤ

pub record Ledger : Type 0 where
  pub snapshot : Option Account
  pub reserved_total : ℤ
  pub reserved_by_strategy : Dict ℕ ℤ

abbrev pub new_ledger : Ledger
new_ledger = record { snapshot = none; reserved_total = pos 0; reserved_by_strategy = [] }

unfoldable pub begin_cycle : Ledger → Account → Ledger
begin_cycle l account = record {
  snapshot = some account;
  reserved_total = pos 0;
  reserved_by_strategy = [];
}

-- `d.get(strategy_id, 0.0)`
abbrev pub reserved_for : ℕ → Dict ℕ ℤ → ℤ
reserved_for s d = elim (lookup s d) [ none ↦ pos 0 | some a ↦ a ]

abbrev pub or_zero : ℤ → ℤ
or_zero a = max_ℤ a (pos 0)

-- The buying power of a snapshot that a reserved total leaves.
abbrev pub left_of : Option Account → ℤ → ℤ
left_of none total = pos 0
left_of (some a) total = or_zero (a.buying_power -ℤ total)

unfoldable pub available_buying_power : Ledger → ℤ
available_buying_power l = left_of l.snapshot l.reserved_total

unfoldable pub available_account : Ledger → Account
unfolding available_buying_power
available_account l = elim l.snapshot [
  | none ↦ record { equity = pos 0; cash = pos 0; buying_power = pos 0 }
  | some a ↦ record {
    equity = a.equity;
    cash = or_zero (a.cash -ℤ l.reserved_total);
    buying_power = available_buying_power l;
  }
]

unfoldable pub execution_account_for : Ledger → ℕ → Account
unfolding available_account
execution_account_for l strategy = elim l.snapshot [
  | none ↦ available_account l
  | some a ↦
      let own = reserved_for strategy l.reserved_by_strategy in
      let other = or_zero (l.reserved_total -ℤ own) in
      record {
        equity = a.equity;
        cash = or_zero (a.cash -ℤ other);
        buying_power = or_zero (a.buying_power -ℤ other);
      }
]

-- The ledger after the strategy's own reservation is taken off the total.
abbrev pub without_prior : Ledger → ℕ → Ledger
without_prior l strategy = record l {
  reserved_total = or_zero (l.reserved_total -ℤ reserved_for strategy l.reserved_by_strategy);
}

-- What `reserve` grants: the amount, cut to what is available without the prior reservation.
unfoldable pub grant : Ledger → ℕ → ℤ → ℤ
unfolding available_buying_power
grant l strategy amount = min_ℤ (or_zero amount) (available_buying_power (without_prior l strategy))

unfoldable pub reserve : Ledger → ℕ → ℤ → Ledger × ℤ
reserve l strategy amount =
    let reserved = grant l strategy amount in
    if not (is_some l.snapshot) then (l, pos 0) else (
      record l {
        reserved_by_strategy = insert strategy reserved l.reserved_by_strategy;
        reserved_total = (without_prior l strategy).reserved_total +ℤ reserved;
      },
      reserved,
    )

unfoldable pub release : Ledger → ℕ → Ledger × ℤ
release l strategy =
    let released = reserved_for strategy l.reserved_by_strategy in
    (
      record l {
        reserved_by_strategy = erase strategy l.reserved_by_strategy;
        reserved_total = or_zero (l.reserved_total -ℤ released);
      },
      released,
    )

unfoldable pub release_all : Ledger → Ledger
release_all l = record l { reserved_total = pos 0; reserved_by_strategy = [] }

unfoldable pub sync_from_broker : Ledger → Account → Option ℕ → Ledger
unfolding release
sync_from_broker l account none = record {
  snapshot = some account;
  reserved_total = pos 0;
  reserved_by_strategy = [];
}
sync_from_broker l account (some strategy) =
    (release (record l { snapshot = some account }) strategy).0

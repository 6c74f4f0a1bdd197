-- ===== src/Engine/CapitalLedger/Examples.antt =====
-- A cycle with two strategies.
use systematic_trading_valid.Common.{List, [], nat_eq, pair_eq, refl, some, ◌++◌, ◌∷◌, ◌≡◌}
use systematic_trading_valid.Common.Int.{pos, ◌+ℤ◌, ◌-ℤ◌}
use systematic_trading_valid.Common.Text.{text_eq}
use systematic_trading_valid.Common.Dict.{erase, insert, lookup}
use systematic_trading_valid.Engine.CapitalLedger.{
  Account, Ledger, available_buying_power, begin_cycle, grant, new_ledger, release, reserve,
  sync_from_broker,
}
use systematic_trading_valid.Engine.CapitalLedger.Cycle.{
  Call, IsSound, apply, cycle-IsSound, reserve_for, run, sync,
}

abbrev account : Account
account = record { equity = pos 1000; cash = pos 400; buying_power = pos 100 }

abbrev opened : Ledger
opened = begin_cycle new_ledger account

abbrev calls : List Call
calls = reserve_for 1 (pos 70) ∷ reserve_for 2 (pos 50) ∷ reserve_for 1 (pos 20) ∷ []

-- The second strategy is cut to what the first has left, and the first then gives some back.
after_calls : (run opened calls).reserved_by_strategy ≡ (1, pos 20) ∷ (2, pos 30) ∷ []
unfolding run apply reserve grant begin_cycle available_buying_power insert lookup ◌+ℤ◌ ◌-ℤ◌
after_calls = refl

abbrev poorer : Account
poorer = record { equity = pos 900; cash = pos 300; buying_power = pos 10 }

-- The broker then reports a buying power below what the other strategy keeps reserved: its reservation stays,
-- and nothing more is granted.
abbrev squeezed : List Call
squeezed = calls ++ (sync poorer (some 1) ∷ reserve_for 1 (pos 20) ∷ [])

after_squeeze : (run opened squeezed).reserved_by_strategy ≡ (2, pos 30) ∷ (1, pos 0) ∷ []
unfolding run apply reserve grant begin_cycle available_buying_power insert lookup ◌+ℤ◌ ◌-ℤ◌
    sync_from_broker release erase
after_squeeze = refl

cycle-IsSound_example : IsSound (pos 100) (run (begin_cycle new_ledger account) squeezed)
unfolding begin_cycle
cycle-IsSound_example = cycle-IsSound new_ledger account squeezed

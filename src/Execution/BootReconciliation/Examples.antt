-- ===== src/Execution/BootReconciliation/Examples.antt =====
-- A boot with one foreign position.
use systematic_trading_valid.Common.{[], false, nat_eq, none, pair_eq, refl, some, ◌↔◌, ◌∷◌, ◌≡◌}
use systematic_trading_valid.Common.Int.{negsuc, pos, ℤ, ◌-ℤ◌}
use systematic_trading_valid.Common.Text.{Text, text, text_eq, upper}
use systematic_trading_valid.Common.Dict.{Dict, insert, lookup}
use systematic_trading_valid.Execution.BootReconciliation.{
  reconcile_boot, symbol_mismatch, unknown_broker_position,
}
use systematic_trading_valid.Engine.Escalation.{fresh, level_eq}
use systematic_trading_valid.Execution.BootReconciliation.Agreement.{
  IsReconciled, clean_iff_reconciled,
}

abbrev ours : Dict Text ℤ
ours = (text "spy", pos 100) ∷ (text "QQQ", pos 0) ∷ []

abbrev same : Dict Text ℤ
same = (text "SPY", pos 101) ∷ []

abbrev foreign : Dict Text ℤ
foreign = (text "TLT", negsuc 49) ∷ (text "SPY", pos 101) ∷ []

clean_iff_reconciled_example :
    ((reconcile_boot 2 ours same none (some []) fresh).0.tripped ≡ false)
    ↔ IsReconciled 2 ours same none (some [])
clean_iff_reconciled_example = clean_iff_reconciled 2 ours same none (some []) fresh

is_clean : (reconcile_boot 2 ours same none (some []) fresh).0.tripped ≡ false
unfolding reconcile_boot symbol_mismatch upper insert lookup ◌-ℤ◌
is_clean = refl

foreign_found :
    (reconcile_boot 2 ours foreign none none fresh).0.mismatches
    ≡ unknown_broker_position (text "TLT") (pos 0) (negsuc 49) ∷ []
unfolding reconcile_boot symbol_mismatch upper insert lookup ◌-ℤ◌
foreign_found = refl

-- ===== src/Engine/Degradation/Examples.antt =====
-- The manager on concrete verdicts.
use systematic_trading_valid.Common.{
  List, [], arith, count_if, false, ltb, nat_eq, none, pair_eq, refl, some, true, ℕ, ◌+◌, ◌==◌, ◌∷◌,
  ◌≡◌,
}
use systematic_trading_valid.Common.Text.{text, text_eq}
use systematic_trading_valid.Engine.Degradation.{
  Manager, Severity, Verdict, entered, hard_breach, hard_critical_degrade, mode_eq, ok_verdict,
  soft_breach, soft_degrade, webhook,
}
use systematic_trading_valid.Engine.Degradation.Modes.{
  evaluate_from_slo, long, should_block_entry_action,
}
use systematic_trading_valid.Engine.Degradation.Restart.{
  Call, IsDurable, boot, boot-IsDurable, evaluate, recon, restart_keeps_mode, run,
}
use systematic_trading_valid.Engine.Degradation.Recovery.{
  entries_blocked_until_nine, hard_recovers_exactly, is_ok, run_slo,
}

abbrev verdict : Severity → Verdict × ℕ
verdict s = (record { severity = s; reasons = text "nbbo" ∷ text "ingest" ∷ [] }, 10)

abbrev booted : Manager
booted = boot true none

abbrev breach : Manager
breach = evaluate_from_slo booted (verdict hard_breach).0 1

-- Five OK verdicts, a soft breach, and the sixth OK: the soft breach has held the streak.
abbrev five_soft_one : List (Verdict × ℕ)
five_soft_one =
    verdict ok_verdict
    ∷ verdict ok_verdict
    ∷ verdict ok_verdict
    ∷ verdict ok_verdict
    ∷ verdict ok_verdict
    ∷ verdict soft_breach
    ∷ verdict ok_verdict
    ∷ []

steps_down : (run_slo breach five_soft_one).mode ≡ soft_degrade
unfolding run_slo evaluate_from_slo boot
steps_down = refl

breach_notices : breach.notices ≡ entered (text "nbbo|ingest") ∷ webhook (text "nbbo|ingest") ∷ []
unfolding evaluate_from_slo boot
breach_notices = refl

hard_recovers_exactly_example :
    ((run_slo breach five_soft_one).mode == hard_critical_degrade)
    ≡ ltb (breach.streak + count_if is_ok five_soft_one) 6
unfolding evaluate_from_slo boot
hard_recovers_exactly_example = hard_recovers_exactly breach five_soft_one refl (omega arith) refl

entries_blocked_until_nine_example :
    should_block_entry_action
      (run_slo (evaluate_from_slo booted (verdict hard_breach).0 1) five_soft_one)
      (some long)
      20
    ≡ true
entries_blocked_until_nine_example =
    entries_blocked_until_nine booted (verdict hard_breach).0 1 five_soft_one long 20 refl
      (omega arith)

abbrev calls : List Call
calls =
    evaluate (verdict soft_breach).0 1
    ∷ recon (text "lock") 2
    ∷ evaluate (verdict hard_breach).0 3
    ∷ evaluate (verdict ok_verdict).0 4
    ∷ []

restart_keeps_mode_example :
    let m = run booted calls in
    let r = boot false m.vault in
    (r.mode ≡ m.mode)
    × (r.reason ≡ m.reason)
    × (r.activated_at ≡ m.activated_at)
    × (r.flatten_latched ≡ m.flatten_latched)
    × (r.streak ≡ 0)
restart_keeps_mode_example = restart_keeps_mode true false none calls

booted-IsDurable : IsDurable booted
booted-IsDurable = boot-IsDurable true none

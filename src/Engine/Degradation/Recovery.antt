-- ===== src/Engine/Degradation/Recovery.antt =====
-- How the manager leaves a degraded mode, and what it blocks until then.
use systematic_trading_valid.Common.{
  Bool, Bool-cases, List, [], any, arith, count_if, false, if◌then◌else◌, inl, inr, leb, ltb, min,
  nat_eq, refl, some, true, ℕ, ◌+◌, ◌-◌, ◌<◌, ◌==◌, ◌∙◌, ◌∷◌, ◌≡◌, ◌≢◌, ◌≤◌,
}
use systematic_trading_valid.Common.Text.{text_eq}
use systematic_trading_valid.Engine.Degradation.{
  Manager, Mode, Verdict, hard_breach, hard_critical_degrade, mode_beq, mode_beq_iff, mode_eq,
  normal, ok_verdict, recon_degraded_manage, soft_degrade,
}
use systematic_trading_valid.Engine.Degradation.Modes.{
  SignalAction, apply_hard_critical_degrade, evaluate_from_slo, evaluate_in, is_entry,
  should_block_entry_action,
}

-- A run of evaluations: each verdict with the time of its tick.
unfoldable pub run_slo : Manager → List (Verdict × ℕ) → Manager
run_slo m [] = m
run_slo m ((v, now) ∷ vs) = run_slo (evaluate_from_slo m v now) vs

abbrev pub is_ok : Verdict × ℕ → Bool
is_ok (v, _) = elim v.severity [ ok_verdict ↦ true | _ ↦ false ]

abbrev pub is_hard : Verdict × ℕ → Bool
is_hard (v, _) = elim v.severity [ hard_breach ↦ true | _ ↦ false ]

-- How many OK verdicts a manager is away from NORMAL, at the least.
abbrev needed : Mode → ℕ → ℕ
needed normal s = 0
needed soft_degrade s = 3 - s
needed recon_degraded_manage s = 3
needed hard_critical_degrade s = 9 - min s 6

evaluate-needed :
    (mode : Mode) (m : Manager) (v : Verdict) (now : ℕ)
    → m.mode ≡ mode
    → let m' = evaluate_in mode m v now in
      needed mode m.streak ≤ needed m'.mode m'.streak + (if is_ok (v, now) then 1 else 0)
unfolding evaluate_in
evaluate-needed normal m v now e = ground arith
evaluate-needed soft_degrade m v now e = ground arith
evaluate-needed recon_degraded_manage m v now e = ground arith
evaluate-needed hard_critical_degrade m v now e = ground arith

needed-le : (mode : Mode) (s : ℕ) → needed mode s ≤ 9
needed-le normal s = omega arith
needed-le soft_degrade s = omega arith
needed-le recon_degraded_manage s = omega arith
needed-le hard_critical_degrade s = omega arith

step-needed :
    (m : Manager) (v : Verdict) (now : ℕ)
    → let m' = evaluate_from_slo m v now in
      needed m.mode m.streak ≤ needed m'.mode m'.streak + (if is_ok (v, now) then 1 else 0)
unfolding evaluate_from_slo
step-needed m v now = ground (arith, evaluate-needed m.mode m v now refl, needed-le m.mode m.streak)

run-needed :
    (m : Manager) (vs : List (Verdict × ℕ))
    → let m' = run_slo m vs in needed m.mode m.streak ≤ needed m'.mode m'.streak + count_if is_ok vs
unfolding run_slo
run-needed m [] = omega arith
run-needed m ((v, now) ∷ vs) =
    let m' = evaluate_from_slo m v now in ground (arith, step-needed m v now, run-needed m' vs)

breached-needed :
    (m : Manager) (v : Verdict) (now : ℕ)
    → is_hard (v, now) ≡ true
    → let m' = evaluate_from_slo m v now in needed m'.mode m'.streak ≡ 9
unfolding evaluate_from_slo apply_hard_critical_degrade
breached-needed m v now h = ground arith

blocks_unless_normal :
    (m : Manager) (a : SignalAction) (now : ℕ)
    → 0 < needed m.mode m.streak
    → should_block_entry_action m (some a) now ≡ is_entry a
unfolding should_block_entry_action
blocks_unless_normal m a now h = ground arith

-- After a hard breach, whatever verdicts follow, entry signals (LONG and SHORT), and no others, are
-- blocked until at least nine of the verdicts were OK: six to leave HARD_CRITICAL_DEGRADE and three
-- more to leave SOFT_DEGRADE.
pub entries_blocked_until_nine :
    (m : Manager) (v : Verdict) (now : ℕ) (vs : List (Verdict × ℕ)) (a : SignalAction) (t : ℕ)
    → is_hard (v, now) ≡ true
    → count_if is_ok vs < 9
    → should_block_entry_action (run_slo (evaluate_from_slo m v now) vs) (some a) t ≡ is_entry a
entries_blocked_until_nine m v now vs a t h few =
    let m' = evaluate_from_slo m v now in
    blocks_unless_normal (run_slo m' vs) a t
      (omega (arith, breached-needed m v now h, run-needed m' vs))

evaluate-out :
    (mode : Mode) (m : Manager) (v : Verdict) (now : ℕ)
    → m.mode ≡ mode
    → mode ≢ hard_critical_degrade
    → (evaluate_in mode m v now).mode ≢ hard_critical_degrade
unfolding evaluate_in
evaluate-out normal m v now e n = ground arith
evaluate-out soft_degrade m v now e n = ground arith
evaluate-out recon_degraded_manage m v now e n = ground arith
evaluate-out hard_critical_degrade m v now e n = absurd (n refl)

-- Out of HARD_CRITICAL_DEGRADE, only a hard breach leads back.
stays_out :
    (m : Manager) (vs : List (Verdict × ℕ))
    → any is_hard vs ≡ false
    → m.mode ≢ hard_critical_degrade
    → (run_slo m vs).mode ≢ hard_critical_degrade
unfolding run_slo evaluate_from_slo
stays_out m [] h n = n
stays_out m ((v, now) ∷ vs) h n =
    stays_out (evaluate_from_slo m v now) vs (ground arith)
      (ground (arith, evaluate-out m.mode m v now refl n))

-- One verdict in HARD_CRITICAL_DEGRADE.
hard-step :
    (m : Manager) (v : Verdict) (now : ℕ)
    → m.mode ≡ hard_critical_degrade
    → is_hard (v, now) ≡ false
    → let m' = evaluate_from_slo m v now in
      let s = m.streak + (if is_ok (v, now) then 1 else 0) in
      (m'.mode ≡ (if ltb s 6 then hard_critical_degrade else soft_degrade))
      × (s < 6 → m'.streak ≡ s)
unfolding evaluate_from_slo evaluate_in
hard-step m v now e h = ground arith

mode_beq-ne : (a b : Mode) → a ≢ b → mode_beq a b ≡ false
mode_beq-ne a b n = ground (arith, mode_beq_iff a b)

-- With no hard breach among the verdicts, a manager in HARD_CRITICAL_DEGRADE is still there after
-- them exactly if its streak and the OK verdicts among them come to less than six: a soft breach or a
-- warning holds the streak and does not reset it.
pub hard_recovers_exactly :
    (m : Manager) (vs : List (Verdict × ℕ))
    → m.mode ≡ hard_critical_degrade
    → m.streak < 6
    → any is_hard vs ≡ false
    → ((run_slo m vs).mode == hard_critical_degrade) ≡ ltb (m.streak + count_if is_ok vs) 6
unfolding run_slo
hard_recovers_exactly m [] e s h = rw e (ground arith)
hard_recovers_exactly m ((v, now) ∷ vs) e s h = elim (Bool-cases (leb 6 s')) [
  | inl out ↦
      let n : m'.mode ≢ hard_critical_degrade =
        ground (arith, hard-step m v now e (ground arith)) in
      rw (mode_beq-ne _ _ (stays_out m' vs (ground arith) n)) (ground arith)
  | inr more ↦
      let mode_same : m'.mode ≡ hard_critical_degrade =
        ground (arith, hard-step m v now e (ground arith)) in
      let counted : m'.streak ≡ s' = ground (arith, hard-step m v now e (ground arith)) in
      hard_recovers_exactly m' vs mode_same (ground arith) (ground arith) ∙ ground arith
]
  where
    m' : Manager
    m' = evaluate_from_slo m v now

    s' : ℕ
    s' = m.streak + (if is_ok (v, now) then 1 else 0)

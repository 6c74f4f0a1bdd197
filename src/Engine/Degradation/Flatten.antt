-- ===== src/Engine/Degradation/Flatten.antt =====
-- When the manager asks for an emergency flatten.
use systematic_trading_valid.Common.{List, [], arith, false, nat_eq, refl, true, ℕ, ◌∷◌, ◌≡◌}
use systematic_trading_valid.Common.Text.{text_eq}
use systematic_trading_valid.Engine.Degradation.{
  Manager, Mode, Verdict, hard_critical_degrade, mode_eq, normal, recon_degraded_manage,
  soft_degrade,
}
use systematic_trading_valid.Engine.Degradation.Modes.{
  apply_hard_critical_degrade, apply_recon_degraded_manage, apply_soft_degrade,
  consume_flatten_request, evaluate_from_slo, evaluate_in, hydrate_from_vault, reset_to_normal,
}
use systematic_trading_valid.Engine.Degradation.Restart.{
  Call, IsDurable, apply, apply-IsDurable, consume, evaluate, hard, hydrate, recon, reset, run,
  soft,
}

-- The latch of a flatten request stands in HARD_CRITICAL_DEGRADE only.
abbrev pub LatchFits : Manager → Type 0
LatchFits m = m.flatten_latched ≡ true → m.mode ≡ hard_critical_degrade

evaluate_in-LatchFits :
    (mode : Mode) (m : Manager) (v : Verdict) (now : ℕ)
    → m.mode ≡ mode
    → LatchFits m
    → LatchFits (evaluate_in mode m v now)
unfolding evaluate_in
evaluate_in-LatchFits normal m v now e h = ground arith
evaluate_in-LatchFits soft_degrade m v now e h = ground arith
evaluate_in-LatchFits recon_degraded_manage m v now e h = ground arith
evaluate_in-LatchFits hard_critical_degrade m v now e h = ground arith

apply-LatchFits : (m : Manager) (c : Call) → m.hydrated ≡ true → LatchFits m → LatchFits (apply m c)
unfolding apply evaluate_from_slo apply_hard_critical_degrade apply_soft_degrade
    apply_recon_degraded_manage reset_to_normal consume_flatten_request hydrate_from_vault
apply-LatchFits m (evaluate v now) y h = ground (arith, evaluate_in-LatchFits m.mode m v now refl h)
apply-LatchFits m (soft reason now) y h = ground arith
apply-LatchFits m (recon reason now) y h = ground arith
apply-LatchFits m (hard reason now) y h = ground arith
apply-LatchFits m (reset reason) y h = ground arith
apply-LatchFits m consume y h = ground arith
apply-LatchFits m hydrate y h = ground arith

run-LatchFits : (m : Manager) (cs : List Call) → IsDurable m → LatchFits m → LatchFits (run m cs)
unfolding run
run-LatchFits m [] d h = h
run-LatchFits m (c ∷ cs) d h =
    run-LatchFits (apply m c) cs (apply-IsDurable m c d) (apply-LatchFits m c d.hydrated h)

-- From a durable manager whose latch fits its mode, after any calls: a flatten request is granted in
-- HARD_CRITICAL_DEGRADE only, and it is granted once, since a second request right after it is not.
pub flatten_granted_once :
    (m : Manager) (cs : List Call)
    → IsDurable m
    → LatchFits m
    → (consume_flatten_request (run m cs)).1 ≡ true
    → ((run m cs).mode ≡ hard_critical_degrade)
      × ((consume_flatten_request (consume_flatten_request (run m cs)).0).1 ≡ false)
unfolding consume_flatten_request
flatten_granted_once m cs d h granted = let fits = run-LatchFits m cs d h in ground arith

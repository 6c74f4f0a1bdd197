-- ===== src/Engine/Degradation/Restart.antt =====
-- What every operation keeps: the flatten latch belongs to HARD_CRITICAL_DEGRADE, and the row in the
-- database is the manager's state.
use systematic_trading_valid.Common.{
  Bool, Bool-cases, List, Option, [], false, if◌then◌else◌, inl, inr, nat_eq, none, refl, some, sym,
  true, ℕ, ◌∷◌, ◌≡◌,
}
use systematic_trading_valid.Common.Text.{Text, text_eq}
use systematic_trading_valid.Engine.Degradation.{
  Manager, Mode, Persisted, Verdict, hard_critical_degrade, mode_eq, mode_value, new_manager,
  normal, parse_mode, persist_state, recon_degraded_manage, soft_degrade,
}
use systematic_trading_valid.Engine.Degradation.Modes.{
  apply_hard_critical_degrade, apply_recon_degraded_manage, apply_soft_degrade,
  consume_flatten_request, dispatch_entered, dispatch_recovered, evaluate_from_slo, evaluate_in,
  hydrate_from_vault, is_hard_breach, or_normal, reset_to_normal,
}
use systematic_trading_valid.Engine.Escalation.{level_eq}

-- A call of a method that changes the manager, with its time.
pub data Call : Type 0 where
  evaluate : Verdict → ℕ → Call
  soft recon hard : Text → ℕ → Call
  reset : Text → Call
  consume hydrate : Call

unfoldable pub apply : Manager → Call → Manager
apply m (evaluate v now) = evaluate_from_slo m v now
apply m (soft reason now) = apply_soft_degrade m reason now
apply m (recon reason now) = apply_recon_degraded_manage m reason now
apply m (hard reason now) = apply_hard_critical_degrade m reason now
apply m (reset reason) = reset_to_normal m reason
apply m consume = (consume_flatten_request m).0
apply m hydrate = hydrate_from_vault m

unfoldable pub run : Manager → List Call → Manager
run m [] = m
run m (c ∷ cs) = run (apply m c) cs

pub parse-mode_value : (mode : Mode) → parse_mode (mode_value mode) ≡ some mode
unfolding parse_mode
parse-mode_value normal = refl
parse-mode_value soft_degrade = refl
parse-mode_value recon_degraded_manage = refl
parse-mode_value hard_critical_degrade = refl

-- The row, as a new process would read it, is the manager's state.
abbrev pub Agrees : Manager → Option Persisted → Type 0
Agrees m none =
    (m.mode ≡ normal) × (m.reason ≡ []) × (m.activated_at ≡ none) × (m.flatten_latched ≡ false)
Agrees m (some p) =
    (m.mode ≡ or_normal (parse_mode p.degradation_mode))
    × (m.reason ≡ p.trigger_reason)
    × (m.activated_at ≡ p.entered_at)
    × (m.flatten_latched ≡ p.flatten_latched)

pub record IsDurable (m : Manager) : Type 0 where
  pub hydrated : m.hydrated ≡ true
  pub agrees : Agrees m m.vault

persist-IsDurable : (m : Manager) → IsDurable (persist_state m)
unfolding persist_state
persist-IsDurable m = record { hydrated = refl; agrees = (rw parse-mode_value, refl, refl, refl) }

dispatch_entered-IsDurable : (m : Manager) → IsDurable m → IsDurable (dispatch_entered m)
unfolding dispatch_entered
dispatch_entered-IsDurable m h = record { hydrated = h.hydrated; agrees = h.agrees }

if-IsDurable :
    (b : Bool) (m n : Manager) → IsDurable m → IsDurable n → IsDurable (if b then m else n)
if-IsDurable true m n h k = h
if-IsDurable false m n h k = k

dispatch_recovered-IsDurable : (m : Manager) → IsDurable m → IsDurable (dispatch_recovered m)
unfolding dispatch_recovered
dispatch_recovered-IsDurable m h =
    if-IsDurable m.has_notifier _ m (record { hydrated = h.hydrated; agrees = h.agrees }) h

ruleset durable =
    (persist-IsDurable, dispatch_entered-IsDurable, dispatch_recovered-IsDurable, if-IsDurable)

soft-IsDurable :
    (m : Manager) (r : Text) (now : ℕ) → IsDurable m → IsDurable (apply_soft_degrade m r now)
unfolding apply_soft_degrade
soft-IsDurable m r now h = search durable

hard-IsDurable :
    (m : Manager) (r : Text) (now : ℕ) → IsDurable (apply_hard_critical_degrade m r now)
unfolding apply_hard_critical_degrade
hard-IsDurable m r now = search durable

recon-IsDurable :
    (m : Manager) (r : Text) (now : ℕ)
    → IsDurable m
    → IsDurable (apply_recon_degraded_manage m r now)
unfolding apply_recon_degraded_manage
recon-IsDurable m r now h = search durable

reset-IsDurable : (m : Manager) (r : Text) → IsDurable (reset_to_normal m r)
unfolding reset_to_normal
reset-IsDurable m r = search durable

evaluate_in-IsDurable :
    (mode : Mode) (m : Manager) (v : Verdict) (now : ℕ)
    → IsDurable m
    → IsDurable (evaluate_in mode m v now)
unfolding evaluate_in
evaluate_in-IsDurable normal m v now h = search (durable, soft-IsDurable)
evaluate_in-IsDurable soft_degrade m v now h = search (durable, reset-IsDurable)
evaluate_in-IsDurable recon_degraded_manage m v now h = search (durable, soft-IsDurable)
evaluate_in-IsDurable hard_critical_degrade m v now h = search durable

consume-IsDurable : (m : Manager) → IsDurable m → IsDurable (consume_flatten_request m).0
unfolding consume_flatten_request
consume-IsDurable m h = elim (Bool-cases m.flatten_latched) [
  | inl e ↦ simp e (persist-IsDurable (record m { flatten_latched = false }))
  | inr e ↦ simp e h
]

hydrate-IsDurable : (m : Manager) → IsDurable m → IsDurable (hydrate_from_vault m)
unfolding hydrate_from_vault
hydrate-IsDurable m h = simp h.hydrated h

pub apply-IsDurable : (m : Manager) (c : Call) → IsDurable m → IsDurable (apply m c)
unfolding apply evaluate_from_slo
apply-IsDurable m (evaluate v now) h =
    if-IsDurable (is_hard_breach v.severity) _ _ (hard-IsDurable m _ now)
      (evaluate_in-IsDurable m.mode m v now h)
apply-IsDurable m (soft reason now) h = soft-IsDurable m reason now h
apply-IsDurable m (recon reason now) h = recon-IsDurable m reason now h
apply-IsDurable m (hard reason now) h = hard-IsDurable m reason now
apply-IsDurable m (reset reason) h = reset-IsDurable m reason
apply-IsDurable m consume h = consume-IsDurable m h
apply-IsDurable m hydrate h = hydrate-IsDurable m h

run-IsDurable : (m : Manager) (cs : List Call) → IsDurable m → IsDurable (run m cs)
unfolding run
run-IsDurable m [] h = h
run-IsDurable m (c ∷ cs) h = run-IsDurable (apply m c) cs (apply-IsDurable m c h)

-- A process that has read the row of its predecessor.
unfoldable pub boot : Bool → Option Persisted → Manager
unfolding hydrate_from_vault
boot notifier vault = hydrate_from_vault (new_manager notifier vault)

pub boot-IsDurable : (b : Bool) (vault : Option Persisted) → IsDurable (boot b vault)
unfolding boot
boot-IsDurable b none = record { hydrated = refl; agrees = (refl, refl, refl, refl) }
boot-IsDurable b (some p) = record { hydrated = refl; agrees = (refl, refl, refl, refl) }

boot-Agrees :
    (m : Manager) (b : Bool) (vault : Option Persisted)
    → Agrees m vault
    → let r = boot b vault in
      (r.mode ≡ m.mode)
      × (r.reason ≡ m.reason)
      × (r.activated_at ≡ m.activated_at)
      × (r.flatten_latched ≡ m.flatten_latched)
      × (r.streak ≡ 0)
unfolding boot
boot-Agrees m b none (e, f, g, h) = (sym e, sym f, sym g, sym h, refl)
boot-Agrees m b (some p) (e, f, g, h) = (sym e, sym f, sym g, sym h, refl)

-- Whatever calls a booted manager has served, a process that is started over the row it leaves has
-- its mode, reason, entry time and flatten latch, and a recovery streak of zero.
pub restart_keeps_mode :
    (b b' : Bool) (vault : Option Persisted) (cs : List Call)
    → let m = run (boot b vault) cs in
      let r = boot b' m.vault in
      (r.mode ≡ m.mode)
      × (r.reason ≡ m.reason)
      × (r.activated_at ≡ m.activated_at)
      × (r.flatten_latched ≡ m.flatten_latched)
      × (r.streak ≡ 0)
restart_keeps_mode b b' vault cs =
    let m = run (boot b vault) cs in
    boot-Agrees m b' m.vault (run-IsDurable (boot b vault) cs (boot-IsDurable b vault)).agrees

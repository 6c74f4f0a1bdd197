-- ===== src/Engine/Degradation.antt =====
-- src/engine/degradation_manager.py, with the row of src/persistence/governance_state_store.py that
-- it writes and reads. Time is a number that the caller passes (`datetime.now`). A message to the
-- notifier or to the pager is a `Notice`, oldest first; what a failing channel loses is not modelled,
-- since every failure is caught there.
pub mod Modes
pub mod Recovery
pub mod Restart
pub mod Flatten
mod Examples
use systematic_trading_valid.Common.{
  Bool, Eq, List, Option, [], arith, beq_iff, false, if◌then◌else◌, nat_beq, nat_eq, none, some,
  true, ℕ, ◌==◌, ◌↔◌, ◌≡◌,
}
use systematic_trading_valid.Common.Text.{Text, text, text_eq}

pub data Mode : Type 0 where
  normal soft_degrade recon_degraded_manage hard_critical_degrade : Mode

abbrev mode_number : Mode → ℕ
mode_number normal = 0
mode_number soft_degrade = 1
mode_number recon_degraded_manage = 2
mode_number hard_critical_degrade = 3

abbrev pub mode_beq : Mode → Mode → Bool
mode_beq a b = nat_beq (mode_number a) (mode_number b)

pub mode_beq_iff : (a b : Mode) → (mode_beq a b ≡ true) ↔ (a ≡ b)
mode_beq_iff a b = ground arith

instance abbrev pub mode_eq : Eq Mode
mode_eq = record { same = mode_beq; same_iff = mode_beq_iff }

-- `OperationalMode.value`
abbrev pub mode_value : Mode → Text
mode_value normal = text "NORMAL"
mode_value soft_degrade = text "SOFT_DEGRADE"
mode_value recon_degraded_manage = text "RECON_DEGRADED_MANAGE"
mode_value hard_critical_degrade = text "HARD_CRITICAL_DEGRADE"

-- `OperationalMode(value)`; `none` is its `ValueError`.
unfoldable pub parse_mode : Text → Option Mode
parse_mode t =
    if t == mode_value normal
    then some normal
    else if t == mode_value soft_degrade
    then some soft_degrade
    else if t == mode_value recon_degraded_manage
    then some recon_degraded_manage
    else if t == mode_value hard_critical_degrade
    then some hard_critical_degrade
    else none

abbrev pub soft_recovery_streak : ℕ
soft_recovery_streak = 3

abbrev pub hard_recovery_streak : ℕ
hard_recovery_streak = 6

-- `IntegritySeverity` of src/engine/slo_monitor.py
pub data Severity : Type 0 where
  ok_verdict warning soft_breach hard_breach : Severity

-- The two fields of `DataIntegrityVerdict` that the manager reads.
pub record Verdict : Type 0 where
  pub severity : Severity
  pub reasons : List Text

pub data Notice : Type 0 where
  entered webhook : Text → Notice
  resolved : Notice
  recovered : Mode → Text → Notice

-- `PersistedGovernanceState`
pub record Persisted : Type 0 where
  pub degradation_mode : Text
  pub trigger_reason : Text
  pub entered_at : Option ℕ
  pub flatten_latched : Bool
  pub recovery_streak : ℕ

pub record Manager : Type 0 where
  pub mode : Mode
  pub reason : Text
  pub activated_at : Option ℕ
  pub streak : ℕ
  pub flatten_latched : Bool
  pub hydrated : Bool
  pub has_notifier : Bool
  pub vault : Option Persisted
  pub notices : List Notice

-- A new process over the row that the last one left.
abbrev pub new_manager : Bool → Option Persisted → Manager
new_manager notifier vault = record {
  mode = normal;
  reason = [];
  activated_at = none;
  streak = 0;
  flatten_latched = false;
  hydrated = false;
  has_notifier = notifier;
  vault = vault;
  notices = [];
}

pub record State : Type 0 where
  pub mode : Mode
  pub block_new_entries : Bool
  pub ignore_model_signals : Bool
  pub force_emergency_flatten : Bool
  pub bypass_standard_timers : Bool
  pub allow_exit_tracking : Bool
  pub reason : Text
  pub activated_at : Option ℕ

abbrev stamp : Option ℕ → ℕ → Option ℕ
stamp none now = some now
stamp (some t) now = some t

unfoldable pub build_state : Mode → Text → Option ℕ → ℕ → State
build_state soft_degrade reason since now = record {
  mode = soft_degrade;
  block_new_entries = true;
  ignore_model_signals = false;
  force_emergency_flatten = false;
  bypass_standard_timers = false;
  allow_exit_tracking = true;
  reason = reason;
  activated_at = stamp since now;
}
build_state recon_degraded_manage reason since now = record {
  mode = recon_degraded_manage;
  block_new_entries = true;
  ignore_model_signals = false;
  force_emergency_flatten = false;
  bypass_standard_timers = false;
  allow_exit_tracking = true;
  reason = reason;
  activated_at = stamp since now;
}
build_state hard_critical_degrade reason since now = record {
  mode = hard_critical_degrade;
  block_new_entries = true;
  ignore_model_signals = true;
  force_emergency_flatten = true;
  bypass_standard_timers = true;
  allow_exit_tracking = false;
  reason = reason;
  activated_at = stamp since now;
}
build_state normal reason since now = record {
  mode = normal;
  block_new_entries = false;
  ignore_model_signals = false;
  force_emergency_flatten = false;
  bypass_standard_timers = false;
  allow_exit_tracking = true;
  reason = reason;
  activated_at = since;
}

unfoldable pub current_state : Manager → ℕ → State
unfolding build_state
current_state m now = build_state m.mode m.reason m.activated_at now

-- `_persist_state`, with the upsert of `persist_governance_state`
unfoldable pub persist_state : Manager → Manager
persist_state m = record m {
  vault = some (record {
    degradation_mode = mode_value m.mode;
    trigger_reason = m.reason;
    entered_at = m.activated_at;
    flatten_latched = m.flatten_latched;
    recovery_streak = m.streak;
  });
  hydrated = true;
}

-- ===== src/Engine/Degradation/Modes.antt =====
-- The transitions between the operational modes. Each returns the manager; the `DegradationState`
-- that the source returns is `current_state` of it.
use systematic_trading_valid.Common.{
  Bool, List, Option, [], false, if◌then◌else◌, leb, nat_eq, none, not, some, true, ℕ, ◌++◌, ◌+◌,
  ◌==◌, ◌∷◌,
}
use systematic_trading_valid.Common.Text.{Text, text, text_eq}
use systematic_trading_valid.Engine.Degradation.{
  Manager, Mode, Severity, Verdict, current_state, entered, hard_breach, hard_critical_degrade,
  hard_recovery_streak, mode_eq, normal, ok_verdict, parse_mode, persist_state,
  recon_degraded_manage, recovered, resolved, soft_breach, soft_degrade, soft_recovery_streak,
  webhook,
}
use systematic_trading_valid.Engine.Escalation.{level_eq, or_else}

-- `_dispatch_degradation_entered`: the notifier if there is one, and always the pager
unfoldable pub dispatch_entered : Manager → Manager
dispatch_entered m = record m {
  notices =
      m.notices ++ (if m.has_notifier then entered m.reason ∷ [] else []) ++ webhook m.reason ∷ [];
}

unfoldable pub dispatch_recovered : Manager → Manager
dispatch_recovered m =
    if m.has_notifier
    then record m { notices = m.notices ++ resolved ∷ recovered m.mode m.reason ∷ [] }
    else m

unfoldable pub apply_hard_critical_degrade : Manager → Text → ℕ → Manager
unfolding dispatch_entered persist_state
apply_hard_critical_degrade m reason now =
    let entering = not (m.mode == hard_critical_degrade) in
    let m' = persist_state (record m {
      mode = hard_critical_degrade;
      reason = reason;
      activated_at = if entering then some now else m.activated_at;
      streak = 0;
      flatten_latched = true;
    }) in
    if entering then dispatch_entered m' else m'

unfoldable pub apply_soft_degrade : Manager → Text → ℕ → Manager
unfolding persist_state
apply_soft_degrade m reason now =
    let entering = not (m.mode == soft_degrade) in
    if m.mode == hard_critical_degrade
    then m
    else persist_state (record m {
      mode = soft_degrade;
      reason = reason;
      flatten_latched = false;
      activated_at = if entering then some now else m.activated_at;
      streak = if entering then 0 else m.streak;
    })

unfoldable pub apply_recon_degraded_manage : Manager → Text → ℕ → Manager
unfolding persist_state
apply_recon_degraded_manage m reason now =
    if m.mode == hard_critical_degrade
    then m
    else persist_state (record m {
      mode = recon_degraded_manage;
      reason = reason;
      activated_at = some now;
      streak = 0;
      flatten_latched = false;
    })

unfoldable pub downgrade_hard_to_soft : Manager → Text → ℕ → Manager
unfolding dispatch_recovered persist_state
downgrade_hard_to_soft m reason now = dispatch_recovered (
    persist_state (record m {
      mode = soft_degrade;
      reason = reason;
      activated_at = some now;
      streak = 0;
      flatten_latched = false;
    }))

unfoldable pub reset_to_normal : Manager → Text → Manager
unfolding dispatch_recovered persist_state
reset_to_normal m reason =
    let m' = persist_state (record m {
      mode = normal;
      reason = reason;
      activated_at = none;
      streak = 0;
      flatten_latched = false;
    }) in
    if m.mode == normal then m' else dispatch_recovered m'

-- `"|".join(reasons) or default`
abbrev pub join_reasons : List Text → Text
join_reasons [] = []
join_reasons (r ∷ []) = r
join_reasons (r ∷ s ∷ rs) = r ++ (b'|' ∷ join_reasons (s ∷ rs))

abbrev pub reason_or : List Text → Text → Text
reason_or rs default = or_else (join_reasons rs) default

-- `if verdict.severity == OK: self._recovery_streak += 1`
abbrev pub credit : Severity → ℕ → ℕ
credit ok_verdict n = n + 1
credit _ n = n

abbrev pub is_soft_breach : Severity → Bool
is_soft_breach soft_breach = true
is_soft_breach _ = false

abbrev pub is_hard_breach : Severity → Bool
is_hard_breach hard_breach = true
is_hard_breach _ = false

-- The branch of `evaluate_from_slo` for a verdict that is no hard breach, by the present mode.
unfoldable pub evaluate_in : Mode → Manager → Verdict → ℕ → Manager
unfolding downgrade_hard_to_soft reset_to_normal apply_soft_degrade persist_state
evaluate_in hard_critical_degrade m v now =
    let m' = record m { streak = credit v.severity m.streak } in
    if leb hard_recovery_streak m'.streak
    then downgrade_hard_to_soft m' (text "hard_critical_recovered_to_soft") now
    else persist_state m'
evaluate_in soft_degrade m v now =
    let m' = record m { streak = credit v.severity m.streak } in
    if leb soft_recovery_streak m'.streak
    then reset_to_normal m' (text "slo_recovered")
    else persist_state m'
evaluate_in recon_degraded_manage m v now =
    if is_soft_breach v.severity
    then apply_soft_degrade m (reason_or v.reasons (text "soft_slo_breach")) now
    else m
evaluate_in normal m v now =
    if is_soft_breach v.severity
    then apply_soft_degrade m (reason_or v.reasons (text "soft_slo_breach")) now
    else persist_state (record m { streak = 0 })

unfoldable pub evaluate_from_slo : Manager → Verdict → ℕ → Manager
unfolding apply_hard_critical_degrade evaluate_in
evaluate_from_slo m v now =
    if is_hard_breach v.severity
    then apply_hard_critical_degrade m (reason_or v.reasons (text "hard_slo_breach")) now
    else evaluate_in m.mode m v now

-- `SignalAction` of src/models.py
pub data SignalAction : Type 0 where
  long short exit hold : SignalAction

abbrev pub is_entry : SignalAction → Bool
is_entry long = true
is_entry short = true
is_entry _ = false

unfoldable pub should_block_entry_action : Manager → Option SignalAction → ℕ → Bool
unfolding current_state
should_block_entry_action m none now = false
should_block_entry_action m (some a) now =
    if not (current_state m now).block_new_entries then false else is_entry a

unfoldable pub consume_flatten_request : Manager → Manager × Bool
unfolding persist_state
consume_flatten_request m =
    if not m.flatten_latched
    then (m, false)
    else (persist_state (record m { flatten_latched = false }), true)

-- The mode of a persisted row; a value that is no mode is read as NORMAL.
abbrev pub or_normal : Option Mode → Mode
or_normal none = normal
or_normal (some m) = m

unfoldable pub hydrate_from_vault : Manager → Manager
unfolding parse_mode
hydrate_from_vault m = if m.hydrated then m else elim m.vault [
  | none ↦ record m { hydrated = true }
  | some p ↦ record m {
    mode = or_normal (parse_mode p.degradation_mode);
    reason = p.trigger_reason;
    activated_at = p.entered_at;
    flatten_latched = p.flatten_latched;
    streak = 0;
    hydrated = true;
  }
]

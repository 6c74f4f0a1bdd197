-- ===== src/Control/Watchdog.antt =====
-- src/control/heartbeat_watchdog.py: one evaluation of the liveness watchdog. The market calendar, the
-- heartbeat store and its parsed status are the reading that a check takes; times are microseconds.
-- The escalation is the engine's, which has a snapshot: a `NullEscalation`, which has none, is left out.
pub mod Recovery
mod Examples
use systematic_trading_valid.Common.{
  Bool, List, Option, [], false, if◌then◌else◌, leb, ltb, nat_eq, none, not, pair_eq, some, suc,
  true, ℕ, ◌&&◌, ◌+◌, ◌==◌, ◌∷◌,
}
use systematic_trading_valid.Common.Text.{Text, lower, text, text_eq, upper}
use systematic_trading_valid.Engine.Escalation.{
  Level, Order, Snapshot, entry_gate_halt, level_eq, nominal, transition,
}

-- What one check reads: the clock, the calendar, the newest beat, and that beat's status fields.
pub record Reading : Type 0 where
  pub now : ℕ
  pub market_open : Bool
  pub latest : Option ℕ
  pub last_cycle : Option ℕ
  pub gate : Option Text

pub record Watchdog : Type 0 where
  pub threshold : ℕ
  pub started_at : ℕ
  pub allow_deesc : Bool
  pub streak_required : ℕ
  pub fresh_streak : ℕ
  pub escalation : Snapshot

-- `auto_deescalation_enabled and environment.lower() != "live"`
unfoldable pub new_watchdog : ℕ → ℕ → Text → Bool → ℕ → Snapshot → Watchdog
new_watchdog threshold started environment enabled required escalation = record {
  threshold = threshold;
  started_at = started;
  allow_deesc = enabled && not (lower environment == text "live");
  streak_required = required;
  fresh_streak = 0;
  escalation = escalation;
}

pub data Reason : Type 0 where
  market_closed startup_grace stale_heartbeat engine_cycle_stale gate_blocked healthy : Reason

pub data Notice : Type 0 where
  heartbeat_stale consumption_stalled halted_by_design recovered : Notice

abbrev pub in_grace : Watchdog → Reading → Bool
in_grace w r = leb w.started_at r.now && ltb r.now (w.started_at + w.threshold)

-- `age is None or age > threshold`
abbrev pub is_stale : Watchdog → Reading → Bool
is_stale w r = elim r.latest [ none ↦ true | some t ↦ ltb (t + w.threshold) r.now ]

abbrev pub cycle_is_stale : Watchdog → Reading → Bool
cycle_is_stale w r = elim r.last_cycle [ none ↦ false | some t ↦ ltb (t + w.threshold) r.now ]

abbrev pub is_blocked : Reading → Bool
is_blocked r = elim r.gate [ none ↦ false | some g ↦ upper g == text "BLOCKED" ]

-- The branch that a check returns from.
unfoldable pub reason_of : Watchdog → Reading → Reason
reason_of w r =
    if not r.market_open
    then market_closed
    else if in_grace w r
    then startup_grace
    else if is_stale w r
    then stale_heartbeat
    else if cycle_is_stale w r
    then engine_cycle_stale
    else if is_blocked r
    then gate_blocked
    else healthy

abbrev pub own_name : Text
own_name = text "heartbeat_watchdog"

abbrev pub order : Level → Text → Order
order level by = record {
  new_level = level;
  scope = text "GLOBAL";
  strategy = none;
  symbol = none;
  by = by;
}

abbrev pub trip : Watchdog → Watchdog
trip w = record w {
  fresh_streak = 0;
  escalation = transition w.escalation (order entry_gate_halt own_name);
}

-- The halt is the watchdog's own and commands nothing more.
abbrev pub may_deescalate : Snapshot → Bool
may_deescalate s =
    (s.level == entry_gate_halt)
    && (s.commanded_by == own_name)
    && not s.portfolio_liquidation_commanded
    && not s.engine_shutdown_latched

unfoldable pub stay_healthy : Watchdog → Watchdog
stay_healthy w =
    let streak = suc w.fresh_streak in
    if w.allow_deesc && leb w.streak_required streak && may_deescalate w.escalation
    then record w {
      fresh_streak = 0;
      escalation = transition w.escalation (order nominal (text "heartbeat_watchdog_recovery"));
    }
    else record w { fresh_streak = streak }

abbrev pub react : Reason → Watchdog → Watchdog × List Notice
react market_closed w = (w, [])
react startup_grace w = (w, [])
react stale_heartbeat w = (trip w, heartbeat_stale ∷ [])
react engine_cycle_stale w = (trip w, consumption_stalled ∷ [])
react gate_blocked w = (record w { fresh_streak = 0 }, recovered ∷ halted_by_design ∷ [])
react healthy w = (stay_healthy w, recovered ∷ [])

unfoldable pub check : Watchdog → Reading → Watchdog × List Notice
check w r = react (reason_of w r) w

-- The reading of each poll in turn.
unfoldable pub run_checks : Watchdog → List Reading → Watchdog
run_checks w [] = w
run_checks w (r ∷ rs) = run_checks (check w r).0 rs

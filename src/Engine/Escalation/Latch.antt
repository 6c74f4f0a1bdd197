-- ===== src/Engine/Escalation/Latch.antt =====
-- `EnginePreemptionLatch`: an escalation engine, an armed flag and the pending command.
use systematic_trading_valid.Common.{
  Bool, Option, false, if◌then◌else◌, nat_eq, none, not, some, true, ℕ, ◌+◌, ◌==◌, ◌||◌,
}
use systematic_trading_valid.Common.Text.{Text, text, text_eq}
use systematic_trading_valid.Engine.Escalation.{
  Level, Snapshot, fresh, global_flatten_and_halt, level_eq, preempts_in_flight_cycle,
  requires_preemption, transition,
}

-- The part of a `ControlCommand` that the latch reads: its id and `command_type.value`.
pub record Command : Type 0 where
  pub command_id : ℕ
  pub command_type : Text

pub record Checkpoint : Type 0 where
  pub phase : Text
  pub step : Text
  pub strategy_id : Option Text
  pub symbol : Option Text

pub record Latch : Type 0 where
  pub escalation : Snapshot
  pub armed : Bool
  pub pending : Option Command
  pub checkpoint : Checkpoint
  pub bound : Bool
  pub loop_closed : Bool
  pub wakes : ℕ

abbrev pub idle : Text → Checkpoint
idle step = record { phase = text "idle"; step = step; strategy_id = none; symbol = none }

abbrev pub new_latch : Latch
new_latch = record {
  escalation = fresh;
  armed = false;
  pending = none;
  checkpoint = idle (text "start");
  bound = false;
  loop_closed = false;
  wakes = 0;
}

unfoldable pub bind_cycle_wake : Latch → Bool → Latch
bind_cycle_wake l closed = record l { bound = true; loop_closed = closed }

unfoldable pub wake_cycle : Latch → Latch
wake_cycle l = if not l.bound || l.loop_closed then l else record l { wakes = l.wakes + 1 }

unfoldable pub arm_command : Latch → Command → Level → Text → Option Text → Option Text → Latch
unfolding wake_cycle
arm_command l command level scope strategy symbol =
    let e = transition l.escalation (record {
      new_level = level;
      scope = scope;
      strategy = strategy;
      symbol = symbol;
      by = command.command_type;
    }) in
    let arms = preempts_in_flight_cycle level || (level == global_flatten_and_halt) in
    wake_cycle
      (record l { escalation = e; pending = some command; armed = if arms then true else l.armed })

unfoldable pub arm_flatten_and_halt : Latch → Command → Latch
unfolding arm_command
arm_flatten_and_halt l command =
    arm_command l command global_flatten_and_halt (text "GLOBAL") none none

unfoldable pub should_preempt : Latch → Option Text → Option Text → Bool
should_preempt l strategy symbol =
    if not l.armed then false else requires_preemption l.escalation strategy symbol

unfoldable pub set_checkpoint : Latch → Checkpoint → Latch
set_checkpoint l c = record l { checkpoint = c }

unfoldable pub take_pending_command : Latch → Latch × Option Command
take_pending_command l = (record l { pending = none }, l.pending)

unfoldable pub clear_preemption_arm : Latch → Latch
clear_preemption_arm l = record l {
  armed = false;
  pending = none;
  checkpoint = idle (text "cleared");
}

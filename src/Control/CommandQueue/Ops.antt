-- ===== src/Control/CommandQueue/Ops.antt =====
-- src/control/command_queue.py: the calls that the processes make on the bus, in sequence.
use systematic_trading_valid.Common.{List, Option, Result, [], err, nat_eq, ok, pair_eq, ℕ, ◌∷◌}
use systematic_trading_valid.Common.Text.{Text, text_eq}
use systematic_trading_valid.Control.CommandQueue.{
  CommandType, EnqueueError, Row, Table, enqueue_control_command_local, status_eq,
}
use systematic_trading_valid.Control.CommandQueue.Claims.{
  Bus, Faults, Reply, mark_command_completed, mark_command_failed, mark_command_processing,
  try_claim_command,
}
use systematic_trading_valid.Control.CommandQueue.Retire.{
  max_reclaim_attempts, reclaim_orphaned_processing_commands, retire_expired_commands,
  retire_stale_processing_orphans,
}
use systematic_trading_valid.Control.CommandQueue.Mirror.{mirror_local_commands_to_supabase}

-- What the processes do to the bus: every call of the module that writes a row.
pub data Op : Type 0 where
  stage : Row → Op
  claim : (id now : ℕ) → Faults → Op
  complete : (id now : ℕ) → Reply → Op
  fail : (id : ℕ) → Text → ℕ → Reply → Op
  reclaim : (now : ℕ) → Text → Op
  expire : (now : ℕ) → Op
  retire : Text → (now age : ℕ) → Option CommandType → Op
  start : (id now : ℕ) → Reply → Op
  mirror : (limit : ℕ) → List Reply → Op

-- A staged row that the table refuses leaves it as it was.
abbrev pub staged : Table → Result EnqueueError Table → Table
staged t (ok u) = u
staged t (err e) = t

unfoldable pub apply : Bus → Op → Bus
apply b (stage r) = record b { local = staged b.local (enqueue_control_command_local r b.local) }
apply b (claim id now faults) = (try_claim_command b id now faults).0
apply b (complete id now reply) = (mark_command_completed b id now reply).0
apply b (fail id message now reply) = (mark_command_failed b id message now reply).0
apply b (reclaim now poison) = record b {
  local = (reclaim_orphaned_processing_commands max_reclaim_attempts now poison b.local).0;
}
apply b (expire now) = record b { local = (retire_expired_commands now b.local).0 }
apply b (retire reason now age type) = record b {
  local = (retire_stale_processing_orphans reason now age type b.local).0;
}
apply b (start id now reply) = mark_command_processing b id now reply
apply b (mirror limit replies) = mirror_local_commands_to_supabase b limit replies

unfoldable pub run : Bus → List Op → Bus
run b [] = b
run b (o ∷ os) = run (apply b o) os

-- ===== src/Control/CommandQueue/Retire.antt =====
-- src/control/command_queue.py: the recovery of orphaned commands, the end of expired and of stale ones.
-- `command_id` is the primary key, so an update of the row that was read changes that row alone, and
-- the source's loops are maps over the rows.
use systematic_trading_valid.Common.{
  Bool, Option, count_if, false, if◌then◌else◌, leb, ltb, nat_eq, none, not, pair_eq, some, true, ℕ,
  ◌&&◌, ◌++◌, ◌+◌, ◌-◌, ◌==◌,
}
use systematic_trading_valid.Common.Text.{Text, text, text_eq}
use systematic_trading_valid.Control.CommandQueue.{
  CommandType, Row, Table, command_type_beq, failed, is_terminal, pending, processing, status_eq,
  update_where,
}

-- `MAX_RECLAIM_ATTEMPTS`
abbrev pub max_reclaim_attempts : ℕ
max_reclaim_attempts = 3

abbrev pub is_orphan : Row → Bool
is_orphan r = r.status == processing

-- One pass of the loop: the poisoned row is marked failed, and another goes back to pending.
abbrev pub reclaim_row : ℕ → ℕ → Text → Row → Row
reclaim_row max_attempts now poison r =
    if leb max_attempts r.attempts
    then record r { status = failed; processed_at = some now; error_message = some poison }
    else record r { status = pending; attempts = r.attempts + 1 }

-- With the number of commands that fire again
unfoldable pub reclaim_orphaned_processing_commands : ℕ → ℕ → Text → Table → Table × ℕ
reclaim_orphaned_processing_commands max_attempts now poison t = (
  update_where is_orphan (reclaim_row max_attempts now poison) t,
  count_if (λ r. is_orphan r && ltb r.attempts max_attempts) t,
)

abbrev pub is_expired : ℕ → Row → Bool
is_expired now r =
    not (is_terminal r.status) && elim r.expires_at [ none ↦ false | some e ↦ ltb e now ]

abbrev pub fail_row : ℕ → Text → Row → Row
fail_row now message r = record r {
  status = failed;
  processed_at = some now;
  error_message = some message;
}

unfoldable pub retire_expired_commands : ℕ → Table → Table × ℕ
retire_expired_commands now t = (
  update_where (is_expired now) (fail_row now (text "expired: TTL elapsed before terminal")) t,
  count_if (is_expired now) t,
)

-- `AND command_type = ?`, where one is given
abbrev pub of_type : Option CommandType → Row → Bool
of_type none r = true
of_type (some c) r = command_type_beq c r.command_type

abbrev pub is_stale : ℕ → Option CommandType → Row → Bool
is_stale cutoff type r = (r.status == processing) && ltb r.created_at cutoff && of_type type r

unfoldable pub retire_stale_processing_orphans :
    Text → ℕ → ℕ → Option CommandType → Table → Table × ℕ
retire_stale_processing_orphans reason now age type t = (
  update_where (is_stale (now - age) type) (fail_row now (text "retired: " ++ reason)) t,
  count_if (is_stale (now - age) type) t,
)

-- ===== src/Control/CommandQueue/Spent.antt =====
-- A command that is pending in neither table stays so.
use systematic_trading_valid.Common.{
  All, Bool, List, [], false, nat_eq, none, pair_eq, refl, true, ℕ, ◌++◌, ◌-◌, ◌==◌, ◌∷◌, ◌≡◌,
}
use systematic_trading_valid.Common.Text.{text, text_eq}
use systematic_trading_valid.Control.CommandQueue.{completed, failed, status_eq}
use systematic_trading_valid.Control.CommandQueue.Claims.{
  Bus, mark_command_completed, mark_command_failed, mark_command_processing, try_claim_command,
}
use systematic_trading_valid.Control.CommandQueue.Retire.{
  fail_row, is_expired, is_stale, retire_expired_commands, retire_stale_processing_orphans,
}
use systematic_trading_valid.Control.CommandQueue.Mirror.{mirror_local_commands_to_supabase}
use systematic_trading_valid.Control.CommandQueue.Ops.{
  Op, apply, claim, complete, expire, fail, mirror, reclaim, retire, run, stage, start,
}
use systematic_trading_valid.Control.CommandQueue.Quiet.{
  IsSpent, claim_on-IsSpent, failed_now, mirror_on-IsSpent, processing_on-IsSpent, stage-NoPending,
  terminal-IsSpent, update-NoPending,
}

-- The operations that may put a command into the queue (again).
abbrev pub queues : ℕ → Op → Bool
queues id (stage r) = r.command_id == id
queues id (reclaim now poison) = true
queues id _ = false

apply-IsSpent :
    (id : ℕ) (b : Bus) (o : Op) → queues id o ≡ false → IsSpent id b → IsSpent id (apply b o)
unfolding apply mark_command_completed mark_command_failed try_claim_command retire_expired_commands
    retire_stale_processing_orphans mark_command_processing mirror_local_commands_to_supabase
apply-IsSpent id b (stage r) q h = record {
  on_remote = h.on_remote;
  on_local = stage-NoPending id r b.local q h.on_local;
}
apply-IsSpent id b (claim j now faults) q h =
    claim_on-IsSpent b.remote b.local id j now faults h.on_remote h.on_local
apply-IsSpent id b (complete j now reply) q h =
    terminal-IsSpent b id j completed none now reply refl h
apply-IsSpent id b (fail j message now reply) q h =
    terminal-IsSpent b id j failed _ now reply refl h
apply-IsSpent id b (reclaim now poison) q h = cc
apply-IsSpent id b (expire now) q h = record {
  on_remote = h.on_remote;
  on_local =
      update-NoPending id (is_expired now)
        (fail_row now (text "expired: TTL elapsed before terminal")) b.local
        (failed_now id now (text "expired: TTL elapsed before terminal")) h.on_local;
}
apply-IsSpent id b (retire reason now age type) q h = record {
  on_remote = h.on_remote;
  on_local =
      update-NoPending id (is_stale (now - age) type) (fail_row now (text "retired: " ++ reason))
        b.local (failed_now id now (text "retired: " ++ reason)) h.on_local;
}
apply-IsSpent id b (start j now reply) q h =
    processing_on-IsSpent id b.remote b.local j now reply h.on_remote h.on_local
apply-IsSpent id b (mirror limit replies) q h =
    mirror_on-IsSpent id b.remote b.local limit replies h.on_remote h.on_local

pub run-IsSpent :
    (id : ℕ) (b : Bus) (os : List Op)
    → All (λ o. queues id o ≡ false) os
    → IsSpent id b
    → IsSpent id (run b os)
unfolding run
run-IsSpent id b [] q h = h
run-IsSpent id b (o ∷ os) (q, qs) h = run-IsSpent id (apply b o) os qs (apply-IsSpent id b o q h)

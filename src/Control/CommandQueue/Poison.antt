-- ===== src/Control/CommandQueue/Poison.antt =====
-- A command fires a bounded number of times on the local queue.
use systematic_trading_valid.Common.{
  Bool, Bool-cases, List, Option, [], any, arith, if◌then◌else◌, inl, inr, nat_beq_iff, nat_eq,
  none, pair_eq, refl, some, suc, sym, take, true, ℕ, ◌&&◌, ◌++◌, ◌+◌, ◌-◌, ◌==◌, ◌∷◌, ◌≡◌, ◌≤◌,
}
use systematic_trading_valid.Common.Text.{Text, text, text_eq}
use systematic_trading_valid.Control.CommandQueue.{
  Row, Status, Table, completed, failed, is_terminal, pending_with_id, start_processing, status_eq,
  update_where, with_id,
}
use systematic_trading_valid.Control.CommandQueue.Claims.{
  Bus, claim_local, finish, mark_command_completed, mark_command_failed, mark_command_processing,
  mark_terminal, open_with_id, try_claim_command,
}
use systematic_trading_valid.Control.CommandQueue.Retire.{
  fail_row, is_expired, is_orphan, is_stale, max_reclaim_attempts,
  reclaim_orphaned_processing_commands, reclaim_row, retire_expired_commands,
  retire_stale_processing_orphans,
}
use systematic_trading_valid.Control.CommandQueue.Mirror.{mirror_local_commands_to_supabase}
use systematic_trading_valid.Control.CommandQueue.Ops.{
  Op, apply, claim, complete, expire, fail, mirror, reclaim, retire, run, stage, start,
}
use systematic_trading_valid.Control.CommandQueue.Potential.{
  claim-total, finish-le, potential, reclaim-le, stage-potential, start-le, update-has,
  update-potential,
}

abbrev local_bus : Table → Bus
local_bus t = record { remote = none; local = t }

-- A claim of the command that succeeds.
abbrev pub fired : ℕ → Bus → Op → ℕ
fired id b (claim j now faults) = if (j == id) && (try_claim_command b j now faults).1 then 1 else 0
fired id b _ = 0

-- The claims of the command that succeed in a run.
abbrev pub fires : ℕ → Bus → List Op → ℕ
fires id b [] = 0
fires id b (o ∷ os) = fired id b o + fires id (apply b o) os

apply-local_bus :
    (t : Table) (o : Op) → apply (local_bus t) o ≡ local_bus (apply (local_bus t) o).local
unfolding apply try_claim_command mark_command_completed mark_command_failed mark_terminal
    mark_command_processing mirror_local_commands_to_supabase
apply-local_bus t (stage r) = refl
apply-local_bus t (claim id now faults) = refl
apply-local_bus t (complete id now reply) = refl
apply-local_bus t (fail id message now reply) = refl
apply-local_bus t (reclaim now poison) = refl
apply-local_bus t (expire now) = refl
apply-local_bus t (retire reason now age type) = refl
apply-local_bus t (start id now reply) = refl
apply-local_bus t (mirror limit replies) = refl

finish-potential :
    (id j now : ℕ) (s : Status) (message : Option Text) (t : Table)
    → is_terminal s ≡ true
    → potential id (update_where (open_with_id j) (finish s message now) t) ≤ potential id t
finish-potential id j now s message t h =
    update-potential id (open_with_id j) (finish s message now) t
      (λ r e. finish-le id now s message r h) (λ r. refl)

fail-potential :
    (id now : ℕ) (message : Text) (p : Row → Bool) (t : Table)
    → potential id (update_where p (fail_row now message) t) ≤ potential id t
fail-potential id now message p t =
    update-potential id p (fail_row now message) t
      (λ r e. finish-le id now failed (some message) r refl) (λ r. refl)

reclaimed_id :
    (now : ℕ) (poison : Text) (r : Row)
    → (reclaim_row max_reclaim_attempts now poison r).command_id ≡ r.command_id
reclaimed_id now poison r = ground arith

reclaim-potential :
    (id now : ℕ) (poison : Text) (t : Table)
    → potential id (update_where is_orphan (reclaim_row max_reclaim_attempts now poison) t)
      ≤ potential id t
reclaim-potential id now poison t =
    update-potential id is_orphan (reclaim_row max_reclaim_attempts now poison) t
      (reclaim-le id now poison) (reclaimed_id now poison)

started-potential :
    (id j now : ℕ) (t : Table) → potential id (claim_local j now t).0 ≤ potential id t
started-potential id j now t =
    update-potential id (pending_with_id j) (start_processing now) t (λ r e. start-le id now r)
      (λ r. refl)

opened-potential :
    (id j now : ℕ) (t : Table)
    → potential id (update_where (with_id j) (start_processing now) t) ≤ potential id t
opened-potential id j now t =
    update-potential id (with_id j) (start_processing now) t (λ r e. start-le id now r) (λ r. refl)

pending-has : (id : ℕ) (t : Table) → any (pending_with_id id) t ≡ true → any (with_id id) t ≡ true
pending-has id [] h = cc
pending-has id (r ∷ t) h = ground (arith, pending-has id t)

own-claim-potential :
    (id now : ℕ) (t : Table)
    → any (pending_with_id id) t ≡ true
    → suc (potential id (claim_local id now t).0) ≤ potential id t
own-claim-potential id now t h = grind (
  arith,
  pending-has id t h,
  update-has id (pending_with_id id) (start_processing now) t (λ r. refl),
  claim-total id now t h,
)

own-claim-at :
    (id j now : ℕ) (t : Table)
    → j ≡ id
    → any (pending_with_id j) t ≡ true
    → suc (potential id (claim_local j now t).0) ≤ potential id t
own-claim-at id j now t e h = rw (sym e) (own-claim-potential j now t h)

claim-potential :
    (id j now : ℕ) (t : Table)
    → (if (j == id) && (claim_local j now t).1 then 1 else 0) + potential id (claim_local j now t).0
      ≤ potential id t
claim-potential id j now t = elim (Bool-cases ((j == id) && (claim_local j now t).1)) [
  | inl e ↦ simp e (
      omega (
        arith,
        own-claim-at id j now t ((nat_beq_iff j id).0 (ground (arith, e))) (ground (arith, e)),
      ))
  | inr e ↦ simp e (omega (arith, started-potential id j now t))
]

apply-potential :
    (id : ℕ) (t : Table) (o : Op)
    → fired id (local_bus t) o + potential id (apply (local_bus t) o).local ≤ potential id t
unfolding apply try_claim_command mark_command_completed mark_command_failed mark_terminal
    reclaim_orphaned_processing_commands retire_expired_commands retire_stale_processing_orphans
    mark_command_processing mirror_local_commands_to_supabase
apply-potential id t (stage r) = omega (arith, stage-potential id r t)
apply-potential id t (claim j now faults) = claim-potential id j now t
apply-potential id t (complete j now reply) =
    omega (arith, finish-potential id j now completed none t refl)
apply-potential id t (fail j message now reply) =
    omega (arith, finish-potential id j now failed (some (take 2000 message)) t refl)
apply-potential id t (reclaim now poison) = omega (arith, reclaim-potential id now poison t)
apply-potential id t (expire now) =
    omega (
      arith,
      fail-potential id now (text "expired: TTL elapsed before terminal") (is_expired now) t,
    )
apply-potential id t (retire reason now age type) =
    omega (arith, fail-potential id now (text "retired: " ++ reason) (is_stale (now - age) type) t)
apply-potential id t (start j now reply) = omega (arith, opened-potential id j now t)
apply-potential id t (mirror limit replies) = omega arith

resume :
    (id : ℕ) (b : Bus) (t : Table) (os : List Op) (k : ℕ)
    → b ≡ local_bus t
    → fires id (local_bus t) os + potential id (run (local_bus t) os).local ≤ k
    → fires id b os + potential id (run b os).local ≤ k
resume id b t os k e h = rw e h

run-potential :
    (id : ℕ) (t : Table) (os : List Op)
    → fires id (local_bus t) os + potential id (run (local_bus t) os).local ≤ potential id t
unfolding run
run-potential id t [] = omega arith
run-potential id t (o ∷ os) =
    let b' = apply (local_bus t) o in
    omega (
      arith,
      resume id b' b'.local os _ (apply-local_bus t o) (run-potential id b'.local os),
      apply-potential id t o,
    )

-- On a local queue that starts empty, whatever is staged, claimed, marked (as processing again, too),
-- reclaimed, expired and retired in whatever order: the claims of one command that succeed, and so the times that it is
-- carried out, are at most one more than the reclaims that the source allows.
pub fires_bounded :
    (id : ℕ) (os : List Op)
    → fires id (record { remote = none; local = [] }) os ≤ max_reclaim_attempts + 1
fires_bounded id os = omega (arith, run-potential id [] os)

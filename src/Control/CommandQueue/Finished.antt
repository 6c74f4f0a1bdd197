-- ===== src/Control/CommandQueue/Finished.antt =====
-- What the operations do to a local command that is completed or failed.
use mathlib.Core.List.{Memᴰ}
use systematic_trading_valid.Common.{
  All, Bool, Bool-cases, List, Option, [], any, arith, false, if◌then◌else◌, inl, inr, is_some,
  nat_eq, none, pair_eq, some, sym, true, ℕ, ◌&&◌, ◌++◌, ◌-◌, ◌==◌, ◌||◌, ◌∷◌, ◌≡◌,
}
use systematic_trading_valid.Common.Text.{Text, text_eq}
use systematic_trading_valid.Control.CommandQueue.{
  CommandType, Row, Status, Table, completed, enqueue_control_command_local, failed, is_emergency,
  is_terminal, pending_with_id, same_key, start_processing, status_eq,
  transition_local_pending_to_processing, update_where, with_id,
}
use systematic_trading_valid.Control.CommandQueue.Claims.{
  Bus, Faults, Reply, answered, claim_on, finish, lost, mark_command_completed, mark_command_failed,
  mark_command_processing, mark_terminal, never, open_with_id, processing_on, terminal_on,
  try_claim_command,
}
use systematic_trading_valid.Control.CommandQueue.Retire.{
  is_expired, is_orphan, is_stale, reclaim_orphaned_processing_commands, retire_expired_commands,
  retire_stale_processing_orphans,
}
use systematic_trading_valid.Control.CommandQueue.Mirror.{
  mirror_local_commands_to_supabase, mirror_on,
}
use systematic_trading_valid.Control.CommandQueue.Ops.{
  Op, apply, claim, complete, expire, fail, mirror, reclaim, retire, run, stage, staged, start,
}

update-keeps :
    (r : Row) (p : Row → Bool) (f : Row → Row) (t : Table)
    → p r ≡ false
    → Memᴰ r t
    → Memᴰ r (update_where p f t)
update-keeps r p f [] h m = elim m [ ]
update-keeps r p f (x ∷ t) h (Memᴰ.head e) =
    let g : p x ≡ false = rw (sym e) h in simp g (Memᴰ.head e)
update-keeps r p f (x ∷ t) h (Memᴰ.tail m) = elim (Bool-cases (p x)) [
  | inl e ↦ simp e (Memᴰ.tail (update-keeps r p f t h m))
  | inr e ↦ simp e (Memᴰ.tail (update-keeps r p f t h m))
]

append-keeps : (r x : Row) (t : Table) → Memᴰ r t → Memᴰ r (t ++ (x ∷ []))
append-keeps r x [] m = elim m [ ]
append-keeps r x (y ∷ t) (Memᴰ.head e) = Memᴰ.head e
append-keeps r x (y ∷ t) (Memᴰ.tail m) = Memᴰ.tail (append-keeps r x t m)

-- The operation that may open a finished command again
abbrev pub reopens : ℕ → Op → Bool
reopens id (start j now reply) = j == id
reopens id _ = false

module _ (r : Row) (h : is_terminal r.status ≡ true) where
  not_pending : (id : ℕ) → pending_with_id id r ≡ false
  not_pending id = ground arith

  not_open : (id : ℕ) → open_with_id id r ≡ false
  not_open id = ground arith

  not_orphan : is_orphan r ≡ false
  not_orphan = ground arith

  not_expired : (now : ℕ) → is_expired now r ≡ false
  not_expired now = ground arith

  not_stale : (cutoff : ℕ) (type : Option CommandType) → is_stale cutoff type r ≡ false
  not_stale cutoff type = ground arith

  stage-keeps :
      (x : Row) (t : Table) → Memᴰ r t → Memᴰ r (staged t (enqueue_control_command_local x t))
  unfolding enqueue_control_command_local
  stage-keeps x t m = elim (Bool-cases (is_some x.expires_at && is_emergency x.command_type)) [
    | inl e ↦ simp e m
    | inr e ↦
        elim (Bool-cases (any (with_id x.command_id) t || any (same_key x.idempotency_key) t)) [
          | inl d ↦ simp (e, d) m
          | inr d ↦ simp (e, d) (append-keeps r x t m)
        ]
  ]

  terminal-keeps :
      (o : Option Table) (t : Table) (id now : ℕ) (s : Status) (message : Option Text)
      (reply : Reply)
      → Memᴰ r t
      → Memᴰ r
          (terminal_on o
            (update_where (open_with_id id) (finish s message now) t)
            id
            s
            message
            now
            reply).0.local
  terminal-keeps none t id now s message reply m = update-keeps r _ _ t (not_open id) m
  terminal-keeps (some u) t id now s message reply m = update-keeps r _ _ t (not_open id) m

  transition-keeps :
      (id now : ℕ) (fault : Bool) (t : Table)
      → Memᴰ r t
      → Memᴰ r (transition_local_pending_to_processing id now fault t)
  unfolding transition_local_pending_to_processing
  transition-keeps id now true t m = m
  transition-keeps id now false t m = update-keeps r _ _ t (not_pending id) m

  Keeps-if :
      (c : Bool) (x y : Bus × Bool)
      → Memᴰ r x.0.local
      → Memᴰ r y.0.local
      → Memᴰ r (if c then x else y).0.local
  Keeps-if true x y k l = k
  Keeps-if false x y k l = l

  claim-keeps :
      (o : Option Table) (t : Table) (id now : ℕ) (faults : Faults)
      → Memᴰ r t
      → Memᴰ r (claim_on o t id now faults).0.local
  claim-keeps none t id now faults m = update-keeps r _ _ t (not_pending id) m
  claim-keeps (some u) t id now faults m =
      search
        (
          Keeps-if,
          transition-keeps id now faults.mirror_fault t m,
          update-keeps r (pending_with_id id) (start_processing now) t (not_pending id) m,
          m,
        )
        depth 8

  mirror-keeps :
      (o : Option Table) (t : Table) (limit : ℕ) (replies : List Reply)
      → Memᴰ r t
      → Memᴰ r (mirror_on o t limit replies).local
  mirror-keeps none t limit replies m = m
  mirror-keeps (some u) t limit replies m = m

  processing-keeps :
      (o : Option Table) (t : Table) (j now : ℕ) (reply : Reply)
      → with_id j r ≡ false
      → Memᴰ r t
      → Memᴰ r (processing_on o t j now reply).local
  processing-keeps none t j now reply q m = update-keeps r (with_id j) _ t q m
  processing-keeps (some u) t j now answered q m = m
  processing-keeps (some u) t j now lost q m = update-keeps r (with_id j) _ t q m
  processing-keeps (some u) t j now never q m = update-keeps r (with_id j) _ t q m

  other_id : (j : ℕ) → j == r.command_id ≡ false → with_id j r ≡ false
  other_id j q = ground arith

  apply-keeps :
      (b : Bus) (o : Op)
      → reopens r.command_id o ≡ false
      → Memᴰ r b.local
      → Memᴰ r (apply b o).local
  unfolding apply try_claim_command mark_command_completed mark_command_failed mark_terminal
      reclaim_orphaned_processing_commands retire_expired_commands retire_stale_processing_orphans
      mark_command_processing mirror_local_commands_to_supabase
  apply-keeps b (stage x) q m = stage-keeps x b.local m
  apply-keeps b (claim id now faults) q m = claim-keeps b.remote b.local id now faults m
  apply-keeps b (complete id now reply) q m =
      terminal-keeps b.remote b.local id now completed none reply m
  apply-keeps b (fail id message now reply) q m =
      terminal-keeps b.remote b.local id now failed _ reply m
  apply-keeps b (reclaim now poison) q m = update-keeps r _ _ b.local not_orphan m
  apply-keeps b (expire now) q m = update-keeps r _ _ b.local (not_expired now) m
  apply-keeps b (retire reason now age type) q m =
      update-keeps r _ _ b.local (not_stale (now - age) type) m
  apply-keeps b (start j now reply) q m =
      processing-keeps b.remote b.local j now reply (other_id j q) m
  apply-keeps b (mirror limit replies) q m = mirror-keeps b.remote b.local limit replies m

-- A row of the local table that is completed or failed is there, unchanged, after any operations on the bus
-- of which none is a `mark_command_processing` of its id: it is not claimed, marked completed or failed
-- again, reclaimed, expired, retired or overwritten by the mirror.
pub finished_stays :
    (r : Row) (b : Bus) (os : List Op)
    → is_terminal r.status ≡ true
    → All (λ o. reopens r.command_id o ≡ false) os
    → Memᴰ r b.local
    → Memᴰ r (run b os).local
unfolding run
finished_stays r b [] h q m = m
finished_stays r b (o ∷ os) h (q, qs) m =
    finished_stays r (apply b o) os h qs (apply-keeps r h b o q m)

-- ===== src/Control/CommandQueue/Quiet.antt =====
-- The updates of a table that leave no row of a command pending.
use systematic_trading_valid.Common.{
  Bool, Bool-cases, List, Option, [], any, ap, arith, false, if◌then◌else◌, inl, inr, max, nat_eq,
  none, pair_eq, refl, some, suc, take, true, zero, ℕ, ◌++◌, ◌==◌, ◌||◌, ◌∙◌, ◌∷◌, ◌≡◌,
}
use systematic_trading_valid.Common.Text.{Text, text_eq}
use systematic_trading_valid.Control.CommandQueue.{
  Row, Status, Table, enqueue_control_command_local, is_terminal, pending_with_id, start_processing,
  status_eq, transition_local_pending_to_processing, update_where, with_id,
}
use systematic_trading_valid.Control.CommandQueue.Claims.{
  Bus, Faults, Reply, answered, claim_on, finish, lost, mark_terminal, never, open_with_id,
  processing_on, sent_update, terminal_on,
}
use systematic_trading_valid.Control.CommandQueue.Retire.{fail_row}
use systematic_trading_valid.Control.CommandQueue.Mirror.{
  insert_newest, mirror_on, mirror_rows, mirrored_row, newest_first, overwrite, sent_upsert, upsert,
}
use systematic_trading_valid.Control.CommandQueue.Ops.{staged}

-- No row of the command is pending, in a table or in one that may not be there.
abbrev pub NoPending : ℕ → Table → Type 0
NoPending id t = any (pending_with_id id) t ≡ false

abbrev pub NonePending : ℕ → Option Table → Type 0
NonePending id none = Unit
NonePending id (some t) = NoPending id t

pub record IsSpent (id : ℕ) (b : Bus) : Type 0 where
  pub on_remote : NonePending id b.remote
  pub on_local : NoPending id b.local

-- An update that leaves no changed row pending.
pub update-NoPending :
    (id : ℕ) (p : Row → Bool) (f : Row → Row) (t : Table)
    → ((r : Row) → pending_with_id id (f r) ≡ false)
    → NoPending id t
    → NoPending id (update_where p f t)
update-NoPending id p f [] h k = k
update-NoPending id p f (r ∷ rs) h k = ground (arith, update-NoPending id p f rs h, h r)

pub claimed-NoPending :
    (id now : ℕ) (t : Table)
    → NoPending id (update_where (pending_with_id id) (start_processing now) t)
claimed-NoPending id now [] = refl
claimed-NoPending id now (r ∷ rs) = ground (arith, claimed-NoPending id now rs)

started : (id now : ℕ) (r : Row) → pending_with_id id (start_processing now r) ≡ false
started id now r = ground arith

finished :
    (id : ℕ) (message : Option Text) (now : ℕ) (r : Row) (s : Status)
    → is_terminal s ≡ true
    → pending_with_id id (finish s message now r) ≡ false
finished id message now r s h = ground arith

pub failed_now :
    (id now : ℕ) (message : Text) (r : Row) → pending_with_id id (fail_row now message r) ≡ false
failed_now id now message r = ground arith

sent-NoPending :
    (id : ℕ) (reply : Reply) (p : Row → Bool) (f : Row → Row) (t : Table)
    → ((r : Row) → pending_with_id id (f r) ≡ false)
    → NoPending id t
    → NoPending id (sent_update reply p f t)
sent-NoPending id answered p f t h k = update-NoPending id p f t h k
sent-NoPending id lost p f t h k = update-NoPending id p f t h k
sent-NoPending id never p f t h k = k

pub terminal-IsSpent :
    (b : Bus) (id j : ℕ) (s : Status) (message : Option Text) (now : ℕ) (reply : Reply)
    → is_terminal s ≡ true
    → IsSpent id b
    → IsSpent id (mark_terminal b j s message now reply).0
unfolding mark_terminal
terminal-IsSpent b id j s message now reply e h = go b.remote h.on_remote
  where
    f-closed : (r : Row) → pending_with_id id (finish s message now r) ≡ false
    f-closed r = finished id message now r s e

    go :
        (o : Option Table)
        → NonePending id o
        → IsSpent id
            (terminal_on o
              (update_where (open_with_id j) (finish s message now) b.local)
              j
              s
              message
              now
              reply).0
    go none k = record {
      on_remote = tt;
      on_local = update-NoPending id _ _ b.local f-closed h.on_local;
    }
    go (some t) k = record {
      on_remote = sent-NoPending id reply _ _ t f-closed k;
      on_local = update-NoPending id _ _ b.local f-closed h.on_local;
    }

local-NoPending :
    (id j now : ℕ) (fault : Bool) (t : Table)
    → NoPending id t
    → NoPending id (transition_local_pending_to_processing j now fault t)
unfolding transition_local_pending_to_processing
local-NoPending id j now true t h = h
local-NoPending id j now false t h = update-NoPending id _ _ t (started id now) h

IsSpent-if :
    (id : ℕ) (c : Bool) (x y : Bus × Bool)
    → IsSpent id x.0
    → IsSpent id y.0
    → IsSpent id (if c then x else y).0
IsSpent-if id true x y h k = h
IsSpent-if id false x y h k = k

pub both :
    (id : ℕ) (o : Option Table) (t : Table)
    → NonePending id o
    → NoPending id t
    → IsSpent id (record { remote = o; local = t })
both id o t h k = record { on_remote = h; on_local = k }

pub claim_on-IsSpent :
    (o : Option Table) (t : Table) (id j now : ℕ) (faults : Faults)
    → NonePending id o
    → NoPending id t
    → IsSpent id (claim_on o t j now faults).0
claim_on-IsSpent none t id j now faults h k = record {
  on_remote = tt;
  on_local = update-NoPending id _ _ t (started id now) k;
}
claim_on-IsSpent (some u) t id j now faults h k =
    search
      (
        IsSpent-if,
        both,
        sent-NoPending id faults.claim_reply (pending_with_id j) (start_processing now) u
            (started id now) h,
        local-NoPending id j now faults.mirror_fault t k,
        update-NoPending id (pending_with_id j) (start_processing now) t (started id now) k,
        k,
      )
      depth 8

append-NoPending :
    (id : ℕ) (t : Table) (r : Row)
    → (r.command_id == id) ≡ false
    → NoPending id t
    → NoPending id (t ++ (r ∷ []))
append-NoPending id [] r h k = ground arith
append-NoPending id (x ∷ t) r h k = ground (arith, append-NoPending id t r h)

add-NoPending :
    (id : ℕ) (t : Table) (r : Row)
    → pending_with_id id r ≡ false
    → NoPending id t
    → NoPending id (t ++ (r ∷ []))
add-NoPending id [] r h k = ground arith
add-NoPending id (x ∷ t) r h k = ground (arith, add-NoPending id t r h)

pub stage-NoPending :
    (id : ℕ) (r : Row) (t : Table)
    → (r.command_id == id) ≡ false
    → NoPending id t
    → NoPending id (staged t (enqueue_control_command_local r t))
unfolding enqueue_control_command_local
stage-NoPending id r t h k = ground (arith, append-NoPending id t r h k)

-- The mirror writes no pending row where the local table has none.
any-take : (p : Row → Bool) (n : ℕ) (t : Table) → any p t ≡ false → any p (take n t) ≡ false
any-take p zero t h = refl
any-take p (suc n) [] h = refl
any-take p (suc n) (r ∷ t) h = ground (arith, any-take p n t)

any-insert_newest :
    (p : Row → Bool) (r : Row) (t : Table) → any p (insert_newest r t) ≡ p r || any p t
any-insert_newest p r [] = refl
any-insert_newest p r (x ∷ t) = ground (arith, any-insert_newest p r t)

any-newest_first : (p : Row → Bool) (t : Table) → any p (newest_first t) ≡ any p t
any-newest_first p [] = refl
any-newest_first p (r ∷ t) =
    any-insert_newest p r (newest_first t) ∙ ap (λ b. p r || b) (any-newest_first p t)

upsert-NoPending :
    (id : ℕ) (d : Row) (t : Table)
    → pending_with_id id d ≡ false
    → NoPending id t
    → NoPending id (upsert d t)
upsert-NoPending id d t h k = elim (Bool-cases (any (with_id d.command_id) t)) [
  | inl e ↦ simp e (update-NoPending id (with_id d.command_id) (overwrite d) t (λ r. h) k)
  | inr e ↦ simp e (add-NoPending id t (mirrored_row d) h k)
]

sent_upsert-NoPending :
    (id : ℕ) (reply : Reply) (d : Row) (t : Table)
    → pending_with_id id d ≡ false
    → NoPending id t
    → NoPending id (sent_upsert reply d t)
sent_upsert-NoPending id answered d t h k = upsert-NoPending id d t h k
sent_upsert-NoPending id lost d t h k = upsert-NoPending id d t h k
sent_upsert-NoPending id never d t h k = k

or_false : (a b : Bool) → a || b ≡ false → (a ≡ false) × (b ≡ false)
or_false a b h = ground arith

mirror_rows-NoPending :
    (id : ℕ) (ds : Table) (replies : List Reply) (t : Table)
    → NoPending id ds
    → NoPending id t
    → NoPending id (mirror_rows ds replies t)
mirror_rows-NoPending id [] replies t h k = k
mirror_rows-NoPending id (d ∷ ds) [] t h k =
    let (p, q) = or_false (pending_with_id id d) (any (pending_with_id id) ds) h in
    mirror_rows-NoPending id ds [] (upsert d t) q (upsert-NoPending id d t p k)
mirror_rows-NoPending id (d ∷ ds) (reply ∷ replies) t h k =
    let (p, q) = or_false (pending_with_id id d) (any (pending_with_id id) ds) h in
    mirror_rows-NoPending id ds replies (sent_upsert reply d t) q
      (sent_upsert-NoPending id reply d t p k)

pub mirror_on-IsSpent :
    (id : ℕ) (o : Option Table) (t : Table) (limit : ℕ) (replies : List Reply)
    → NonePending id o
    → NoPending id t
    → IsSpent id (mirror_on o t limit replies)
mirror_on-IsSpent id none t limit replies h k = record { on_remote = tt; on_local = k }
mirror_on-IsSpent id (some u) t limit replies h k = record {
  on_remote =
      mirror_rows-NoPending id _ replies u
        (any-take _ (max limit 1) (newest_first t) (any-newest_first _ t ∙ k)) h;
  on_local = k;
}

pub processing_on-IsSpent :
    (id : ℕ) (o : Option Table) (t : Table) (j now : ℕ) (reply : Reply)
    → NonePending id o
    → NoPending id t
    → IsSpent id (processing_on o t j now reply)
processing_on-IsSpent id none t j now reply h k = record {
  on_remote = tt;
  on_local = update-NoPending id _ _ t (started id now) k;
}
processing_on-IsSpent id (some u) t j now answered h k = record {
  on_remote = update-NoPending id _ _ u (started id now) h;
  on_local = k;
}
processing_on-IsSpent id (some u) t j now lost h k = record {
  on_remote = update-NoPending id _ _ u (started id now) h;
  on_local = update-NoPending id _ _ t (started id now) k;
}
processing_on-IsSpent id (some u) t j now never h k = record {
  on_remote = h;
  on_local = update-NoPending id _ _ t (started id now) k;
}

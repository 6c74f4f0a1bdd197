-- ===== src/Control/CommandQueue/Potential.antt =====
-- How many claims the local table still allows of a command, and what each update does to that.
use systematic_trading_valid.Common.{
  Bool, Bool-cases, Option, [], any, arith, false, if◌then◌else◌, inl, inr, is_some, nat_beq_iff,
  nat_eq, pair_eq, refl, suc, sym, true, ℕ, ◌&&◌, ◌++◌, ◌+◌, ◌-◌, ◌==◌, ◌||◌, ◌∷◌, ◌≡◌, ◌≤◌,
}
use systematic_trading_valid.Common.Text.{Text, text_eq}
use systematic_trading_valid.Control.CommandQueue.{
  Row, Status, Table, enqueue_control_command_local, is_emergency, is_terminal, pending,
  pending_with_id, same_key, start_processing, status_eq, update_where, with_id,
}
use systematic_trading_valid.Control.CommandQueue.Claims.{finish}
use systematic_trading_valid.Control.CommandQueue.Retire.{
  is_orphan, max_reclaim_attempts, reclaim_row,
}
use systematic_trading_valid.Control.CommandQueue.Ops.{staged}

-- How many claims a row may still see: one if it is pending, and one for each attempt that is left. A finished
-- row keeps its attempts, since `mark_command_processing` may open it again.
abbrev pub claims_left : ℕ → Row → ℕ
claims_left id r =
    if r.command_id == id
    then (if r.status == pending then 1 else 0) + (max_reclaim_attempts - r.attempts)
    else 0

abbrev pub total_left : ℕ → Table → ℕ
total_left id [] = 0
total_left id (r ∷ rs) = claims_left id r + total_left id rs

-- A command that the table does not have may be staged.
abbrev pub potential : ℕ → Table → ℕ
potential id t = if any (with_id id) t then total_left id t else 4

update-total :
    (id : ℕ) (p : Row → Bool) (f : Row → Row) (t : Table)
    → ((r : Row) → p r ≡ true → claims_left id (f r) ≤ claims_left id r)
    → total_left id (update_where p f t) ≤ total_left id t
update-total id p f [] h = omega arith
update-total id p f (r ∷ rs) h = elim (Bool-cases (p r)) [
  | inl e ↦ simp e (omega (arith, h r e, update-total id p f rs h))
  | inr e ↦ simp e (omega (arith, update-total id p f rs h))
]

pub update-has :
    (id : ℕ) (p : Row → Bool) (f : Row → Row) (t : Table)
    → ((r : Row) → (f r).command_id ≡ r.command_id)
    → any (with_id id) (update_where p f t) ≡ any (with_id id) t
update-has id p f [] h = refl
update-has id p f (r ∷ rs) h = ground (arith, update-has id p f rs h, h r)

pub update-potential :
    (id : ℕ) (p : Row → Bool) (f : Row → Row) (t : Table)
    → ((r : Row) → p r ≡ true → claims_left id (f r) ≤ claims_left id r)
    → ((r : Row) → (f r).command_id ≡ r.command_id)
    → potential id (update_where p f t) ≤ potential id t
update-potential id p f t h k = grind (arith, update-has id p f t k, update-total id p f t h)

pub finish-le :
    (id now : ℕ) (s : Status) (message : Option Text) (r : Row)
    → is_terminal s ≡ true
    → claims_left id (finish s message now r) ≤ claims_left id r
finish-le id now s message r h = ground arith

pub start-le : (id now : ℕ) (r : Row) → claims_left id (start_processing now r) ≤ claims_left id r
start-le id now r = ground arith

pub reclaim-le :
    (id now : ℕ) (poison : Text) (r : Row)
    → is_orphan r ≡ true
    → claims_left id (reclaim_row max_reclaim_attempts now poison r) ≤ claims_left id r
reclaim-le id now poison r h = ground arith

claim-left :
    (id now : ℕ) (r : Row)
    → pending_with_id id r ≡ true
    → suc (claims_left id (start_processing now r)) ≤ claims_left id r
claim-left id now r h = ground arith

pub claim-total :
    (id now : ℕ) (t : Table)
    → any (pending_with_id id) t ≡ true
    → suc (total_left id (update_where (pending_with_id id) (start_processing now) t))
      ≤ total_left id t
claim-total id now [] h = cc
claim-total id now (r ∷ rs) h = elim (Bool-cases (pending_with_id id r)) [
  | inl e ↦ simp e (
      omega (
        arith,
        claim-left id now r e,
        update-total id (pending_with_id id) (start_processing now) rs (λ x k. start-le id now x),
      ))
  | inr e ↦ simp e (omega (arith, claim-total id now rs (ground (arith, h, e))))
]

append-total :
    (id : ℕ) (t : Table) (r : Row)
    → total_left id (t ++ (r ∷ [])) ≡ total_left id t + claims_left id r
append-total id [] r = omega arith
append-total id (x ∷ t) r = omega (arith, append-total id t r)

append-has :
    (id : ℕ) (t : Table) (r : Row)
    → any (with_id id) (t ++ (r ∷ [])) ≡ any (with_id id) t || (r.command_id == id)
append-has id [] r = ground arith
append-has id (x ∷ t) r = ground (arith, append-has id t r)

absent-total : (id : ℕ) (t : Table) → any (with_id id) t ≡ false → total_left id t ≡ 0
absent-total id [] h = refl
absent-total id (r ∷ t) h = ground (arith, absent-total id t)

claims_left-le : (id : ℕ) (r : Row) → claims_left id r ≤ 4
claims_left-le id r = ground arith

absent-as :
    (id : ℕ) (r : Row) (t : Table)
    → r.command_id ≡ id
    → any (with_id r.command_id) t ≡ false
    → any (with_id id) t ≡ false
absent-as id r t e h = rw (sym e) h

append-new :
    (id : ℕ) (r : Row) (t : Table)
    → any (with_id id) t ≡ false
    → potential id (t ++ (r ∷ [])) ≤ potential id t
append-new id r t h =
    grind (arith, append-has id t r, append-total id t r, absent-total id t h, claims_left-le id r)

append-potential :
    (id : ℕ) (r : Row) (t : Table)
    → any (with_id r.command_id) t ≡ false
    → potential id (t ++ (r ∷ [])) ≤ potential id t
append-potential id r t h = elim (Bool-cases (r.command_id == id)) [
  | inl e ↦ append-new id r t (absent-as id r t ((nat_beq_iff r.command_id id).0 e) h)
  | inr e ↦ grind (arith, append-has id t r, append-total id t r, e)
]

pub stage-potential :
    (id : ℕ) (r : Row) (t : Table)
    → potential id (staged t (enqueue_control_command_local r t)) ≤ potential id t
unfolding enqueue_control_command_local
stage-potential id r t = elim (Bool-cases (is_some r.expires_at && is_emergency r.command_type)) [
  | inl e ↦ simp e (omega arith)
  | inr e ↦ elim (Bool-cases (any (with_id r.command_id) t || any (same_key r.idempotency_key) t)) [
    | inl d ↦ simp (e, d) (omega arith)
    | inr d ↦ simp (e, d) (append-potential id r t (ground (arith, d)))
  ]
]

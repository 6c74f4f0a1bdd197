-- ===== src/Control/CommandQueue/Emergency.antt =====
-- When an emergency command waits behind others.
use systematic_trading_valid.Common.{
  All, All-append, Bool, Bool-cases, [], any, arith, false, inl, inr, leb, nat_eq, pair_eq, refl,
  suc, take, zero, ℕ, ◌++◌, ◌∷◌, ◌≡◌,
}
use systematic_trading_valid.Common.Text.{text_eq}
use systematic_trading_valid.Control.CommandQueue.{Row, Table, is_emergency, status_eq, with_id}
use systematic_trading_valid.Control.CommandQueue.Claims.{Bus, Faults}
use systematic_trading_valid.Control.CommandQueue.Fetch.{
  add_unseen, cap_of, claim_emergencies, fetch_and_claim_emergency_commands, fetch_pending_commands,
  insert_by_time, oldest_pending, remote_rows, sort_by_time,
}

module _ (P : Row → Type 0) where
  All-take : (n : ℕ) (t : Table) → All P t → All P (take n t)
  All-take zero t h = tt
  All-take (suc n) [] h = tt
  All-take (suc n) (r ∷ t) (h, hs) = (h, All-take n t hs)

  All-insert : (r : Row) (t : Table) → P r → All P t → All P (insert_by_time r t)
  All-insert r [] h k = (h, tt)
  All-insert r (x ∷ t) h (k, ks) = elim (Bool-cases (leb r.created_at x.created_at)) [
    | inl e ↦ simp e (h, (k, ks))
    | inr e ↦ simp e (k, All-insert r t h ks)
  ]

  All-sort : (t : Table) → All P t → All P (sort_by_time t)
  All-sort [] h = tt
  All-sort (r ∷ t) (h, hs) = All-insert r (sort_by_time t) h (All-sort t hs)

  All-add_unseen : (merged t : Table) → All P merged → All P t → All P (add_unseen merged t)
  All-add_unseen merged [] h k = h
  All-add_unseen merged (r ∷ t) h (k, ks) = elim (Bool-cases (any (with_id r.command_id) merged)) [
    | inl e ↦ simp e (All-add_unseen merged t h ks)
    | inr e ↦
        simp e (All-add_unseen (merged ++ (r ∷ [])) t (All-append P merged (r ∷ []) h (k, tt)) ks)
  ]

  All-fetch :
      (limit : ℕ) (b : Bus) (fault : Bool)
      → All P (remote_rows (cap_of limit) b.remote fault)
      → All P (oldest_pending (cap_of limit) b.local)
      → All P (fetch_pending_commands limit b fault)
  unfolding fetch_pending_commands
  All-fetch limit b fault h k =
      All-take (cap_of limit) _ (All-sort _ (All-add_unseen _ _ (All-add_unseen [] _ tt h) k))

none_claimed :
    (b : Bus) (t : Table) (now : ℕ) (faults : ℕ → Faults)
    → All (λ r. is_emergency r.command_type ≡ false) t
    → claim_emergencies b t now faults ≡ (b, [])
none_claimed b [] now faults h = refl
none_claimed b (r ∷ t) now faults (h, hs) = simp h (none_claimed b t now faults hs)

cap_of-cap_of : (limit : ℕ) → cap_of (cap_of limit) ≡ cap_of limit
cap_of-cap_of limit = omega arith

-- If neither table, as far as the fetch can read it, has an emergency command among its oldest `limit`
-- pending rows (one row for a limit of 0), the claim of the emergency commands claims none and changes
-- nothing, whether or not younger ones are pending.
pub emergency_waits :
    (limit : ℕ) (b : Bus) (fault : Bool) (now : ℕ) (faults : ℕ → Faults)
    → All (λ r. is_emergency r.command_type ≡ false) (remote_rows (cap_of limit) b.remote fault)
    → All (λ r. is_emergency r.command_type ≡ false) (oldest_pending (cap_of limit) b.local)
    → fetch_and_claim_emergency_commands limit b fault now faults ≡ (b, [])
unfolding fetch_and_claim_emergency_commands
emergency_waits limit b fault now faults h k =
    let IsPlain : Row → Type 0 = λ r. is_emergency r.command_type ≡ false in
    none_claimed b _ now faults (
      All-fetch IsPlain (cap_of limit) b fault (rw (cap_of-cap_of limit) h)
        (rw (cap_of-cap_of limit) k))

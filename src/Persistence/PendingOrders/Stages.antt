-- ===== src/Persistence/PendingOrders/Stages.antt =====
-- The primary key, what a staged order gives back, and what a reconciliation leaves.
use systematic_trading_valid.Common.{
  Bool-cases, List, [], any, ap, arith, beq_iff, beq_refl, contains, false, inl, inr, keep_if,
  nat_eq, not, ok, pair_eq, refl, some, true, ℕ, ◌++◌, ◌==◌, ◌||◌, ◌∙◌, ◌∷◌, ◌≡◌,
}
use systematic_trading_valid.Common.Text.{Text, text_eq, upper}
use systematic_trading_valid.Persistence.PendingOrders.{
  Row, Table, delete_where, find_key, is_stale, load_all, pop, reconcile_with_broker_open_orders,
  remove_keys, stage, stale_keys, upsert, with_key,
}

-- `order_key` is the primary key.
abbrev pub DistinctKeys : Table → Type 0
DistinctKeys [] = Unit
DistinctKeys (r ∷ t) = (any (with_key r.order_key) t ≡ false) × DistinctKeys t

delete_absent :
    (k : Text) (t : Table) → any (with_key k) t ≡ false → delete_where (with_key k) t ≡ t
delete_absent k [] h = refl
delete_absent k (r ∷ t) h = ground (arith, delete_absent k t)

upsert-absent :
    (r : Row) (t : Table) → any (with_key r.order_key) t ≡ false → upsert r t ≡ t ++ (r ∷ [])
upsert-absent r [] h = refl
upsert-absent r (x ∷ t) h = ground (arith, upsert-absent r t)

find_key-append :
    (r : Row) (t : Table)
    → any (with_key r.order_key) t ≡ false
    → find_key r.order_key (t ++ (r ∷ [])) ≡ some r
find_key-append r [] h = simp beq_refl
find_key-append r (x ∷ t) h = ground (arith, find_key-append r t)

delete_last :
    (r : Row) (t : Table)
    → any (with_key r.order_key) t ≡ false
    → delete_where (with_key r.order_key) (t ++ (r ∷ [])) ≡ t
delete_last r [] h = simp beq_refl
delete_last r (x ∷ t) h = ground (arith, delete_last r t)

-- An order that is staged under a new key is popped with its broker id, and leaves the table as it was.
pub pop-stage :
    (now : ℕ) (r : Row) (t : Table)
    → any (with_key r.order_key) t ≡ false
    → pop true r.order_key (stage true now r t).0 ≡ (t, ok r.broker_order_id)
unfolding pop stage
pop-stage now r t h =
    let staged : Row = record r { symbol = upper r.symbol; submitted_at = now } in
    rw (upsert-absent staged t h, delete_last staged t h, find_key-append staged t h)

any-upsert :
    (k : Text) (r : Row) (t : Table)
    → any (with_key k) (upsert r t) ≡ (r.order_key == k || any (with_key k) t)
any-upsert k r [] = refl
any-upsert k r (x ∷ t) = ground (
  arith,
  beq_iff x.order_key r.order_key,
  beq_iff r.order_key k,
  beq_iff x.order_key k,
  any-upsert k r t,
)

pub upsert-DistinctKeys : (r : Row) (t : Table) → DistinctKeys t → DistinctKeys (upsert r t)
upsert-DistinctKeys r [] h = (refl, tt)
upsert-DistinctKeys r (x ∷ t) (h, hs) = elim (Bool-cases (x.order_key == r.order_key)) [
  | inl e ↦ rw e (h, hs)
  | inr e ↦ rw e (
    ground (
      arith,
      any-upsert x.order_key r t,
      beq_iff x.order_key r.order_key,
      beq_iff r.order_key x.order_key,
    ),
    upsert-DistinctKeys r t hs,
  )
]

absent_not_stale :
    (ids : List Text) (k : Text) (t : Table)
    → any (with_key k) t ≡ false
    → contains k (stale_keys ids (load_all t)) ≡ false
unfolding load_all
absent_not_stale ids k [] h = refl
absent_not_stale ids k (r ∷ t) h = ground (arith, absent_not_stale ids k t)

drop_absent_key :
    (k : Text) (ks : List Text) (t : Table)
    → any (with_key k) t ≡ false
    → delete_where (λ r. contains r.order_key (k ∷ ks)) t
      ≡ delete_where (λ r. contains r.order_key ks) t
drop_absent_key k ks [] h = refl
drop_absent_key k ks (r ∷ t) h =
    ground (arith, beq_iff k r.order_key, beq_iff r.order_key k, drop_absent_key k ks t)

stale_keys-stale :
    (ids : List Text) (r : Row) (t : Table)
    → is_stale ids r.broker_order_id ≡ true
    → stale_keys ids (load_all (r ∷ t)) ≡ r.order_key ∷ stale_keys ids (load_all t)
unfolding load_all
stale_keys-stale ids r t e = rw e

stale_keys-fresh :
    (ids : List Text) (r : Row) (t : Table)
    → is_stale ids r.broker_order_id ≡ false
    → stale_keys ids (load_all (r ∷ t)) ≡ stale_keys ids (load_all t)
unfolding load_all
stale_keys-fresh ids r t e = rw e

-- The table without the rows of some keys
without_keys : Table → List Text → Table
without_keys t ks = delete_where (λ r. contains r.order_key ks) t

delete_stale :
    (ids : List Text) (t : Table)
    → DistinctKeys t
    → delete_where (λ r. contains r.order_key (stale_keys ids (load_all t))) t
      ≡ keep_if (λ r. not (is_stale ids r.broker_order_id)) t
unfolding without_keys
delete_stale ids [] h = refl
delete_stale ids (r ∷ t) (h, hs) = elim (Bool-cases (is_stale ids r.broker_order_id)) [
  | inl e ↦
      ap (without_keys (r ∷ t)) (stale_keys-stale ids r t e)
      ∙ simp (e, beq_refl)
          (drop_absent_key r.order_key (stale_keys ids (load_all t)) t h ∙ delete_stale ids t hs)
  | inr e ↦
      ap (without_keys (r ∷ t)) (stale_keys-fresh ids r t e)
      ∙ simp (e, absent_not_stale ids r.order_key t h, delete_stale ids t hs)
]

keep_all : (t : Table) → t ≡ delete_where (λ r. contains r.order_key []) t
keep_all [] = refl
keep_all (r ∷ t) = ap (λ u. r ∷ u) (keep_all t)

remove_keys-table :
    (ks : List Text) (t : Table)
    → (remove_keys true ks t).0 ≡ delete_where (λ r. contains r.order_key ks) t
remove_keys-table [] t = keep_all t
remove_keys-table (k ∷ ks) t = refl

-- A reconciliation of a writable table leaves exactly the staged orders whose broker id is open, unchanged
-- and in their order.
pub reconcile_exact :
    (ids : List Text) (t : Table)
    → DistinctKeys t
    → (reconcile_with_broker_open_orders true ids t).0
      ≡ keep_if (λ r. not (is_stale ids r.broker_order_id)) t
unfolding reconcile_with_broker_open_orders
reconcile_exact ids t h = remove_keys-table (stale_keys ids (load_all t)) t ∙ delete_stale ids t h

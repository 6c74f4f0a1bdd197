-- ===== src/Persistence/PendingOrders.antt =====
-- src/persistence/governance_state_store.py: the table of staged orders, `PendingOrderStore`. A call that
-- finds the database not writable raises before its statement, and is an argument here.
pub mod Stages
pub mod Prefixes
mod Examples
use systematic_trading_valid.Common.{
  Bool, List, Option, Result, [], contains, count_if, err, false, if◌then◌else◌, keep_if, length,
  nat_eq, none, not, ok, pair_eq, some, true, ℕ, ◌&&◌, ◌++◌, ◌==◌, ◌||◌, ◌∷◌,
}
use systematic_trading_valid.Common.Text.{Text, lower_code, text, text_eq, upper}
use systematic_trading_valid.Common.Dict.{Dict}

-- A row of `pending_order_stage`
pub record Row : Type 0 where
  pub order_key : Text
  pub strategy_id : Text
  pub symbol : Text
  pub side : Text
  pub broker_order_id : Option Text
  pub submitted_at : ℕ

abbrev pub Table : Type 0
Table = List Row

-- `PersistenceOwnershipError`
pub data StoreError : Type 0 where
  not_writable : StoreError

abbrev pub with_key : Text → Row → Bool
with_key k r = r.order_key == k

unfoldable pub load_all : Table → Dict Text (Option Text)
load_all [] = []
load_all (r ∷ t) = (r.order_key, r.broker_order_id) ∷ load_all t

-- `INSERT … ON CONFLICT(order_key) DO UPDATE SET broker_order_id, submitted_at`
abbrev pub upsert : Row → Table → Table
upsert r [] = r ∷ []
upsert r (x ∷ t) =
    let rest = upsert r t in
    if with_key r.order_key x
    then record x { broker_order_id = r.broker_order_id; submitted_at = r.submitted_at } ∷ t
    else x ∷ rest

unfoldable pub stage : Bool → ℕ → Row → Table → Table × Result StoreError (Unit {0})
stage writable now r t =
    if writable
    then (upsert (record r { symbol = upper r.symbol; submitted_at = now }) t, ok tt)
    else (t, err not_writable)

-- `SELECT … WHERE order_key = ?`
abbrev pub find_key : Text → Table → Option Row
find_key k [] = none
find_key k (r ∷ t) = let rest = find_key k t in if with_key k r then some r else rest

abbrev pub broker_id_of : Option Row → Option Text
broker_id_of none = none
broker_id_of (some r) = r.broker_order_id

abbrev pub delete_where : (Row → Bool) → Table → Table
delete_where p t = keep_if (λ r. not (p r)) t

unfoldable pub pop : Bool → Text → Table → Table × Result StoreError (Option Text)
pop writable k t =
    if writable
    then (delete_where (with_key k) t, ok (broker_id_of (find_key k t)))
    else (t, err not_writable)

-- SQLite's `LIKE`: `%` stands for any text, `_` for any character, and the case of letters is ignored.
abbrev pub any_suffix : (Text → Bool) → Text → Bool
any_suffix f [] = f []
any_suffix f (c ∷ t) = f (c ∷ t) || any_suffix f t

abbrev pub match_head : ℕ → (Text → Bool) → Text → Bool
match_head p f [] = false
match_head p f (c ∷ t) = ((p == b'_') || (lower_code p == lower_code c)) && f t

unfoldable pub like : Text → Text → Bool
like [] [] = true
like [] (c ∷ t) = false
like (p ∷ ps) t =
    let any_text = any_suffix (like ps) t in
    let one = match_head p (like ps) t in if p == b'%' then any_text else one

abbrev pub colon : Text
colon = text ":"

abbrev pub prefix_of : Text → Text → Text
prefix_of strategy symbol = strategy ++ (colon ++ (upper symbol ++ colon))

unfoldable pub clear_prefix : Bool → Text → Text → Table → Table × Result StoreError ℕ
clear_prefix writable strategy symbol t =
    let hits = λ (r : Row). like (prefix_of strategy symbol ++ text "%") r.order_key in
    if writable then (delete_where hits t, ok (count_if hits t)) else (t, err not_writable)

unfoldable pub clear_all : Bool → Table → Table × Result StoreError ℕ
clear_all writable t = if writable then ([], ok (length t)) else (t, err not_writable)

-- A staged order is stale if it has no broker id, or one that is not open.
abbrev pub is_stale : List Text → Option Text → Bool
is_stale open_ids none = true
is_stale open_ids (some id) = not (contains id open_ids)

abbrev pub stale_keys : List Text → Dict Text (Option Text) → List Text
stale_keys open_ids [] = []
stale_keys open_ids ((k, id) ∷ d) =
    let rest = stale_keys open_ids d in if is_stale open_ids id then k ∷ rest else rest

pub record StageReport : Type 0 where
  pub staged_count : ℕ
  pub broker_open_count : ℕ
  pub stale_removed : ℕ

-- The deletion of the stale keys, if there are any, and the rows that it removed
abbrev pub remove_keys : Bool → List Text → Table → Table × Result StoreError ℕ
remove_keys writable [] t = (t, ok 0)
remove_keys writable (k ∷ ks) t =
    let hits = λ (r : Row). contains r.order_key (k ∷ ks) in
    if writable then (delete_where hits t, ok (count_if hits t)) else (t, err not_writable)

abbrev pub report_of : ℕ → ℕ → Result StoreError ℕ → Result StoreError StageReport
report_of staged open_count (err e) = err e
report_of staged open_count (ok removed) =
    ok (record { staged_count = staged; broker_open_count = open_count; stale_removed = removed })

unfoldable pub reconcile_with_broker_open_orders :
    Bool → List Text → Table → Table × Result StoreError StageReport
reconcile_with_broker_open_orders writable open_ids t =
    let staged = load_all t in
    let removal = remove_keys writable (stale_keys open_ids staged) t in
    (removal.0, report_of (length staged) (length open_ids) removal.1)

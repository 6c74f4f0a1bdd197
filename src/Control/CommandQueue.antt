-- ===== src/Control/CommandQueue.antt =====
-- src/control/command_queue.py: the command bus of two tables, one in Supabase and one in local SQLite.
-- A statement of the source acts on a table here as its text says. Ids and keys are numbers; times
-- are numbers in the order of their ISO texts; a payload is a text.

pub mod Claims
pub mod Retire
pub mod Fetch
pub mod Mirror
pub mod Emergency
pub mod Ops
pub mod Quiet
pub mod Spent
pub mod Once
pub mod Potential
pub mod Poison
pub mod Finished
mod Examples
use systematic_trading_valid.Common.{
  Bool, Eq, List, Option, Result, [], any, arith, beq_iff, err, false, if◌then◌else◌, is_some,
  nat_eq, none, ok, pair_eq, some, true, ℕ, ◌&&◌, ◌++◌, ◌==◌, ◌||◌, ◌↔◌, ◌∷◌, ◌≡◌,
}
use systematic_trading_valid.Common.Text.{Text, text_eq}

pub data CommandType : Type 0 where
  flatten_and_halt go_live engage_kill_switch release_kill_switch reload_config ping : CommandType

-- `EMERGENCY_COMMAND_TYPES`
abbrev pub is_emergency : CommandType → Bool
is_emergency flatten_and_halt = true
is_emergency engage_kill_switch = true
is_emergency _ = false

abbrev pub command_type_beq : CommandType → CommandType → Bool
command_type_beq flatten_and_halt flatten_and_halt = true
command_type_beq go_live go_live = true
command_type_beq engage_kill_switch engage_kill_switch = true
command_type_beq release_kill_switch release_kill_switch = true
command_type_beq reload_config reload_config = true
command_type_beq ping ping = true
command_type_beq _ _ = false

pub data Status : Type 0 where
  pending processing completed failed : Status

abbrev pub status_beq : Status → Status → Bool
status_beq pending pending = true
status_beq processing processing = true
status_beq completed completed = true
status_beq failed failed = true
status_beq _ _ = false

pub status_beq_iff : (a b : Status) → (status_beq a b ≡ true) ↔ (a ≡ b)
status_beq_iff a b = ground arith

instance abbrev pub status_eq : Eq Status
status_eq = record { same = status_beq; same_iff = status_beq_iff }

-- `_TERMINAL_STATUSES`
abbrev pub is_terminal : Status → Bool
is_terminal completed = true
is_terminal failed = true
is_terminal _ = false

-- A row of `control_commands`.
pub record Row : Type 0 where
  pub command_id : ℕ
  pub command_type : CommandType
  pub payload : Text
  pub status : Status
  pub requested_by : Option Text
  pub idempotency_key : Option ℕ
  pub error_message : Option Text
  pub created_at : ℕ
  pub processed_at : Option ℕ
  pub attempts : ℕ
  pub expires_at : Option ℕ

abbrev pub Table : Type 0
Table = List Row

-- `UPDATE ... SET f WHERE p`, and whether it changes a row
abbrev pub update_where : (Row → Bool) → (Row → Row) → Table → Table
update_where p f [] = []
update_where p f (r ∷ rs) = let rest = update_where p f rs in if p r then f r ∷ rest else r ∷ rest

abbrev pub with_id : ℕ → Row → Bool
with_id id r = r.command_id == id

-- The column admits one row with a key that is not NULL.
abbrev pub same_key : Option ℕ → Row → Bool
same_key none r = false
same_key (some k) r = elim r.idempotency_key [ none ↦ false | some j ↦ j == k ]

-- `ValueError` of a TTL on a protective command, and SQLite's `IntegrityError`
pub data EnqueueError : Type 0 where
  ttl_forbidden duplicate_row : EnqueueError

-- `INSERT INTO control_commands`, at the end of the table
abbrev pub insert_row : Row → Table → Result EnqueueError Table
insert_row r t =
    if any (with_id r.command_id) t || any (same_key r.idempotency_key) t
    then err duplicate_row
    else ok (t ++ (r ∷ []))

abbrev pub new_row : CommandType → Text → Option Text → Option ℕ → ℕ → ℕ → Option ℕ → Row
new_row type payload requested_by key id now expires = record {
  command_id = id;
  command_type = type;
  payload = payload;
  status = pending;
  requested_by = requested_by;
  idempotency_key = key;
  error_message = none;
  created_at = now;
  processed_at = none;
  attempts = 0;
  expires_at = expires;
}

unfoldable pub enqueue_control_command_local : Row → Table → Result EnqueueError Table
enqueue_control_command_local r t =
    if is_some r.expires_at && is_emergency r.command_type
    then err ttl_forbidden
    else insert_row r t

-- `_transition_local_pending_to_processing`: on a database fault it changes nothing.
abbrev pub pending_with_id : ℕ → Row → Bool
pending_with_id id r = with_id id r && (r.status == pending)

abbrev pub start_processing : ℕ → Row → Row
start_processing now r = record r { status = processing; processed_at = some now }

unfoldable pub transition_local_pending_to_processing : ℕ → ℕ → Bool → Table → Table
transition_local_pending_to_processing id now fault t =
    if fault then t else update_where (pending_with_id id) (start_processing now) t

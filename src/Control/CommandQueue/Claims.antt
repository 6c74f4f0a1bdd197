-- ===== src/Control/CommandQueue/Claims.antt =====
-- src/control/command_queue.py: the claim of a command on both tables, and its terminal mark.
use systematic_trading_valid.Common.{
  Bool, Option, any, false, if◌then◌else◌, nat_eq, none, not, pair_eq, some, take, true, ℕ, ◌&&◌,
  ◌||◌,
}
use systematic_trading_valid.Common.Text.{Text, text_eq}
use systematic_trading_valid.Control.CommandQueue.{
  Row, Status, Table, completed, failed, is_terminal, pending_with_id, start_processing, status_eq,
  transition_local_pending_to_processing, update_where, with_id,
}

-- What becomes of a request to Supabase: answered; landed, but the answer was lost; or never landed.
pub data Reply : Type 0 where
  answered lost never : Reply

-- Supabase's table, if it is configured, and the local one.
pub record Bus : Type 0 where
  pub remote : Option Table
  pub local : Table

-- The rows after an update that may fail on its way.
abbrev pub sent_update : Reply → (Row → Bool) → (Row → Row) → Table → Table
sent_update answered p f t = update_where p f t
sent_update lost p f t = update_where p f t
sent_update never p f t = t

-- `resp.data` is there and not empty.
abbrev pub matched : Reply → (Row → Bool) → Table → Bool
matched answered p t = any p t
matched _ p t = false

-- The faults that one claim may meet.
pub record Faults : Type 0 where
  pub claim_reply : Reply
  pub mirror_fault : Bool
  pub select_fault : Bool

-- The local compare-and-set, which is authoritative when the source reaches it.
abbrev pub claim_local : ℕ → ℕ → Table → Table × Bool
claim_local id now t =
    (update_where (pending_with_id id) (start_processing now) t, any (pending_with_id id) t)

abbrev pub claim_remote : Table → Table → ℕ → ℕ → Faults → Bus × Bool
claim_remote remote local id now faults =
    let remote' =
      sent_update faults.claim_reply (pending_with_id id) (start_processing now) remote in
    let claimed = claim_local id now local in
    if matched faults.claim_reply (pending_with_id id) remote
    then (
      record {
        remote = some remote';
        local = transition_local_pending_to_processing id now faults.mirror_fault local;
      },
      true,
    )
    else if not faults.select_fault && any (with_id id) remote'
    then (record { remote = some remote'; local = local }, false)
    else (record { remote = some remote'; local = claimed.0 }, claimed.1)

abbrev pub claim_on : Option Table → Table → ℕ → ℕ → Faults → Bus × Bool
claim_on none local id now faults =
    let claimed = claim_local id now local in
    (record { remote = none; local = claimed.0 }, claimed.1)
claim_on (some remote) local id now faults = claim_remote remote local id now faults

unfoldable pub try_claim_command : Bus → ℕ → ℕ → Faults → Bus × Bool
try_claim_command b id now faults = claim_on b.remote b.local id now faults

-- `_mark_terminal`: the remote update has no guard on the status, and the local one has.
abbrev pub finish : Status → Option Text → ℕ → Row → Row
finish status message now r = record r {
  status = status;
  processed_at = some now;
  error_message = message;
}

abbrev pub open_with_id : ℕ → Row → Bool
open_with_id id r = with_id id r && not (is_terminal r.status)

abbrev pub terminal_on : Option Table → Table → ℕ → Status → Option Text → ℕ → Reply → Bus × Bool
terminal_on none local id status message now reply =
    (record { remote = none; local = local }, any (with_id id) local)
terminal_on (some remote) local id status message now reply = (
  record {
    remote = some (sent_update reply (with_id id) (finish status message now) remote);
    local = local;
  },
  matched reply (with_id id) remote || any (with_id id) local,
)

-- With `wrote or already_terminal`: whether the mark reached a table that holds the command
unfoldable pub mark_terminal : Bus → ℕ → Status → Option Text → ℕ → Reply → Bus × Bool
mark_terminal b id status message now reply =
    let local = update_where (open_with_id id) (finish status message now) b.local in
    terminal_on b.remote local id status message now reply

unfoldable pub mark_command_completed : Bus → ℕ → ℕ → Reply → Bus × Bool
mark_command_completed b id now reply = mark_terminal b id completed none now reply

unfoldable pub mark_command_failed : Bus → ℕ → Text → ℕ → Reply → Bus × Bool
mark_command_failed b id message now reply =
    mark_terminal b id failed (some (take 2000 message)) now reply

-- `mark_command_processing`, whose updates have no guard on the status; the local one is made only
-- if Supabase is not configured or faults.
abbrev pub processing_on : Option Table → Table → ℕ → ℕ → Reply → Bus
processing_on none local id now reply = record {
  remote = none;
  local = update_where (with_id id) (start_processing now) local;
}
processing_on (some remote) local id now answered = record {
  remote = some (update_where (with_id id) (start_processing now) remote);
  local = local;
}
processing_on (some remote) local id now lost = record {
  remote = some (update_where (with_id id) (start_processing now) remote);
  local = update_where (with_id id) (start_processing now) local;
}
processing_on (some remote) local id now never = record {
  remote = some remote;
  local = update_where (with_id id) (start_processing now) local;
}

unfoldable pub mark_command_processing : Bus → ℕ → ℕ → Reply → Bus
mark_command_processing b id now reply = processing_on b.remote b.local id now reply

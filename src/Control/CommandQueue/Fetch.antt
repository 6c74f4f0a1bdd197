-- ===== src/Control/CommandQueue/Fetch.antt =====
-- src/control/command_queue.py: the merged fetch of pending commands, and the claim of the emergency ones.
use systematic_trading_valid.Common.{
  Bool, List, Option, [], any, if◌then◌else◌, keep_if, leb, max, nat_eq, none, not, pair_eq, some,
  take, ℕ, ◌++◌, ◌==◌, ◌∷◌,
}
use systematic_trading_valid.Common.Text.{text_eq}
use systematic_trading_valid.Control.CommandQueue.{
  Row, Table, is_emergency, pending, processing, status_eq, with_id,
}
use systematic_trading_valid.Control.CommandQueue.Claims.{Bus, Faults, try_claim_command}

abbrev pub is_pending : Row → Bool
is_pending r = r.status == pending

-- `ORDER BY created_at`, and `merged.sort(key=created_at)`, which keeps the order of equal times
abbrev pub insert_by_time : Row → Table → Table
insert_by_time r [] = r ∷ []
insert_by_time r (x ∷ xs) =
    let rest = insert_by_time r xs in if leb r.created_at x.created_at then r ∷ x ∷ xs else x ∷ rest

abbrev pub sort_by_time : Table → Table
sort_by_time [] = []
sort_by_time (r ∷ rs) = insert_by_time r (sort_by_time rs)

-- `SELECT * ... WHERE status = 'pending' ORDER BY created_at LIMIT cap`
unfoldable pub oldest_pending : ℕ → Table → Table
oldest_pending cap t = take cap (sort_by_time (keep_if is_pending t))

-- Supabase's rows, or none if it is not configured or faults
abbrev pub remote_rows : ℕ → Option Table → Bool → Table
remote_rows cap none fault = []
remote_rows cap (some t) fault = let rows = oldest_pending cap t in if fault then [] else rows

-- The rows whose id was not seen before, appended to the merged ones
abbrev pub add_unseen : Table → Table → Table
add_unseen merged [] = merged
add_unseen merged (r ∷ rs) =
    let seen = any (with_id r.command_id) merged in
    let skipped = add_unseen merged rs in
    let added = add_unseen (merged ++ (r ∷ [])) rs in if seen then skipped else added

-- `max(int(limit), 1)`
abbrev pub cap_of : ℕ → ℕ
cap_of limit = max limit 1

unfoldable pub fetch_pending_commands : ℕ → Bus → Bool → Table
fetch_pending_commands limit b fault =
    let cap = cap_of limit in
    let merged = add_unseen [] (remote_rows cap b.remote fault) in
    take cap (sort_by_time (add_unseen merged (oldest_pending cap b.local)))

-- The loop of the emergency claim, with the clock and the faults of each claim
abbrev pub claim_emergencies : Bus → Table → ℕ → (ℕ → Faults) → Bus × List Row
claim_emergencies b [] now faults = (b, [])
claim_emergencies b (r ∷ rs) now faults =
    let claim = try_claim_command b r.command_id now (faults r.command_id) in
    let skipped = claim_emergencies b rs now faults in
    let after = claim_emergencies claim.0 rs now faults in
    if not (is_emergency r.command_type) then skipped else if not claim.1 then after else (
      after.0,
      record r {
        status = processing;
        error_message = none;
        processed_at = some now;
        expires_at = none;
      }
          ∷ after.1,
    )

unfoldable pub fetch_and_claim_emergency_commands :
    ℕ → Bus → Bool → ℕ → (ℕ → Faults) → Bus × List Row
fetch_and_claim_emergency_commands limit b fault now faults =
    claim_emergencies b (fetch_pending_commands (cap_of limit) b fault) now faults

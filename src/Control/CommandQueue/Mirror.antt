-- ===== src/Control/CommandQueue/Mirror.antt =====
-- src/control/command_queue.py: `mirror_local_commands_to_supabase`. A request that Supabase refuses has never
-- landed; the columns that the upsert does not name keep their values, or take their defaults.
use systematic_trading_valid.Common.{
  List, Option, [], any, if◌then◌else◌, leb, max, nat_eq, none, pair_eq, some, take, ℕ, ◌++◌, ◌∷◌,
}
use systematic_trading_valid.Common.Text.{text_eq}
use systematic_trading_valid.Control.CommandQueue.{Row, Table, status_eq, update_where, with_id}
use systematic_trading_valid.Control.CommandQueue.Claims.{Bus, Reply, answered, lost, never}

-- `ORDER BY created_at DESC`
abbrev pub insert_newest : Row → Table → Table
insert_newest r [] = r ∷ []
insert_newest r (x ∷ xs) =
    let rest = insert_newest r xs in if leb x.created_at r.created_at then r ∷ x ∷ xs else x ∷ rest

abbrev pub newest_first : Table → Table
newest_first [] = []
newest_first (r ∷ rs) = insert_newest r (newest_first rs)

-- The row that an upsert of `d` makes of a row with its id, and the one that it makes where there is none
abbrev pub overwrite : Row → Row → Row
overwrite d r = record d { attempts = r.attempts; expires_at = r.expires_at }

abbrev pub mirrored_row : Row → Row
mirrored_row d = record d { attempts = 0; expires_at = none }

abbrev pub upsert : Row → Table → Table
upsert d t =
    if any (with_id d.command_id) t
    then update_where (with_id d.command_id) (overwrite d) t
    else t ++ (mirrored_row d ∷ [])

abbrev pub sent_upsert : Reply → Row → Table → Table
sent_upsert answered d t = upsert d t
sent_upsert lost d t = upsert d t
sent_upsert never d t = t

-- One request for each row, with its reply; a reply that is missing is an answer.
abbrev pub mirror_rows : Table → List Reply → Table → Table
mirror_rows [] replies t = t
mirror_rows (d ∷ ds) [] t = mirror_rows ds [] (upsert d t)
mirror_rows (d ∷ ds) (reply ∷ replies) t = mirror_rows ds replies (sent_upsert reply d t)

abbrev pub mirror_on : Option Table → Table → ℕ → List Reply → Bus
mirror_on none local limit replies = record { remote = none; local = local }
mirror_on (some remote) local limit replies = record {
  remote = some (mirror_rows (take (max limit 1) (newest_first local)) replies remote);
  local = local;
}

unfoldable pub mirror_local_commands_to_supabase : Bus → ℕ → List Reply → Bus
mirror_local_commands_to_supabase b limit replies = mirror_on b.remote b.local limit replies

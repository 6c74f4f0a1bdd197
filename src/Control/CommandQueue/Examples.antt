-- ===== src/Control/CommandQueue/Examples.antt =====
-- A flatten command that is written to both tables.
use mathlib.Core.List.{Memᴰ}
use systematic_trading_valid.Common.{
  List, [], err, false, length, nat_eq, none, pair_eq, refl, some, true, ◌+◌, ◌∷◌, ◌≡◌, ◌≤◌,
}
use systematic_trading_valid.Common.Text.{Text, text, text_eq}
use systematic_trading_valid.Control.CommandQueue.{
  Row, completed, enqueue_control_command_local, flatten_and_halt, new_row, reload_config,
  status_eq, ttl_forbidden,
}
use systematic_trading_valid.Control.CommandQueue.Claims.{
  Bus, Faults, answered, lost, never, try_claim_command,
}
use systematic_trading_valid.Control.CommandQueue.Retire.{
  max_reclaim_attempts, reclaim_orphaned_processing_commands,
}
use systematic_trading_valid.Control.CommandQueue.Ops.{
  Op, apply, claim, complete, expire, mirror, reclaim, run, stage, start,
}
use systematic_trading_valid.Control.CommandQueue.Fetch.{
  fetch_and_claim_emergency_commands, fetch_pending_commands, oldest_pending,
}
use systematic_trading_valid.Control.CommandQueue.Poison.{fires, fires_bounded}
use systematic_trading_valid.Control.CommandQueue.Finished.{finished_stays}

abbrev flatten : Row
flatten = new_row flatten_and_halt [] none (some 77) 1 100 none

abbrev dual : Bus
dual = record { remote = some (flatten ∷ []); local = flatten ∷ [] }

abbrev calm : Faults
calm = record { claim_reply = answered; mirror_fault = false; select_fault = false }

abbrev outage : Faults
outage = record { claim_reply = never; mirror_fault = false; select_fault = true }

-- The consumer finishes the command, and others poll for it.
abbrev later_ops : List Op
later_ops = claim 1 102 outage ∷ complete 1 103 lost ∷ expire 104 ∷ claim 1 105 calm ∷ []

-- An outage during the first claim leaves the command pending in Supabase, and it is claimed twice.
twice_in_outage : (fires 1 dual (claim 1 101 outage ∷ claim 1 102 calm ∷ [])) ≡ 2
unfolding apply try_claim_command
twice_in_outage = refl

ttl_refused :
    enqueue_control_command_local (record flatten { expires_at = some 200 }) [] ≡ err ttl_forbidden
unfolding enqueue_control_command_local
ttl_refused = refl

abbrev poison : Text
poison = text "poison: exceeded 3 reclaim attempts"

-- A command that crashes the process in every attempt.
abbrev crashes : List Op
crashes =
    stage flatten
    ∷ claim 1 101 calm
    ∷ reclaim 102 poison
    ∷ claim 1 103 calm
    ∷ reclaim 104 poison
    ∷ claim 1 105 calm
    ∷ reclaim 106 poison
    ∷ claim 1 107 calm
    ∷ reclaim 108 poison
    ∷ claim 1 109 calm
    ∷ []

abbrev empty_bus : Bus
empty_bus = record { remote = none; local = [] }

crashes_fire : fires 1 empty_bus crashes ≡ 4
unfolding apply try_claim_command enqueue_control_command_local reclaim_orphaned_processing_commands
crashes_fire = refl

fires_bounded_example : fires 1 empty_bus crashes ≤ max_reclaim_attempts + 1
fires_bounded_example = fires_bounded 1 crashes

abbrev done : Row
done = record flatten { status = completed; processed_at = some 103 }

finished_stays_example :
    Memᴰ done
      (run
        (record { remote = some []; local = done ∷ [] })
        (reclaim 104 poison ∷ start 2 105 never ∷ mirror 500 [] ∷ later_ops)).local
finished_stays_example =
    finished_stays done (record { remote = some []; local = done ∷ [] })
      (reclaim 104 poison ∷ start 2 105 never ∷ mirror 500 [] ∷ later_ops) refl
      (refl, (refl, (refl, (refl, (refl, (refl, (refl, tt))))))) (Memᴰ.head refl)

-- A younger flatten behind an older configuration reload, with a limit of one.
abbrev reload : Row
reload = new_row reload_config [] none none 2 90 none

abbrev crowded : Bus
crowded = record { remote = none; local = reload ∷ flatten ∷ [] }

crowded_claims_at_two :
    length (fetch_and_claim_emergency_commands 2 crowded false 101 (λ _. calm)).1 ≡ 1
unfolding fetch_and_claim_emergency_commands fetch_pending_commands oldest_pending try_claim_command
crowded_claims_at_two = refl

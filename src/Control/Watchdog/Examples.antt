-- ===== src/Control/Watchdog/Examples.antt =====
-- An operator's halt and a stale heartbeat.
use systematic_trading_valid.Common.{
  List, [], nat_eq, none, pair_eq, refl, some, true, ℕ, ◌*◌, ◌∷◌, ◌≡◌,
}
use systematic_trading_valid.Common.Text.{lower, text, text_eq, upper}
use systematic_trading_valid.Engine.Escalation.{
  Snapshot, entry_gate_halt, fresh, level_eq, transition,
}
use systematic_trading_valid.Control.Watchdog.{
  Reading, Watchdog, check, healthy, new_watchdog, own_name, reason_of, run_checks, stay_healthy,
}
use systematic_trading_valid.Control.Watchdog.Recovery.{IsOwnHalt, lifts-IsOwnHalt}

abbrev second : ℕ
second = 1000000

abbrev operator_halt : Snapshot
operator_halt = record fresh { level = entry_gate_halt; commanded_by = text "operator" }

abbrev paper : Watchdog
paper = new_watchdog (120 * second) 0 (text "paper") true 2 operator_halt

abbrev live : Watchdog
live = new_watchdog (120 * second) 0 (text "Live") true 2 operator_halt

abbrev beat : ℕ → ℕ → Reading
beat now latest = record {
  now = now * second;
  market_open = true;
  latest = some (latest * second);
  last_cycle = none;
  gate = some (text "open");
}

abbrev recovery : List Reading
recovery = beat 1030 1020 ∷ beat 1060 1050 ∷ []

operator_halt_lifted :
    (run_checks paper (beat 1000 800 ∷ recovery)).escalation.commanded_by
    ≡ text "heartbeat_watchdog_recovery"
unfolding run_checks check reason_of transition stay_healthy new_watchdog lower upper
operator_halt_lifted = refl

-- One healthy check from the end of the streak.
abbrev nearly : Watchdog
nearly = record {
  threshold = 120 * second;
  started_at = 0;
  allow_deesc = true;
  streak_required = 2;
  fresh_streak = 1;
  escalation = record operator_halt { commanded_by = own_name };
}

lifts-IsOwnHalt_example : (reason_of nearly (beat 1060 1050) ≡ healthy) × IsOwnHalt nearly
unfolding check reason_of transition stay_healthy upper
lifts-IsOwnHalt_example = lifts-IsOwnHalt nearly (beat 1060 1050) (λ e. cc) refl

-- ===== src/Alerts/Throttle/Examples.antt =====
-- A stale heartbeat that two polls report, a recovery, and a new fault.
use systematic_trading_valid.Common.{List, [], nat_eq, pair_eq, refl, some, ℕ, ◌*◌, ◌∷◌, ◌≡◌}
use systematic_trading_valid.Common.Text.{text, text_eq}
use systematic_trading_valid.Common.Dict.{erase, insert, lookup}
use systematic_trading_valid.Alerts.Throttle.{Key, key_of, notify, required_wait, resolve}
use systematic_trading_valid.Alerts.Throttle.Pacing.{
  Event, Follows, notified, page, recovery, resolved, run, run-Follows, start, step,
}

abbrev heartbeat : Key
heartbeat = key_of (some (text "watchdog")) (some (text "stale"))

abbrev second : ℕ
second = 1000000

abbrev polls : List Event
polls =
    notified (1000 * second) heartbeat
    ∷ notified (1030 * second) heartbeat
    ∷ notified (1300 * second) heartbeat
    ∷ notified (2100 * second) heartbeat
    ∷ resolved heartbeat
    ∷ resolved heartbeat
    ∷ notified (2130 * second) heartbeat
    ∷ []

polls_log :
    (run start polls).log
    ≡ page (2130 * second) heartbeat
      ∷ recovery heartbeat
      ∷ page (1300 * second) heartbeat
      ∷ page (1000 * second) heartbeat
      ∷ []
unfolding run step notify resolve required_wait lookup insert erase
polls_log = refl

run-Follows_example : Follows (run start polls)
run-Follows_example = run-Follows polls

-- ===== src/Alerts/Throttle.antt =====
-- src/alerts/throttle.py. Times are microseconds; a message is what the wrapped notifier is asked to
-- send. The state is changed before that call, so a failure of the notifier changes nothing here.
pub mod Pacing
mod Examples
use systematic_trading_valid.Common.{
  List, Option, [], if◌then◌else◌, leb, length, min, nat_eq, none, pair_eq, some, suc, zero, ℕ, ◌+◌,
  ◌-◌, ◌∷◌,
}
use systematic_trading_valid.Common.Text.{Text, text_eq}
use systematic_trading_valid.Common.Dict.{Dict, erase, has_key, insert, lookup}

-- The key of a condition: its component and its kind.
abbrev pub Key : Type 0
Key = Text × Text

pub record Entry : Type 0 where
  pub last_sent : ℕ
  pub sends : ℕ

pub data Message : Type 0 where
  forwarded recovered : Key → Message

-- `_BACKOFF_SCHEDULE_S`
abbrev pub backoff_schedule : List ℕ
backoff_schedule = 300000000 ∷ 900000000 ∷ 3600000000 ∷ []

-- `schedule[n]`, of which the last item is `schedule[-1]`
abbrev pub item : ℕ → List ℕ → ℕ
item n [] = 0
item n (w ∷ []) = w
item zero (w ∷ v ∷ ws) = w
item (suc n) (w ∷ v ∷ ws) = item n (v ∷ ws)

-- `_required_wait(sends)`: at 0 sends the source's index is -1.
unfoldable pub required_wait : ℕ → ℕ
required_wait zero = item (length backoff_schedule) backoff_schedule
required_wait (suc n) = item (min n (length backoff_schedule - 1)) backoff_schedule

-- `detail.get("component", "")` and `alert.get("kind", "")`
abbrev pub or_blank : Option Text → Text
or_blank none = []
or_blank (some t) = t

abbrev pub key_of : Option Text → Option Text → Key
key_of component kind = (or_blank component, or_blank kind)

-- `notify`, on what `self._state.get(key)` returned
abbrev pub notify_on : Option Entry → Dict Key Entry → ℕ → Key → Dict Key Entry × Option Message
notify_on none d now key =
    (insert key (record { last_sent = now; sends = 1 }) d, some (forwarded key))
notify_on (some st) d now key =
    if leb (st.last_sent + required_wait st.sends) now
    then (insert key (record { last_sent = now; sends = suc st.sends }) d, some (forwarded key))
    else (d, none)

unfoldable pub notify : Dict Key Entry → ℕ → Key → Dict Key Entry × Option Message
notify d now key = notify_on (lookup key d) d now key

unfoldable pub resolve : Dict Key Entry → Key → Dict Key Entry × Option Message
resolve d key = if has_key key d then (erase key d, some (recovered key)) else (d, none)

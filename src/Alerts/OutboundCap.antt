-- ===== src/Alerts/OutboundCap.antt =====
-- src/alerts/outbound_cap.py. The shared SQLite tables are two lists; times are microseconds since
-- the epoch, whose order is that of the ISO texts that the tables compare. A database fault is the
-- Boolean argument of `allow`.
pub mod Windows
pub mod Overlap
pub mod Loads
pub mod Limits
pub mod Starvation
mod Examples
use systematic_trading_valid.Common.{
  Bool, Eq, List, Option, [], arith, contains, count_if, false, if◌then◌else◌, leb, ltb, max,
  nat_eq, none, pair_eq, some, true, ℕ, ◌&&◌, ◌+◌, ◌-◌, ◌==◌, ◌||◌, ◌↔◌, ◌∷◌, ◌≡◌,
}
use systematic_trading_valid.Common.Text.{Text, lower, text, text_eq}

pub data Lane : Type 0 where
  priority routine : Lane

abbrev pub lane_beq : Lane → Lane → Bool
lane_beq priority priority = true
lane_beq routine routine = true
lane_beq _ _ = false

pub lane_beq_iff : (a b : Lane) → (lane_beq a b ≡ true) ↔ (a ≡ b)
lane_beq_iff a b = ground arith

instance abbrev pub lane_eq : Eq Lane
lane_eq = record { same = lane_beq; same_iff = lane_beq_iff }

-- A row of `alert_channel_sends`.
pub record Send : Type 0 where
  pub sent : ℕ
  pub kind : Text
  pub lane : Lane

pub record Cap : Type 0 where
  pub routine_per_hour : ℕ
  pub routine_per_day : ℕ
  pub priority_per_hour : ℕ
  pub backoff : ℕ
  pub sends : List Send
  pub incidents : List ℕ

abbrev pub hour : ℕ
hour = 3600000000

abbrev pub day : ℕ
day = 86400000000

-- The defaults: `MAX_ROUTINE_PER_HOUR`, `MAX_ROUTINE_PER_DAY`, `PRIORITY_PER_HOUR` and
-- `BACKOFF_AFTER_429_SECONDS`, over empty tables
abbrev pub new_cap : Cap
new_cap = record {
  routine_per_hour = 8;
  routine_per_day = 50;
  priority_per_hour = 4;
  backoff = hour;
  sends = [];
  incidents = [];
}

abbrev pub or_empty : Option Text → Text
or_empty none = []
or_empty (some t) = t

unfoldable pub is_priority : Option Text → Option Text → Bool
is_priority kind severity =
    (or_empty kind == text "daily_liveness")
    || contains (lower (or_empty severity)) (text "urgent" ∷ text "critical" ∷ text "high" ∷ [])

abbrev pub counts : ℕ → Lane → Send → Bool
counts since lane s = leb since s.sent && (s.lane == lane)

-- `_count_since(c, since, lane)`
abbrev pub count_since : ℕ → Lane → List Send → ℕ
count_since since lane sends = count_if (counts since lane) sends

-- `SELECT MAX(at_utc)`
abbrev pub latest : List ℕ → Option ℕ
latest [] = none
latest (t ∷ ts) = elim (latest ts) [ none ↦ some t | some u ↦ some (max t u) ]

pub data Verdict : Type 0 where
  allowed : Lane → Verdict
  channel_backoff_after_429 priority_hourly_cap routine_hourly_cap routine_daily_cap : Verdict
  cap_error_fail_open : Verdict

-- The instant before which a row is older than the window; there are none before the epoch.
abbrev pub ago : ℕ → ℕ → ℕ
ago now window = now - window

abbrev pub in_backoff : Cap → ℕ → Bool
in_backoff c now = elim (latest c.incidents) [ none ↦ false | some t ↦ ltb now (t + c.backoff) ]

abbrev pub row : ℕ → Option Text → Lane → Send
row now kind lane = record { sent = now; kind = or_empty kind; lane = lane }

-- What the reads of `allow` come to, on either lane
unfoldable pub judge_priority : Cap → ℕ → Verdict
judge_priority c now =
    if leb c.priority_per_hour (count_since (ago now hour) priority c.sends)
    then priority_hourly_cap
    else allowed priority

unfoldable pub judge_routine : Cap → ℕ → Verdict
judge_routine c now =
    if in_backoff c now
    then channel_backoff_after_429
    else if leb c.routine_per_hour (count_since (ago now hour) routine c.sends)
    then routine_hourly_cap
    else if leb c.routine_per_day (count_since (ago now day) routine c.sends)
    then routine_daily_cap
    else allowed routine

unfoldable pub judge : Cap → ℕ → Option Text → Option Text → Bool → Verdict
judge c now kind severity fault =
    if fault
    then cap_error_fail_open
    else if is_priority kind severity
    then judge_priority c now
    else judge_routine c now

-- The row that `allow` inserts after its reads, if it does
abbrev pub row_for : ℕ → Option Text → Verdict → Option Send
row_for now kind (allowed lane) = some (row now kind lane)
row_for now kind channel_backoff_after_429 = none
row_for now kind priority_hourly_cap = none
row_for now kind routine_hourly_cap = none
row_for now kind routine_daily_cap = none
row_for now kind cap_error_fail_open = none

abbrev pub insert_row : Option Send → Cap → Cap
insert_row none c = c
insert_row (some x) c = record c { sends = x ∷ c.sends }

-- A call that no other process interrupts between its reads and its insert, which are no transaction
unfoldable pub allow : Cap → ℕ → Option Text → Option Text → Bool → Cap × Verdict
allow c now kind severity fault =
    let v = judge c now kind severity fault in (insert_row (row_for now kind v) c, v)

unfoldable pub note_429 : Cap → ℕ → Bool → Cap
note_429 c now fault = if fault then c else record c { incidents = now ∷ c.incidents }

-- `stats`: the sends of the last hour and day, and the last 429
unfoldable pub stats : Cap → ℕ → ℕ × ℕ × Option ℕ
stats c now = (
  count_if (λ s. leb (ago now hour) s.sent) c.sends,
  count_if (λ s. leb (ago now day) s.sent) c.sends,
  latest c.incidents,
)

-- ===== src/Execution/Submission.antt =====
-- src/execution/idempotent_execution.py: the deterministic order id and the submitter. The broker, which
-- the source knows by a protocol only, and SHA-256 are parameters. The lock of an id makes the calls for
-- it a sequence. A quantity is an exact multiple of a smallest unit.
pub mod Storm
mod Examples
use systematic_trading_valid.Common.{
  Bool, List, Option, Result, [], contains, err, false, if◌then◌else◌, nat_eq, none, not, ok,
  pair_eq, some, take, true, ◌++◌, ◌==◌, ◌∷◌, ◌≡◌,
}
use systematic_trading_valid.Common.Int.{max_ℤ, pos, ℤ, ◌-ℤ◌}
use systematic_trading_valid.Common.Text.{Text, lower, text, text_eq}
use systematic_trading_valid.Engine.EntryAuthority.{EntryDecision}

pub record Intent : Type 0 where
  pub leg_id : Text
  pub symbol : Text
  pub side : Text
  pub qty : ℤ
  pub signal_ts : Text
  pub epoch : Text

pub record BrokerOrder : Type 0 where
  pub client_order_id : Text
  pub symbol : Text
  pub side : Text
  pub qty : ℤ
  pub status : Text
  pub filled_qty : ℤ
  pub filled_avg_price : ℤ
  pub order_id : Option Text

-- `TERMINAL_STATUSES`, and `is_terminal`
abbrev pub terminal_statuses : List Text
terminal_statuses =
    text "filled" ∷ text "canceled" ∷ text "cancelled" ∷ text "expired" ∷ text "rejected" ∷ []

unfoldable pub is_terminal : BrokerOrder → Bool
is_terminal o = contains (lower o.status) terminal_statuses

unfoldable pub remainder : BrokerOrder → ℤ
remainder o = max_ℤ (o.qty -ℤ o.filled_qty) (pos 0)

abbrev pub bar : Text
bar = text "|"

-- The id of an intent, by the hexadecimal digest that `sha256` gives of a text
unfoldable pub deterministic_client_order_id : (Text → Text) → Intent → Text
deterministic_client_order_id sha256 i =
    text "mbappe-"
    ++ take 38 (sha256 (i.leg_id ++ bar ++ i.signal_ts ++ bar ++ lower i.side ++ bar ++ i.epoch))

-- What the source uses of a broker (`ExecutionBroker`), and what it relies on: an order that was
-- submitted is found under its id, and a submission does not change what other ids find.
pub record Broker (S : Type 0) (id_of : Intent → Text) : Type 0 where
  pub submit : S → Intent → S × BrokerOrder
  pub get_by_client_order_id : S → Text → Option BrokerOrder
  pub found :
      (s : S) (i : Intent) → get_by_client_order_id (submit s i).0 (id_of i) ≡ some (submit s i).1
  pub others :
      (s : S) (i : Intent) (id : Text)
      → (id_of i == id) ≡ false
      → get_by_client_order_id (submit s i).0 id ≡ get_by_client_order_id s id

pub record SubmitResult : Type 0 where
  pub order : BrokerOrder
  pub was_noop : Bool
  pub reported : Bool

-- `EntryBlockedException` and `EnginePreemptedException`
pub data Refusal : Type 0 where
  entry_blocked : EntryDecision → Refusal
  engine_preempted : Refusal

-- The answers of the optional guard and of the optional preemption check at the time of a call.
pub record Call : Type 0 where
  pub intent : Intent
  pub entry_guard : Option EntryDecision
  pub preempt_check : Option Bool

abbrev pub guard_allows : Option EntryDecision → Bool
guard_allows none = true
guard_allows (some d) = d.allowed

abbrev pub preempts : Option Bool → Bool
preempts none = false
preempts (some b) = b

abbrev pub refusal_of : Option EntryDecision → Refusal
refusal_of none = engine_preempted
refusal_of (some d) = entry_blocked d

module _ {S : Type 0} {id_of : Intent → Text} (b : Broker S id_of) where
  -- `submit`, on what `get_by_client_order_id` returned
  abbrev pub submit_on : Option BrokerOrder → S → Call → S × Result Refusal SubmitResult
  submit_on (some o) s c = (s, ok (record { order = o; was_noop = true; reported = false }))
  submit_on none s c =
      let sent = b.submit s c.intent in
      if not (guard_allows c.entry_guard)
      then (s, err (refusal_of c.entry_guard))
      else if preempts c.preempt_check
      then (s, err engine_preempted)
      else (
        sent.0,
        ok (record {
          order = sent.1;
          was_noop = false;
          reported = lower sent.1.status == text "rejected";
        }),
      )

  unfoldable pub submit : S → Call → S × Result Refusal SubmitResult
  submit s c = submit_on (b.get_by_client_order_id s (id_of c.intent)) s c

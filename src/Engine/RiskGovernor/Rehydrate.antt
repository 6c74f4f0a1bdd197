-- ===== src/Engine/RiskGovernor/Rehydrate.antt =====
-- The persisted state: `serialize_risk_state`, `rehydrate_risk_state` and `maybe_enqueue_persist`. The text that
-- `payload_fingerprint` makes of a payload is a parameter.
use systematic_trading_valid.Common.{
  Bool, List, Option, [], contains, false, if◌then◌else◌, map, nat_eq, none, pair_eq, some, true,
  ◌==◌, ◌∷◌,
}
use systematic_trading_valid.Common.Int.{pos, ℤ}
use systematic_trading_valid.Common.Text.{Text, insert_sorted, text_eq}
use systematic_trading_valid.Common.Dict.{Dict, insert}
use systematic_trading_valid.Engine.RiskGovernor.{
  Drawdown, Governor, add_id, discard_id, drawdown_of, formula_version, new_governor, no_drawdown,
  peak_of,
}

pub record PersistedRow : Type 0 where
  peak_equity : ℤ
  trailing_drawdown : Drawdown
  exit_only_mode : Bool

pub record RiskPayload : Type 0 where
  pub stamped_version : Option Text
  pub broker_peak : ℤ
  pub strategies : Dict Text PersistedRow

abbrev pub keys {ℓ} : {V : Type ℓ} → Dict Text V → List Text
keys [] = []
keys ((k, v) ∷ d) = k ∷ keys d

-- `sorted(…)` of the union of the keys
abbrev pub sort_all : List Text → List Text → List Text
sort_all [] acc = acc
sort_all (s ∷ ss) acc = insert_sorted s (sort_all ss acc)

abbrev pub known_ids : Governor → List Text
known_ids g =
    sort_all (keys g.strategy_peaks)
      (sort_all (keys g.strategy_drawdowns) (sort_all g.strategy_exit_only []))

abbrev pub row_of : Governor → Text → PersistedRow
row_of g s = record {
  peak_equity = peak_of g s;
  trailing_drawdown = drawdown_of g s;
  exit_only_mode = contains s g.strategy_exit_only;
}

unfoldable pub serialize_risk_state : Governor → RiskPayload
serialize_risk_state g = record {
  stamped_version = some formula_version;
  broker_peak = g.peak_broker_equity;
  strategies = map (λ s. (s, row_of g s)) (known_ids g);
}

abbrev pub restore_row : Text → PersistedRow → Governor → Governor
restore_row s r g = record g {
  strategy_peaks = insert s r.peak_equity g.strategy_peaks;
  strategy_drawdowns = insert s r.trailing_drawdown g.strategy_drawdowns;
  strategy_exit_only =
      if r.exit_only_mode then add_id s g.strategy_exit_only else discard_id s g.strategy_exit_only;
  equity_history = insert s (r.peak_equity ∷ []) g.equity_history;
}

abbrev pub restore_rows : Dict Text PersistedRow → Governor → Governor
restore_rows [] g = g
restore_rows ((s, r) ∷ d) g = restore_rows d (restore_row s r g)

abbrev seed_row : PersistedRow
seed_row = record { peak_equity = pos 0; trailing_drawdown = no_drawdown; exit_only_mode = false }

-- A leg that has not traded starts at a peak profit of zero, whatever its baseline is.
abbrev seed_baselines : List Text → Governor → Governor
seed_baselines [] g = g
seed_baselines (s ∷ ss) g = seed_baselines ss (restore_row s seed_row g)

abbrev forget : Governor → Governor
forget g = new_governor

abbrev rows_of : Option RiskPayload → Dict Text PersistedRow
rows_of none = []
rows_of (some p) = p.strategies

abbrev pub stamp_of : Option RiskPayload → Option Text
stamp_of none = none
stamp_of (some p) = p.stamped_version

abbrev pub broker_peak_of : ℤ → Option RiskPayload → ℤ
broker_peak_of q none = q
broker_peak_of q (some p) = p.broker_peak

abbrev pub is_current : Option Text → Bool
is_current none = false
is_current (some t) = t == formula_version

module _ (payload_fingerprint : RiskPayload → Text) where
  abbrev pub rehydrate_rows :
      Dict Text PersistedRow → Governor → Option RiskPayload → List Text → Governor × Bool
  rehydrate_rows [] g p baselines =
      (record (seed_baselines baselines g) { last_persisted = [] }, false)
  rehydrate_rows (r ∷ rs) g p baselines =
      let h =
        restore_rows (r ∷ rs)
          (record g { peak_broker_equity = broker_peak_of g.peak_broker_equity p }) in
      if is_current (stamp_of p)
      then (record h { last_persisted = payload_fingerprint (serialize_risk_state h) }, true)
      else (forget g, false)

  unfoldable pub rehydrate_risk_state : Governor → Option RiskPayload → List Text → Governor × Bool
  rehydrate_risk_state g p baselines = rehydrate_rows (rows_of p) g p baselines

  -- The payload that is enqueued, if the state changed
  abbrev persist_rows : Dict Text PersistedRow → Governor → Governor × Option RiskPayload
  persist_rows [] g = (g, none)
  persist_rows (r ∷ rs) g =
      let payload = serialize_risk_state g in
      let fingerprint = payload_fingerprint payload in
      if fingerprint == g.last_persisted
      then (g, none)
      else (record g { last_persisted = fingerprint }, some payload)

  unfoldable maybe_enqueue_persist : Governor → Governor × Option RiskPayload
  unfolding serialize_risk_state
  maybe_enqueue_persist g = persist_rows (serialize_risk_state g).strategies g

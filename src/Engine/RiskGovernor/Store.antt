-- ===== src/Engine/RiskGovernor/Store.antt =====
-- src/persistence/portfolio_risk_state_store.py: the table that keeps the governor's state over a restart. A row is
-- the columns of one leg with the stamp of the formula; there is no column for the broker's high water.
-- Of a write, the one that succeeds; the archive is not modelled.
use systematic_trading_valid.Common.{
  Bool, Bool-cases, List, Option, [], ap, false, if◌then◌else◌, inl, inr, map, nat_eq, none,
  pair_eq, refl, some, true, ◌&&◌, ◌==◌, ◌∙◌, ◌∷◌, ◌≡◌, ◌⊎◌,
}
use systematic_trading_valid.Common.Int.{pos, ℤ}
use systematic_trading_valid.Common.Text.{Text, insert_sorted, text_beq, text_eq, text_leb}
use systematic_trading_valid.Common.Dict.{Dict}
use systematic_trading_valid.Engine.RiskGovernor.{Governor, formula_version}
use systematic_trading_valid.Engine.RiskGovernor.Rehydrate.{
  PersistedRow, RiskPayload, known_ids, row_of, serialize_risk_state, sort_all,
}

pub record StoredRow : Type 0 where
  strategy_id : Text
  columns : PersistedRow
  stamp : Option Text

-- In one transaction the rows before are deleted and those of the payload inserted.
unfoldable pub persist_portfolio_risk_state : RiskPayload → List StoredRow
persist_portfolio_risk_state p =
    map (λ e. record { strategy_id = e.0; columns = e.1; stamp = p.stamped_version }) p.strategies

-- `ORDER BY strategy_id`, which is the primary key
abbrev order_row : Text → PersistedRow → Dict Text PersistedRow → Dict Text PersistedRow
order_row s r [] = (s, r) ∷ []
order_row s r ((t, q) ∷ d) =
    let rest = order_row s r d in
    if text_beq t s then (t, q) ∷ d else if text_leb s t then (s, r) ∷ (t, q) ∷ d else (t, q) ∷ rest

abbrev in_order : List StoredRow → Dict Text PersistedRow
in_order [] = []
in_order (x ∷ xs) = order_row x.strategy_id x.columns (in_order xs)

abbrev same_stamp : Option Text → Option Text → Bool
same_stamp none none = true
same_stamp (some s) (some t) = s == t
same_stamp _ _ = false

abbrev all_stamped : Option Text → List StoredRow → Bool
all_stamped s [] = true
all_stamped s (x ∷ xs) = same_stamp x.stamp s && all_stamped s xs

-- `stamps.pop() if len(stamps) == 1 else None`
abbrev one_stamp : List StoredRow → Option Text
one_stamp [] = none
one_stamp (x ∷ xs) = if all_stamped x.stamp xs then x.stamp else none

-- A payload that is read back has no `peak_broker_equity`, for which `rehydrate_risk_state` takes 0.
unfoldable pub load_portfolio_risk_state : List StoredRow → Option RiskPayload
load_portfolio_risk_state [] = none
load_portfolio_risk_state (x ∷ xs) = some (record {
  stamped_version = one_stamp (x ∷ xs);
  broker_peak = pos 0;
  strategies = in_order (x ∷ xs);
})

-- Rows that a governor wrote
abbrev pub rows_for : Governor → List Text → Dict Text PersistedRow
rows_for g ids = map (λ s. (s, row_of g s)) ids

abbrev pub payload_of : Dict Text PersistedRow → RiskPayload
payload_of rows = record {
  stamped_version = some formula_version;
  broker_peak = pos 0;
  strategies = rows;
}

order_row-rows_for :
    (g : Governor) (s : Text) (ts : List Text)
    → order_row s (row_of g s) (rows_for g ts) ≡ rows_for g (insert_sorted s ts)
order_row-rows_for g s [] = refl
order_row-rows_for g s (t ∷ ts) = elim (Bool-cases (text_beq t s)) [
  | inl e ↦ simp e refl
  | inr e ↦ elim (Bool-cases (text_leb s t)) [
    | inl f ↦ simp (e, f) refl
    | inr f ↦ simp (e, f) (ap (λ d. (t, row_of g t) ∷ d) (order_row-rows_for g s ts))
  ]
]

abbrev stored_row : Governor → Text → StoredRow
stored_row g s = record { strategy_id = s; columns = row_of g s; stamp = some formula_version }

abbrev stored : Governor → List Text → List StoredRow
stored g [] = []
stored g (s ∷ ss) = stored_row g s ∷ stored g ss

in_order-stored :
    (g : Governor) (ids : List Text) → in_order (stored g ids) ≡ rows_for g (sort_all ids [])
in_order-stored g [] = refl
in_order-stored g (s ∷ ss) =
    ap (order_row s (row_of g s)) (in_order-stored g ss) ∙ order_row-rows_for g s (sort_all ss [])

all_stamped-stored :
    (g : Governor) (ids : List Text) → all_stamped (some formula_version) (stored g ids) ≡ true
all_stamped-stored g [] = refl
all_stamped-stored g (s ∷ ss) = all_stamped-stored g ss

persisted :
    (g : Governor) (broker : ℤ) (ids : List Text)
    → persist_portfolio_risk_state (record {
      stamped_version = some formula_version;
      broker_peak = broker;
      strategies = rows_for g ids;
    })
      ≡ stored g ids
unfolding persist_portfolio_risk_state
persisted g broker [] = refl
persisted g broker (s ∷ ss) = ap (λ l. stored_row g s ∷ l) (persisted g broker ss)

loaded :
    (g : Governor) (s : Text) (ss : List Text)
    → load_portfolio_risk_state (stored g (s ∷ ss))
      ≡ some (payload_of (rows_for g (sort_all (s ∷ ss) [])))
unfolding load_portfolio_risk_state
loaded g s ss =
    simp (all_stamped-stored g ss) (ap (λ d. some (payload_of d)) (in_order-stored g (s ∷ ss)))

load_nothing : load_portfolio_risk_state [] ≡ none
unfolding load_portfolio_risk_state
load_nothing = refl

loaded_for :
    (g : Governor) (ids : List Text) (rows : List StoredRow)
    → rows ≡ stored g ids
    → (load_portfolio_risk_state rows ≡ none)
      ⊎ (load_portfolio_risk_state rows ≡ some (payload_of (rows_for g (sort_all ids []))))
loaded_for g [] rows e = inl (ap load_portfolio_risk_state e ∙ load_nothing)
loaded_for g (s ∷ ss) rows e = inr (ap load_portfolio_risk_state e ∙ loaded g s ss)

-- What the store gives back of a governor's state: nothing, if it has no leg, or its rows.
pub stored_state :
    (g : Governor)
    → (load_portfolio_risk_state (persist_portfolio_risk_state (serialize_risk_state g)) ≡ none)
      ⊎ (load_portfolio_risk_state (persist_portfolio_risk_state (serialize_risk_state g))
          ≡ some (payload_of (rows_for g (sort_all (known_ids g) []))))
unfolding serialize_risk_state
stored_state g = loaded_for g (known_ids g) _ (persisted g g.peak_broker_equity (known_ids g))

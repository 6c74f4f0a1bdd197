-- ===== src/Execution/BootReconciliation.antt =====
-- src/execution/idempotent_execution.py: `reconcile_boot`. A quantity is an exact multiple of a smallest
-- unit. The symbols are taken in the order of the two dictionaries, where the source sorts them: the
-- order of the mismatches in the report is not modelled. The optional escalation and report sink are
-- taken as given.
pub mod Agreement
mod Examples
use systematic_trading_valid.Common.{
  Bool, List, Option, [], contains, false, if◌then◌else◌, leb, ltb, nat_eq, none, pair_eq, some,
  true, ℕ, ◌&&◌, ◌++◌, ◌∷◌,
}
use systematic_trading_valid.Common.Int.{abs_ℤ, pos, ℤ, ◌-ℤ◌}
use systematic_trading_valid.Common.Text.{Text, text, text_eq, upper}
use systematic_trading_valid.Common.Dict.{Dict, insert, lookup}
use systematic_trading_valid.Engine.Escalation.{
  Order, Snapshot, entry_gate_halt, level_eq, transition,
}

pub data Mismatch : Type 0 where
  unknown_broker_position missing_broker_position position_qty : Text → ℤ → ℤ → Mismatch
  orphan_open_order : Text → Mismatch

pub record Report : Type 0 where
  pub mismatches : List Mismatch
  pub tripped : Bool

-- `{s.upper(): q for s, q in positions.items()}`
abbrev pub upper_keys : Dict Text ℤ → Dict Text ℤ → Dict Text ℤ
upper_keys [] d = d
upper_keys ((s, q) ∷ ps) d = upper_keys ps (insert (upper s) q d)

abbrev pub keys : Dict Text ℤ → List Text
keys [] = []
keys ((s, q) ∷ d) = s ∷ keys d

-- `d.get(sym, 0.0)`
abbrev pub or_zero : Option ℤ → ℤ
or_zero none = pos 0
or_zero (some q) = q

abbrev pub get_qty : Text → Dict Text ℤ → ℤ
get_qty s d = or_zero (lookup s d)

-- The body of the loop: the mismatch of one symbol, if there is one
unfoldable pub symbol_mismatch : ℕ → Text → ℤ → ℤ → Option Mismatch
symbol_mismatch tol s i b =
    if ltb (abs_ℤ i) tol && leb tol (abs_ℤ b)
    then some (unknown_broker_position s i b)
    else if leb tol (abs_ℤ i) && ltb (abs_ℤ b) tol
    then some (missing_broker_position s i b)
    else if ltb tol (abs_ℤ (i -ℤ b))
    then some (position_qty s i b)
    else none

abbrev pub add_some : Option Mismatch → List Mismatch → List Mismatch
add_some none ms = ms
add_some (some m) ms = m ∷ ms

abbrev pub position_mismatches : ℕ → Dict Text ℤ → Dict Text ℤ → List Text → List Mismatch
position_mismatches tol internal broker [] = []
position_mismatches tol internal broker (s ∷ ss) =
    add_some (symbol_mismatch tol s (get_qty s internal) (get_qty s broker))
      (position_mismatches tol internal broker ss)

-- `x or set()`
abbrev pub or_none : Option (List Text) → List Text
or_none none = []
or_none (some s) = s

-- `sorted(boc - ioc)`: nothing if neither set is given
abbrev pub orphans : List Text → List Text → List Mismatch
orphans internal [] = []
orphans internal (c ∷ cs) =
    let rest = orphans internal cs in
    if contains c internal then rest else orphan_open_order c ∷ rest

abbrev pub is_empty : List Mismatch → Bool
is_empty [] = true
is_empty (m ∷ ms) = false

abbrev pub boot_order : Order
boot_order = record {
  new_level = entry_gate_halt;
  scope = text "GLOBAL";
  strategy = none;
  symbol = none;
  by = text "boot_reconciliation";
}

abbrev pub all_mismatches :
    ℕ → Dict Text ℤ → Dict Text ℤ → Option (List Text) → Option (List Text) → List Mismatch
all_mismatches tol internal broker internal_open broker_open =
    let i = upper_keys internal [] in
    let b = upper_keys broker [] in
    position_mismatches tol i b (keys i ++ keys b)
    ++ orphans (or_none internal_open) (or_none broker_open)

-- `reconcile_boot`: its report, the escalation after it, and whether it is sent to the sink
unfoldable pub reconcile_boot :
    ℕ
    → Dict Text ℤ
    → Dict Text ℤ
    → Option (List Text)
    → Option (List Text)
    → Snapshot
    → Report × Snapshot × Bool
reconcile_boot tol internal broker internal_open broker_open escalation =
    let ms = all_mismatches tol internal broker internal_open broker_open in
    if is_empty ms
    then (record { mismatches = ms; tripped = false }, escalation, false)
    else (record { mismatches = ms; tripped = true }, transition escalation boot_order, true)

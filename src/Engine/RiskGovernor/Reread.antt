-- ===== src/Engine/RiskGovernor/Reread.antt =====
-- The governor that the rows of another are read into.
use systematic_trading_valid.Common.{
  Bool, Bool-cases, List, Option, [], ap, arith, beq_iff, contains, false, if◌then◌else◌, inl, inr,
  is_some, nat_eq, none, or_default, pair_eq, refl, some, sym, true, ◌==◌, ◌||◌, ◌∙◌, ◌∷◌, ◌≡◌,
}
use systematic_trading_valid.Common.Int.{pos, ℤ, ◌≤ℤ◌}
use systematic_trading_valid.Common.Text.{Text, text_eq}
use systematic_trading_valid.Common.Dict.{Dict, lookup, lookup-insert}
use systematic_trading_valid.Engine.RiskGovernor.{
  Governor, add_id, discard_id, drawdown_of, history_of, new_governor, no_drawdown, peak_of,
}
use systematic_trading_valid.Engine.RiskGovernor.Rehydrate.{
  PersistedRow, known_ids, restore_row, restore_rows, row_of, sort_all,
}
use systematic_trading_valid.Engine.RiskGovernor.Store.{rows_for}
use systematic_trading_valid.Engine.RiskGovernor.HighWater.{ArePeaked}
use systematic_trading_valid.Engine.RiskGovernor.Ids.{
  contains-add_id, contains-discard_id, contains-keys, contains-sort_all,
}
use systematic_trading_valid.Engine.RiskGovernor.Alike.{SameState}

choose_same {ℓ} : {A : Type ℓ} (b : Bool) (x y : A) → y ≡ x → (if b then x else y) ≡ x
choose_same true x y e = refl
choose_same false x y e = e

restored_peak :
    (g h : Governor) (ids : List Text) (t : Text)
    → peak_of (restore_rows (rows_for g ids) h) t
      ≡ (if contains t ids then peak_of g t else peak_of h t)
restored_peak g h [] t = refl
restored_peak g h (s ∷ ss) t = elim (Bool-cases (s == t)) [
  | inl e ↦
      simp (restored_peak g (restore_row s (row_of g s) h) ss t, lookup-insert, e)
        (choose_same (contains t ss) _ _ (ap (peak_of g) ((beq_iff s t).0 e)))
  | inr e ↦ simp (restored_peak g (restore_row s (row_of g s) h) ss t, lookup-insert, e)
]

restored_drawdown :
    (g h : Governor) (ids : List Text) (t : Text)
    → drawdown_of (restore_rows (rows_for g ids) h) t
      ≡ (if contains t ids then drawdown_of g t else drawdown_of h t)
restored_drawdown g h [] t = refl
restored_drawdown g h (s ∷ ss) t = elim (Bool-cases (s == t)) [
  | inl e ↦
      simp (restored_drawdown g (restore_row s (row_of g s) h) ss t, lookup-insert, e)
        (choose_same (contains t ss) _ _ (ap (drawdown_of g) ((beq_iff s t).0 e)))
  | inr e ↦ simp (restored_drawdown g (restore_row s (row_of g s) h) ss t, lookup-insert, e)
]

restored_history :
    (g h : Governor) (ids : List Text) (t : Text)
    → history_of (restore_rows (rows_for g ids) h) t
      ≡ (if contains t ids then peak_of g t ∷ [] else history_of h t)
restored_history g h [] t = refl
restored_history g h (s ∷ ss) t = elim (Bool-cases (s == t)) [
  | inl e ↦
      simp (restored_history g (restore_row s (row_of g s) h) ss t, lookup-insert, e)
        (choose_same (contains t ss) _ _ (ap (λ r. peak_of g r ∷ []) ((beq_iff s t).0 e)))
  | inr e ↦ simp (restored_history g (restore_row s (row_of g s) h) ss t, lookup-insert, e)
]

restored_flag :
    (b : Bool) (s t : Text) (ids : List Text)
    → contains t (if b then add_id s ids else discard_id s ids)
      ≡ (if s == t then b else contains t ids)
restored_flag true s t ids = contains-add_id s t ids ∙ ground arith
restored_flag false s t ids = contains-discard_id s t ids ∙ ground arith

restored_exits :
    (g h : Governor) (ids : List Text) (t : Text)
    → contains t (restore_rows (rows_for g ids) h).strategy_exit_only ≡ (
        if contains t ids then contains t g.strategy_exit_only else contains t h.strategy_exit_only)
restored_exits g h [] t = refl
restored_exits g h (s ∷ ss) t = elim (Bool-cases (s == t)) [
  | inl e ↦
      simp (restored_exits g (restore_row s (row_of g s) h) ss t, restored_flag, e)
        (choose_same (contains t ss) _ _
          (ap (λ r. contains r g.strategy_exit_only) ((beq_iff s t).0 e)))
  | inr e ↦ simp (restored_exits g (restore_row s (row_of g s) h) ss t, restored_flag, e)
]

restored_broker :
    (d : Dict Text PersistedRow) (h : Governor)
    → (restore_rows d h).peak_broker_equity ≡ h.peak_broker_equity
restored_broker [] h = refl
restored_broker ((s, r) ∷ d) h = restored_broker d (restore_row s r h)

-- An id that the payload does not name has nothing in the state.
pub record IsUnknown (g : Governor) (t : Text) : Type 0 where
  no_peak : peak_of g t ≡ pos 0
  no_fall : drawdown_of g t ≡ no_drawdown
  no_exit : contains t g.strategy_exit_only ≡ false

lookup_default {ℓ} : {V : Type ℓ} (v : V) (o : Option V) → is_some o ≡ false → or_default v o ≡ v
lookup_default v none h = refl
lookup_default v (some w) h = cc

three_false :
    (a b c : Bool) → (a || (b || (c || false))) ≡ false → (a ≡ false) × (b ≡ false) × (c ≡ false)
three_false a b c h = ground arith

abbrev stored_ids : Governor → List Text
stored_ids g = sort_all (known_ids g) []

or_nothing : (b : Bool) → (b || false) ≡ false → b ≡ false
or_nothing b h = ground (arith, h)

fresh_state : (g : Governor) (t : Text) → contains t (stored_ids g) ≡ false → IsUnknown g t
fresh_state g t h =
    let known = or_nothing _ (sym (contains-sort_all t (known_ids g) []) ∙ h) in
    let parts =
      rw (contains-sort_all, contains-sort_all, contains-sort_all, contains-keys, contains-keys) at
        known in
    let (p, d, x) = three_false _ _ (contains t g.strategy_exit_only) parts in
    record {
      no_peak = lookup_default (pos 0) _ p;
      no_fall = lookup_default no_drawdown _ d;
      no_exit = x;
    }

-- The governor without the broker's high water, which the store does not keep
abbrev pub without_high_water : Governor → Governor
without_high_water g = record g { peak_broker_equity = pos 0 }

-- A new governor that the stored rows of another are read into
abbrev pub reread : Governor → Governor
reread g = restore_rows (rows_for g (stored_ids g)) new_governor

pub reread-SameState : (g : Governor) → SameState (reread g) (without_high_water g)
unfolding lookup
reread-SameState g = record {
  broker = restored_broker (rows_for g (stored_ids g)) new_governor;
  peaks = λ t. elim (Bool-cases (contains t (stored_ids g))) [
    | inl e ↦ simp (restored_peak g new_governor (stored_ids g) t, e)
    | inr e ↦
        simp (restored_peak g new_governor (stored_ids g) t, e) (sym (fresh_state g t e).no_peak)
  ];
  drawdowns = λ t. elim (Bool-cases (contains t (stored_ids g))) [
    | inl e ↦ simp (restored_drawdown g new_governor (stored_ids g) t, e)
    | inr e ↦
        simp (restored_drawdown g new_governor (stored_ids g) t, e)
          (sym (fresh_state g t e).no_fall)
  ];
  exits = λ t. elim (Bool-cases (contains t (stored_ids g))) [
    | inl e ↦ simp (restored_exits g new_governor (stored_ids g) t, e)
    | inr e ↦
        simp (restored_exits g new_governor (stored_ids g) t, e) (sym (fresh_state g t e).no_exit)
  ];
}

pub reread-ArePeaked : (g : Governor) → ArePeaked g → ArePeaked (reread g)
unfolding lookup
reread-ArePeaked g i t = record {
  above_zero = rw ((reread-SameState g).peaks t) (i t).above_zero;
  above_history = rw ((reread-SameState g).peaks t) (elim (Bool-cases (contains t (stored_ids g))) [
    | inl e ↦ simp (restored_history g new_governor (stored_ids g) t, e) (self_le (peak_of g t), tt)
    | inr e ↦ simp (restored_history g new_governor (stored_ids g) t, e) tt
  ]);
}
  where
    self_le : (x : ℤ) → x ≤ℤ x
    self_le x = omega arith

abbrev pub stamp_persisted : Text → Governor → Governor
stamp_persisted t g = record g { last_persisted = t }

pub stamped-SameState :
    (t : Text) (g h : Governor) → SameState g h → SameState (stamp_persisted t g) h
stamped-SameState t g h e = record {
  broker = e.broker;
  peaks = e.peaks;
  drawdowns = e.drawdowns;
  exits = e.exits;
}

pub stamped-ArePeaked : (t : Text) (g : Governor) → ArePeaked g → ArePeaked (stamp_persisted t g)
stamped-ArePeaked t g i s = record {
  above_zero = (i s).above_zero;
  above_history = (i s).above_history;
}

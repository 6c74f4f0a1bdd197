-- ===== src/Engine/FillSieve/Frames.antt =====
-- The broker's calls and the authority over a leg's memory leave the tracked bundles alone.
use systematic_trading_valid.Common.{
  Bool, List, Method, Option, Result, [], err, false, if◌then◌else◌, nat_eq, ok, pair_eq, pure,
  refl, then_do, true, ◌>>=◌, ◌∙◌, ◌∷◌, ◌≡◌,
}
use systematic_trading_valid.Common.Int.{ℤ}
use systematic_trading_valid.Common.Text.{Text, text_eq}
use systematic_trading_valid.Common.Dict.{Dict}
use systematic_trading_valid.Engine.FillSieve.{
  BookOrder, Broker, Bundle, ChildFillSlice, Held, LegConfig, M, OrderResult, Sieve, ask, reading,
}
use systematic_trading_valid.Engine.FillSieve.Authority.{
  Reconciliation, apply_broker_authority, cancel_rest, correct_drift, fetch_positions, is_silent,
  reconciled, remember, settle_result, settle_results, settle_with,
}
use systematic_trading_valid.Engine.FillSieve.Cycles.{has_id, refresh_slice, refresh_slices}

pub record Keeps {S A : Type 0} (m : M S A) : Type 0 where
  pub keeps : (w : Sieve S) → (m w).0.pending ≡ w.pending

through_then :
    {S A B : Type 0} (d : Dict Text Bundle) (r : Sieve S × Result Text A) (f : A → M S B)
    → ((a : A) → Keeps (f a))
    → r.0.pending ≡ d
    → (then_do r f).0.pending ≡ d
through_then d (w, ok a) f k h = (k a).keeps w ∙ h
through_then d (w, err e) f k h = h

module _ {S : Type 0} where
  pub ask-Keeps : {A : Type 0} (call : Method S Text A) → Keeps (ask call)
  ask-Keeps call = record { keeps = λ w. refl }

  Keeps->>= :
      {A B : Type 0} (m : M S A) (f : A → M S B)
      → Keeps m
      → ((a : A) → Keeps (f a))
      → Keeps (m >>= f)
  Keeps->>= m f h k = record { keeps = λ w. through_then w.pending (m w) f k (h.keeps w) }

  pure-Keeps : {A : Type 0} (a : A) → Keeps {S = S} (pure a)
  pure-Keeps a = record { keeps = λ w. refl }

  if-Keeps : {A : Type 0} (b : Bool) (m n : M S A) → Keeps m → Keeps n → Keeps (if b then m else n)
  if-Keeps true m n h k = h
  if-Keeps false m n h k = k

  Keeps-reading :
      {A : Type 0} (f : Sieve S → M S A) → ((w : Sieve S) → Keeps (f w)) → Keeps (reading f)
  Keeps-reading f h = record { keeps = λ w. (h w).keeps w }

  remember-Keeps : (o : Broker S) (t : Text) (n : ℤ) → Keeps (remember o t n)
  remember-Keeps o t n = record { keeps = λ w. refl }

  module _ (o : Broker S) (leg : LegConfig) where
    fetch_positions-Keeps : Keeps (fetch_positions o)
    fetch_positions-Keeps =
        Keeps->>= _ _ (ask-Keeps o.get_positions)
          λ a. Keeps->>= _ _ (ask-Keeps o.risk_manager_note) λ b. pure-Keeps a

    cancel_rest-Keeps : (r : Reconciliation) → Keeps (cancel_rest o leg r)
    cancel_rest-Keeps r =
        if-Keeps _ _ _
          (Keeps->>= _ _ (ask-Keeps (o.cancel_open_orders leg.symbol)) λ a. pure-Keeps tt)
          (pure-Keeps tt)

    settle_with-Keeps : (r : Reconciliation) → Keeps (settle_with o leg r)
    settle_with-Keeps r =
        Keeps->>= _ _ (remember-Keeps o leg.strategy_id r.bars_in_trade) λ a. cancel_rest-Keeps r

    settle_result-Keeps :
        (orders : List BookOrder) (current : Option Held) (r : OrderResult) (prior : Option Held)
        → Keeps (settle_result o leg orders current r prior)
    settle_result-Keeps orders current r prior =
        Keeps-reading _ λ w. settle_with-Keeps (reconciled o leg orders current r prior w)

    settle_results-Keeps :
        (orders : List BookOrder) (current : Option Held) (rs : List OrderResult)
        (prior : Option Held)
        → Keeps (settle_results o leg orders current rs prior)
    unfolding settle_results
    settle_results-Keeps orders current [] prior = pure-Keeps tt
    settle_results-Keeps orders current (r ∷ rs) prior =
        if-Keeps (is_silent o r) _ _ (settle_results-Keeps orders current rs prior) (
          Keeps->>= _ _ (settle_result-Keeps orders current r prior)
            λ a. settle_results-Keeps orders current rs current)

    correct_drift-Keeps :
        (before positions : List Held) → Keeps (correct_drift o leg before positions)
    correct_drift-Keeps before positions = Keeps-reading _ λ w.
        if-Keeps _ _ _
          (Keeps->>= _ _ fetch_positions-Keeps λ fresh.
            Keeps->>= _ _ (Keeps-reading _ λ v. remember-Keeps o leg.strategy_id _)
              λ a. pure-Keeps fresh)
          (pure-Keeps positions)

    pub apply_broker_authority-Keeps :
        (orders : List BookOrder) (results : List OrderResult) (before : List Held)
        → Keeps (apply_broker_authority o leg orders results before)
    unfolding apply_broker_authority
    apply_broker_authority-Keeps orders results before =
        Keeps->>= _ _ fetch_positions-Keeps λ positions.
          Keeps->>= _ _ (settle_results-Keeps orders _ results _)
            λ a. correct_drift-Keeps before positions

  module _ (o : Broker S) (b : Bundle) where
    refresh_slice-Keeps : (s : ChildFillSlice) → Keeps (refresh_slice o b s)
    refresh_slice-Keeps s = if-Keeps (has_id s.order_id) _ _ (ask-Keeps _) (pure-Keeps _)

    pub refresh_slices-Keeps : (ss : List ChildFillSlice) → Keeps (refresh_slices o b ss)
    unfolding refresh_slices
    refresh_slices-Keeps [] = pure-Keeps []
    refresh_slices-Keeps (s ∷ ss) =
        Keeps->>= _ _ (refresh_slice-Keeps s)
          λ r. Keeps->>= _ _ (refresh_slices-Keeps ss) λ rs. pure-Keeps (r ∷ rs)

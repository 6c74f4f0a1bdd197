-- ===== src/Engine/FillSieve/Memory.antt =====
-- The memory of a leg agrees with the broker's positions.
use systematic_trading_valid.Common.{
  All, Bool, Bool-cases, List, Method, Option, Result, [], arith, beq_refl, err, false, inl, inr,
  is_some, nat_eq, none, ok, pair_eq, pure, refl, some, then_do, ◌<◌, ◌>>=◌, ◌∙◌, ◌∷◌, ◌≡◌,
}
use systematic_trading_valid.Common.Int.{abs_ℤ, ltb_ℤ, pos, ℤ}
use systematic_trading_valid.Common.Text.{Text, text_eq}
use systematic_trading_valid.Common.Dict.{lookup-insert}
use systematic_trading_valid.Engine.FillSieve.{
  BookOrder, Broker, Bundle, Held, LegConfig, OrderResult, Sieve, ask, needs_tracking,
}
use systematic_trading_valid.Engine.FillSieve.Authority.{
  apply_broker_authority, apply_broker_authority_to_leg_memory, bars_in, correct_drift,
  detect_leg_broker_memory_drift, fetch_positions, follow_positions, is_held, match_position,
  settle_results,
}
use systematic_trading_valid.Engine.FillSieve.Cycles.{reconcile_post_submit, settle_bundle}

module _ {W E : Type 0} where
  -- What holds when a method returns
  abbrev Yields : {A : Type 0} → (W → A → Type 0) → W × Result E A → Type 0
  Yields P (w, ok a) = P w a
  Yields P (w, err e) = Unit

  Yields-then_do :
      {A B : Type 0} (P : W → A → Type 0) (Q : W → B → Type 0) (r : W × Result E A)
      (f : A → Method W E B)
      → Yields P r
      → ((w : W) (a : A) → P w a → Yields Q (f a w))
      → Yields Q (then_do r f)
  Yields-then_do P Q (w, ok a) f h g = g w a h
  Yields-then_do P Q (w, err e) f h g = tt

  anything : {A : Type 0} (r : W × Result E A) → Yields (λ w a. Unit {0}) r
  anything (w, ok a) = tt
  anything (w, err e) = tt

-- The broker lists no position of no quantity.
abbrev AreHeld : List Held → Type 0
AreHeld = All (λ p. 0 < abs_ℤ p.qty)

found_is_held :
    (s : Text) (ps : List Held)
    → AreHeld ps
    → is_held (match_position s ps) ≡ is_some (match_position s ps)
unfolding match_position
found_is_held s [] h = refl
found_is_held s (p ∷ ps) (h, hs) = ground (arith, found_is_held s ps hs)

module _ {S : Type 0} (o : Broker S) (leg : LegConfig) where
  abbrev pub in_trade : Sieve S → Bool
  in_trade w = ltb_ℤ (pos 0) (bars_in o w leg.strategy_id)

  -- The leg remembers a trade exactly if the broker has a position of it.
  abbrev pub Agrees : Sieve S → List Held → Type 0
  Agrees w positions =
      AreHeld positions → in_trade w ≡ is_some (match_position leg.symbol positions)

  no_drift :
      (bars : ℤ) (current : Option Held)
      → detect_leg_broker_memory_drift bars current ≡ false
      → ltb_ℤ (pos 0) bars ≡ is_held current
  unfolding detect_leg_broker_memory_drift
  no_drift bars current h = ground arith

  followed :
      (bars : ℤ) (current prior : Option Held)
      → ltb_ℤ (pos 0) (apply_broker_authority_to_leg_memory bars current prior) ≡ is_some current
  unfolding apply_broker_authority_to_leg_memory
  followed bars none prior = refl
  followed bars (some p) none = ground arith
  followed bars (some p) (some q) = ground arith

  follow_positions-Agrees :
      (fresh before : List Held) (w : Sieve S)
      → Agrees
          (follow_positions o leg
            (match_position leg.symbol fresh)
            (match_position leg.symbol before)
            w).0
          fresh
  follow_positions-Agrees fresh before w h = rw (lookup-insert, beq_refl) (followed _ _ _)

  correct_drift-Yields :
      (before positions : List Held) (w : Sieve S)
      → Yields Agrees (correct_drift o leg before positions w)
  correct_drift-Yields before positions w =
      elim (Bool-cases (
        detect_leg_broker_memory_drift (bars_in o w leg.strategy_id)
          (match_position leg.symbol positions))) [
            | inl e ↦ rw e (
                Yields-then_do (λ v a. Unit {0}) Agrees (fetch_positions o w) _
                  (anything (fetch_positions o w))
                  λ v fresh h. follow_positions-Agrees fresh before v)
            | inr e ↦ rw e λ h.
                no_drift (bars_in o w leg.strategy_id) (match_position leg.symbol positions) e
                ∙ found_is_held leg.symbol positions h
          ]

  apply_broker_authority-Yields :
      (orders : List BookOrder) (results : List OrderResult) (before : List Held) (w : Sieve S)
      → Yields Agrees (apply_broker_authority o leg orders results before w)
  unfolding apply_broker_authority
  apply_broker_authority-Yields orders results before w =
      Yields-then_do (λ v a. Unit {0}) Agrees (fetch_positions o w) _
        (anything (fetch_positions o w))
        λ v positions h.
          let settled =
            settle_results o leg orders (match_position leg.symbol positions) results
              (match_position leg.symbol before) v in
          Yields-then_do (λ v a. Unit {0}) Agrees settled _ (anything settled)
            λ u a k. correct_drift-Yields before positions u

  settle_bundle-Yields :
      (k : Text) (b : Bundle) (positions : List Held) (w : Sieve S)
      → Agrees w positions
      → Yields Agrees ((settle_bundle k b >>= λ tracked. pure positions) w)
  settle_bundle-Yields k b positions w h = elim (Bool-cases (needs_tracking b)) [
    | inl e ↦ rw e h
    | inr e ↦ rw e h
  ]

  submit-Yields :
      (orders : List BookOrder) (r : OrderResult) (rs : List OrderResult) (before : List Held)
      (w : Sieve S)
      → Yields Agrees (reconcile_post_submit o leg orders (r ∷ rs) before w)
  unfolding reconcile_post_submit
  submit-Yields orders r rs before w =
      let asked = ask (o.short_burst_refresh orders (r ∷ rs)) w in
      Yields-then_do (λ v a. Unit {0}) Agrees asked _ (anything asked)
        λ v refreshed h.
          Yields-then_do Agrees Agrees (apply_broker_authority o leg orders refreshed before v) _
            (apply_broker_authority-Yields orders refreshed before v)
            λ u positions k. settle_bundle-Yields _ _ positions u k

  -- A submission with results that is reconciled and returns: if no position that it returns is empty, the leg
  -- is in a trade exactly if the positions hold its symbol. This is so for whatever the leg
  -- remembered before, for results that say nothing, and where the orders are not known.
  pub memory_agrees :
      (orders : List BookOrder) (r : OrderResult) (rs : List OrderResult)
      (before positions : List Held) (w v : Sieve S)
      → reconcile_post_submit o leg orders (r ∷ rs) before w ≡ (v, ok positions)
      → AreHeld positions
      → in_trade v ≡ is_some (match_position leg.symbol positions)
  memory_agrees orders r rs before positions w v e = rw e at (submit-Yields orders r rs before w)

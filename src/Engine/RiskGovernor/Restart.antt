-- ===== src/Engine/RiskGovernor/Restart.antt =====
-- A new governor over what the store keeps of another.
use systematic_trading_valid.Common.{
  List, Option, [], ap, false, inl, inr, nat_eq, none, pair_eq, refl, some, sym, true, ◌∷◌, ◌≡◌,
}
use systematic_trading_valid.Common.Int.{int_laws, max_ℤ, pos, ℤ, ◌≤ℤ◌}
use systematic_trading_valid.Common.Text.{Text, text_eq}
use systematic_trading_valid.Common.Dict.{Dict}
use systematic_trading_valid.Engine.RiskGovernor.{Governor, new_governor}
use systematic_trading_valid.Engine.RiskGovernor.Evaluate.{Leg, evaluate, ratcheted}
use systematic_trading_valid.Engine.RiskGovernor.Rehydrate.{
  PersistedRow, RiskPayload, rehydrate_risk_state, rehydrate_rows, restore_rows,
  serialize_risk_state,
}
use systematic_trading_valid.Engine.RiskGovernor.Store.{
  load_portfolio_risk_state, payload_of, persist_portfolio_risk_state, stored_state,
}
use systematic_trading_valid.Engine.RiskGovernor.HighWater.{
  ArePeaked, Cycle, evaluate-ArePeaked, new-ArePeaked, ratcheted-ArePeaked, run_cycles,
}
use systematic_trading_valid.Engine.RiskGovernor.Alike.{Alike, SameState, score_legs-Alike}
use systematic_trading_valid.Engine.RiskGovernor.Reread.{
  reread, reread-ArePeaked, reread-SameState, stamp_persisted, stamped-ArePeaked, stamped-SameState,
  without_high_water,
}

module _ (correlation : List ℤ → List ℤ → ℤ) where
  evaluate-Alike :
      (g h : Governor) (ls : List Leg) (q : ℤ)
      → ArePeaked g
      → ArePeaked h
      → SameState g h
      → SameState (evaluate correlation g ls q).0 (evaluate correlation h ls q).0
        × ((evaluate correlation g ls q).1 ≡ (evaluate correlation h ls q).1)
  unfolding evaluate
  evaluate-Alike g h ls q i j e =
      let started : Alike (record { governor = ratcheted g q; drawdowns = []; exit_only = [] })
          (record { governor = ratcheted h q; drawdowns = []; exit_only = [] }) =
        record {
          peaked_left = ratcheted-ArePeaked correlation g q i;
          peaked_right = ratcheted-ArePeaked correlation h q j;
          state = record {
            broker = ap (λ b. max_ℤ b q) e.broker;
            peaks = e.peaks;
            drawdowns = e.drawdowns;
            exits = e.exits;
          };
          scores = refl;
          exit_ids = refl;
        } in
      let a = score_legs-Alike ls _ _ started in (a.state, simp (a.scores, a.exit_ids))

-- The payload that the store gives back after a governor's state was persisted
abbrev pub after_store : Governor → Option RiskPayload
after_store g = load_portfolio_risk_state (persist_portfolio_risk_state (serialize_risk_state g))

absurd_flag {ℓ} : {A : Type ℓ} → true ≡ false → A
absurd_flag e = cc

kept-ArePeaked : (g : Governor) → ArePeaked g → ArePeaked (without_high_water g)
kept-ArePeaked g i s = record { above_zero = (i s).above_zero; above_history = (i s).above_history }

module _ (payload_fingerprint : RiskPayload → Text) where
  accepted_rows :
      (rows : Dict Text PersistedRow)
      → (rehydrate_rows payload_fingerprint rows new_governor (some (payload_of rows)) []).1 ≡ true
      → (t : Text) × ((rehydrate_rows payload_fingerprint rows new_governor
            (some (payload_of rows))
            []).0
          ≡ stamp_persisted t (restore_rows rows new_governor))
  accepted_rows [] h = cc
  accepted_rows ((s, r) ∷ rows) h =
      (payload_fingerprint (serialize_risk_state (restore_rows ((s, r) ∷ rows) new_governor)), refl)

  accepted_payload :
      (rows : Dict Text PersistedRow) (p : Option RiskPayload)
      → p ≡ some (payload_of rows)
      → (rehydrate_risk_state payload_fingerprint new_governor p []).1 ≡ true
      → (t : Text) × ((rehydrate_risk_state payload_fingerprint new_governor p []).0
          ≡ stamp_persisted t (restore_rows rows new_governor))
  unfolding rehydrate_risk_state
  accepted_payload rows p e h = rw e (accepted_rows rows (rw e at h))

  refused_payload :
      (p : Option RiskPayload)
      → p ≡ none
      → (rehydrate_risk_state payload_fingerprint new_governor p []).1 ≡ true
      → true ≡ false
  unfolding rehydrate_risk_state
  refused_payload p e h = sym (rw e at h)

  rehydrated :
      (g : Governor)
      → (rehydrate_risk_state payload_fingerprint new_governor (after_store g) []).1 ≡ true
      → (t : Text) × ((rehydrate_risk_state payload_fingerprint new_governor (after_store g) []).0
          ≡ stamp_persisted t (reread g))
  rehydrated g h = elim (stored_state g) [
    | inl e ↦ absurd_flag (refused_payload (after_store g) e h)
    | inr e ↦ accepted_payload _ (after_store g) e h
  ]

module _ (correlation : List ℤ → List ℤ → ℤ) where
  run-SameState :
      (g h : Governor) (cs : List Cycle)
      → ArePeaked g
      → ArePeaked h
      → SameState g h
      → ArePeaked (run_cycles correlation g cs)
        × ArePeaked (run_cycles correlation h cs)
        × SameState (run_cycles correlation g cs) (run_cycles correlation h cs)
  unfolding run_cycles
  run-SameState g h [] i j e = (i, j, e)
  run-SameState g h (c ∷ cs) i j e =
      run-SameState (evaluate correlation g c.legs c.broker_equity).0
        (evaluate correlation h c.legs c.broker_equity).0 cs
        (evaluate-ArePeaked correlation g c.legs c.broker_equity i)
        (evaluate-ArePeaked correlation h c.legs c.broker_equity j)
        (evaluate-Alike correlation g h c.legs c.broker_equity i j e).0

  any-ArePeaked : (cs : List Cycle) → ArePeaked (run_cycles correlation new_governor cs)
  any-ArePeaked cs =
      let new = new-ArePeaked correlation in
      (run-SameState new_governor new_governor cs new new
        (record { broker = refl; peaks = λ s. refl; drawdowns = λ s. refl; exits = λ s. refl })).0

  module _ (payload_fingerprint : RiskPayload → Text) where
    -- A governor that has run any cycles, and the one that a new process rehydrates from what the store keeps of
    -- its state, where that is accepted: after any further cycles the verdicts of the new one are those that
    -- the old one would give with its broker high water set back to zero. Peaks, drawdowns and exit-only
    -- legs survive the restart, and the high water, for which the table has no column, does not.
    pub restart_transparent :
        (before after : List Cycle) (legs : List Leg) (equity : ℤ)
        → let g = run_cycles correlation new_governor before in
          let r = rehydrate_risk_state payload_fingerprint new_governor (after_store g) [] in
          r.1 ≡ true
          → (evaluate correlation (run_cycles correlation r.0 after) legs equity).1
            ≡ (evaluate correlation
                (run_cycles correlation (without_high_water g) after)
                legs
                equity).1
    restart_transparent before after legs equity h =
        let g = run_cycles correlation new_governor before in
        let i = any-ArePeaked before in
        let (t, read) = rehydrated payload_fingerprint g h in
        let kept = without_high_water g in
        let same = rw (← read) at (stamped-SameState t (reread g) kept (reread-SameState g)) in
        let peaked = rw (← read) at (stamped-ArePeaked t (reread g) (reread-ArePeaked g i)) in
        let (j, k, e) = run-SameState _ kept after peaked (kept-ArePeaked g i) same in
        (evaluate-Alike correlation _ _ legs equity j k e).1

-- From an equity at the old high water on, the loss of it changes no verdict.
high_water_back :
    (correlation : List ℤ → List ℤ → ℤ) (g : Governor) (legs : List Leg) (equity : ℤ)
    → pos 0 ≤ℤ g.peak_broker_equity
    → g.peak_broker_equity ≤ℤ equity
    → evaluate correlation (without_high_water g) legs equity ≡ evaluate correlation g legs equity
unfolding evaluate
high_water_back correlation g legs equity n h = rw (same_max _ equity n h) refl
  where
    same_max : (p q : ℤ) → pos 0 ≤ℤ p → p ≤ℤ q → max_ℤ (pos 0) q ≡ max_ℤ p q
    same_max p q n h = grind int_laws

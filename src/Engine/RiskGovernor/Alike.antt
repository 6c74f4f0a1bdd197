-- ===== src/Engine/RiskGovernor/Alike.antt =====
-- Two governors that agree on peaks, drawdowns and exit-only legs score every cycle alike.
-- What the two governors would answer is the same.
use systematic_trading_valid.Common.{
  Bool-cases, List, [], ap, contains, if◌then◌else◌, inl, inr, nat_eq, not, pair_eq, refl, ◌&&◌,
  ◌==◌, ◌||◌, ◌∷◌, ◌≡◌,
}
use systematic_trading_valid.Common.Int.{max_ℤ, ℤ}
use systematic_trading_valid.Common.Text.{Text, text_eq}
use systematic_trading_valid.Common.Dict.{insert, lookup-insert}
use systematic_trading_valid.Engine.RiskGovernor.{
  Drawdown, Governor, add_id, discard_id, drawdown_of, equity_history_limit, history_of, peak_of,
  push_bounded,
}
use systematic_trading_valid.Engine.RiskGovernor.Evaluate.{
  Leg, Scores, carry_leg, compute_drawdown_from_peak, exceeds_limit, measure_leg, pnl_of,
  resolve_peak, score_leg, score_legs,
}
use systematic_trading_valid.Engine.RiskGovernor.HighWater.{
  ArePeaked, measure_leg-ArePeaked, peak_of-measure, resolve_peak_lem,
}
use systematic_trading_valid.Engine.RiskGovernor.Ids.{contains-add_id, contains-discard_id}

pub record SameState (g h : Governor) : Type 0 where
  pub broker : g.peak_broker_equity ≡ h.peak_broker_equity
  pub peaks : (s : Text) → peak_of g s ≡ peak_of h s
  pub drawdowns : (s : Text) → drawdown_of g s ≡ drawdown_of h s
  pub exits : (s : Text) → contains s g.strategy_exit_only ≡ contains s h.strategy_exit_only

pub record Alike (c d : Scores) : Type 0 where
  pub peaked_left : ArePeaked c.governor
  pub peaked_right : ArePeaked d.governor
  pub state : SameState c.governor d.governor
  pub scores : c.drawdowns ≡ d.drawdowns
  pub exit_ids : c.exit_only ≡ d.exit_only

carry_leg-Alike : (s : Text) (c d : Scores) → Alike c d → Alike (carry_leg s c) (carry_leg s d)
unfolding carry_leg
carry_leg-Alike s c d a = record {
  peaked_left = a.peaked_left;
  peaked_right = a.peaked_right;
  state = a.state;
  scores = simp (a.state.drawdowns, a.scores);
  exit_ids = simp (a.state.exits, a.exit_ids);
}

drawdown_after : Text → ℤ → Scores → Drawdown
drawdown_after s x c =
    compute_drawdown_from_peak (max_ℤ (peak_of c.governor s) x) x c.governor.peak_broker_equity

drawdown_after_lem :
    (s : Text) (x : ℤ) (c : Scores)
    → ArePeaked c.governor
    → compute_drawdown_from_peak
        (resolve_peak c.governor s x
          (push_bounded equity_history_limit (history_of c.governor s) x))
        x
        c.governor.peak_broker_equity
      ≡ drawdown_after s x c
unfolding drawdown_after
drawdown_after_lem s x c i = simp (resolve_peak_lem c.governor s x (i s))

drawdown_after-Alike :
    (s : Text) (x : ℤ) (c d : Scores) → Alike c d → drawdown_after s x c ≡ drawdown_after s x d
unfolding drawdown_after
drawdown_after-Alike s x c d a = simp (a.state.peaks, a.state.broker)

-- The exit-only ids after a reading
exits_after : Drawdown → Text → List Text → List Text
exits_after d s ids = if exceeds_limit d then add_id s ids else discard_id s ids

contains-exits_after :
    (d : Drawdown) (s t : Text) (ids : List Text)
    → contains t (exits_after d s ids)
      ≡ (if exceeds_limit d then (s == t) || contains t ids else not (s == t) && contains t ids)
unfolding exits_after
contains-exits_after d s t ids = elim (Bool-cases (exceeds_limit d)) [
  | inl e ↦ simp e (contains-add_id s t ids)
  | inr e ↦ simp e (contains-discard_id s t ids)
]

module _ (s : Text) (x : ℤ) (c : Scores) (i : ArePeaked c.governor) where
  measured_scores : (measure_leg s x c).drawdowns ≡ insert s (drawdown_after s x c) c.drawdowns
  unfolding measure_leg
  measured_scores = ap (λ d. insert s d c.drawdowns) (drawdown_after_lem s x c i)

  measured_exit_ids :
      (measure_leg s x c).exit_only
      ≡ (if exceeds_limit (drawdown_after s x c) then add_id s c.exit_only else c.exit_only)
  unfolding measure_leg
  measured_exit_ids =
      ap (λ d. if exceeds_limit d then add_id s c.exit_only else c.exit_only)
        (drawdown_after_lem s x c i)

  measured_drawdown :
      (t : Text)
      → drawdown_of (measure_leg s x c).governor t
        ≡ (if s == t then drawdown_after s x c else drawdown_of c.governor t)
  unfolding measure_leg
  measured_drawdown t = elim (Bool-cases (s == t)) [
    | inl e ↦ simp (lookup-insert, e) (drawdown_after_lem s x c i)
    | inr e ↦ simp (lookup-insert, e)
  ]

  measured_exits :
      (measure_leg s x c).governor.strategy_exit_only
      ≡ exits_after (drawdown_after s x c) s c.governor.strategy_exit_only
  unfolding measure_leg exits_after
  measured_exits =
      ap (λ d. exits_after d s c.governor.strategy_exit_only) (drawdown_after_lem s x c i)

  measured_broker : (measure_leg s x c).governor.peak_broker_equity ≡ c.governor.peak_broker_equity
  unfolding measure_leg
  measured_broker = refl

measure_leg-Alike :
    (s : Text) (x : ℤ) (c d : Scores) → Alike c d → Alike (measure_leg s x c) (measure_leg s x d)
measure_leg-Alike s x c d a =
    let i = a.peaked_left in
    let j = a.peaked_right in
    let same = drawdown_after-Alike s x c d a in
    record {
      peaked_left = measure_leg-ArePeaked s x c i;
      peaked_right = measure_leg-ArePeaked s x d j;
      state = record {
        broker = simp (measured_broker s x c i, measured_broker s x d j) a.state.broker;
        peaks = λ t. simp (peak_of-measure s t x c i, peak_of-measure s t x d j, a.state.peaks);
        drawdowns = λ t.
            simp
              (measured_drawdown s x c i t, measured_drawdown s x d j t, same, a.state.drawdowns);
        exits = λ t. simp (
          measured_exits s x c i,
          measured_exits s x d j,
          contains-exits_after,
          same,
          a.state.exits,
        );
      };
      scores = simp (measured_scores s x c i, measured_scores s x d j, same, a.scores);
      exit_ids = simp (measured_exit_ids s x c i, measured_exit_ids s x d j, same, a.exit_ids);
    }

score_leg-Alike : (l : Leg) (c d : Scores) → Alike c d → Alike (score_leg l c) (score_leg l d)
score_leg-Alike l c d a = elim (Bool-cases l.enabled) [
  | inl e ↦ elim (Bool-cases l.due) [
    | inl f ↦ rw (e, f, if◌then◌else◌) (measure_leg-Alike l.strategy_id (pnl_of l) c d a)
    | inr f ↦ rw (e, f, if◌then◌else◌) (carry_leg-Alike l.strategy_id c d a)
  ]
  | inr e ↦ rw (e, if◌then◌else◌) a
]

pub score_legs-Alike :
    (ls : List Leg) (c d : Scores) → Alike c d → Alike (score_legs ls c) (score_legs ls d)
unfolding score_legs
score_legs-Alike [] c d a = a
score_legs-Alike (l ∷ ls) c d a =
    score_legs-Alike ls (score_leg l c) (score_leg l d) (score_leg-Alike l c d a)

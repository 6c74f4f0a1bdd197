-- ===== src/Engine/SloMonitor/Grades.antt =====
-- What the severity of a verdict says of the feed.
use systematic_trading_valid.Common.{
  Bool, Bool-cases, ap, false, if◌then◌else◌, inl, inr, leb, ltb, nat_eq, not, pair_eq, refl, true,
  ◌&&◌, ◌*◌, ◌+◌, ◌||◌, ◌∙◌, ◌≡◌,
}
use systematic_trading_valid.Common.Text.{text_eq}
use systematic_trading_valid.Engine.Degradation.{
  Severity, hard_breach, mode_eq, ok_verdict, soft_breach,
}
use systematic_trading_valid.Engine.SloMonitor.{
  Monitor, above_percent, below_percent, is_market_dormant, second,
}
use systematic_trading_valid.Engine.BarFreshness.{stale_after}
use systematic_trading_valid.Engine.SloMonitor.Integrity.{
  Findings, Measures, Payload, Reason, evaluate_data_integrity, judge, measure, passes, raise_first,
  raise_hard, raise_soft,
}

-- The grade of a feed with a critical fault, with a lesser one, or with none
abbrev pub grade : Bool → Bool → Severity
grade true degraded = hard_breach
grade false true = soft_breach
grade false false = ok_verdict

-- A fault that by itself blocks: stale bars, gaps, quotes that fail, a broken sequence, or a late feed
abbrev pub is_critical : Measures → Bool
is_critical x =
    ltb (x.bar_period + 600 * second) x.freshness
    || above_percent x.missing_rate 18
    || below_percent x.success_rate 55
    || leb 5 x.misalignments
    || (ltb 0 x.lag_period && ltb (30 * x.lag_period) (900 * x.lag))

abbrev pub is_degraded : Measures → Bool
is_degraded x =
    ltb (x.bar_period + 150 * second) x.freshness
    || above_percent x.missing_rate 6
    || below_percent x.success_rate 85
    || x.circuit_tripped
    || leb 1 x.misalignments
    || (ltb 0 x.lag_period && ltb (15 * x.lag_period) (900 * x.lag))

-- The severity so far is the grade of the faults so far.
record Graded (f : Findings) (h d : Bool) : Type 0 where
  holds : f.severity ≡ grade h d

Graded-soft :
    (f : Findings) (h d b : Bool) (r : Reason) → Graded f h d → Graded (raise_soft b r f) h (d || b)
unfolding raise_soft
Graded-soft f true true true r g = record { holds = simp (g.holds) }
Graded-soft f true true false r g = g
Graded-soft f true false true r g = record { holds = simp (g.holds) }
Graded-soft f true false false r g = g
Graded-soft f false true true r g = record { holds = simp (g.holds) }
Graded-soft f false true false r g = g
Graded-soft f false false true r g = record { holds = simp (g.holds) }
Graded-soft f false false false r g = g

Graded-hard :
    (f : Findings) (h d b : Bool) (r : Reason) → Graded f h d → Graded (raise_hard b r f) (h || b) d
unfolding raise_hard
Graded-hard f true d true r g = record { holds = refl }
Graded-hard f true d false r g = g
Graded-hard f false d true r g = record { holds = refl }
Graded-hard f false d false r g = g

-- `if` with an `elif`: the second test counts only where the first fails.
Graded-either :
    (f : Findings) (h d b c : Bool) (r q : Reason)
    → Graded f h d
    → Graded (raise_first b r c q f) (h || b) (d || c)
unfolding raise_first
Graded-either f true d true c r q g = record { holds = refl }
Graded-either f false d true c r q g = record { holds = refl }
Graded-either f true d false c r q g = Graded-soft f true d c q g
Graded-either f false d false c r q g = Graded-soft f false d c q g

judge_grade : (x : Measures) → Graded (judge x) (is_critical x) (is_degraded x)
unfolding judge stale_after
judge_grade x = Graded-either _ _ _ _ _ _ _ (
    Graded-either _ _ _ _ _ _ _ (
      Graded-soft _ _ _ _ _ (
        Graded-hard _ _ _ _ _ (
          Graded-soft _ _ _ _ _ (
            Graded-hard _ _ _ _ _ (
              Graded-soft _ _ _ _ _ (
                Graded-hard _ _ _ _ _
                  (Graded-soft _ false false _ _ (record { holds = refl })))))))))

passes-grade : (h d : Bool) → passes (grade h d) ≡ not (h || d)
passes-grade true d = refl
passes-grade false true = refl
passes-grade false false = refl

-- An open market's verdict is hard exactly if the feed has a critical fault, soft exactly if it has only
-- lesser ones, and passes exactly if it has none; a closed market's passes, whatever the feed says.
-- A tripped circuit breaker alone is soft, and the lag of the research backfill counts for nothing.
pub severity_exact :
    (m : Monitor) (p : Payload)
    → let v = (evaluate_data_integrity m p).1 in
      let closed = is_market_dormant m p.is_crypto p.exchange_reference in
      let x = measure m p in
      (v.severity ≡ (if closed then ok_verdict else grade (is_critical x) (is_degraded x)))
      × (v.passed ≡ (closed || not (is_critical x || is_degraded x)))
unfolding evaluate_data_integrity
severity_exact m p = elim (Bool-cases (is_market_dormant m p.is_crypto p.exchange_reference)) [
  | inl e ↦ rw (e, if◌then◌else◌) (refl, refl)
  | inr e ↦
      rw (e, if◌then◌else◌)
        (
          (judge_grade (measure m p)).holds,
          ap passes (judge_grade (measure m p)).holds
              ∙ passes-grade (is_critical (measure m p)) (is_degraded (measure m p)),
        )
]

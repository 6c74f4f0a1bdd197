-- ===== src/Control/Watchdog/Recovery.antt =====
-- When the watchdog lifts a halt by itself.
use systematic_trading_valid.Common.{
  Bool, List, [], arith, false, if◌then◌else◌, leb, nat_eq, pair_eq, refl, suc, true, ◌&&◌, ◌∷◌,
  ◌≡◌, ◌≢◌, ◌≤◌,
}
use systematic_trading_valid.Common.Text.{text_beq_iff, text_eq}
use systematic_trading_valid.Engine.Escalation.{entry_gate_halt, level_eq, nominal, transition}
use systematic_trading_valid.Control.Watchdog.{
  Reading, Reason, Watchdog, check, engine_cycle_stale, gate_blocked, healthy, market_closed,
  may_deescalate, own_name, react, reason_of, run_checks, stale_heartbeat, startup_grace,
  stay_healthy,
}

-- What holds of a watchdog whose next healthy check lifts the halt.
pub record IsOwnHalt (w : Watchdog) : Type 0 where
  pub enabled : w.allow_deesc ≡ true
  pub halted : w.escalation.level ≡ entry_gate_halt
  pub own : w.escalation.commanded_by ≡ own_name
  pub no_liquidation : w.escalation.portfolio_liquidation_commanded ≡ false
  pub no_shutdown : w.escalation.engine_shutdown_latched ≡ false
  pub sustained : w.streak_required ≤ suc w.fresh_streak

taken :
    (c : Bool) (x y : Watchdog)
    → (if c then x else y).escalation.level ≡ nominal
    → y.escalation.level ≢ nominal
    → c ≡ true
taken true x y e h = refl
taken false x y e h = elim (h e) [ ]

own_halt :
    (w : Watchdog)
    → (w.allow_deesc && leb w.streak_required (suc w.fresh_streak) && may_deescalate w.escalation)
      ≡ true
    → IsOwnHalt w
own_halt w c = record {
  enabled = ground (arith, c);
  halted = ground (arith, c);
  own = (text_beq_iff w.escalation.commanded_by own_name).0 (ground (arith, c));
  no_liquidation = ground (arith, c);
  no_shutdown = ground (arith, c);
  sustained = ground (arith, c);
}

healthy_lifts :
    (w : Watchdog)
    → w.escalation.level ≢ nominal
    → (stay_healthy w).escalation.level ≡ nominal
    → IsOwnHalt w
unfolding stay_healthy
healthy_lifts w h e = own_halt w (taken _ _ _ e h)

react_lifts :
    (o : Reason) (w : Watchdog)
    → w.escalation.level ≢ nominal
    → (react o w).0.escalation.level ≡ nominal
    → (o ≡ healthy) × IsOwnHalt w
unfolding transition
react_lifts market_closed w h e = elim (h e) [ ]
react_lifts startup_grace w h e = elim (h e) [ ]
react_lifts stale_heartbeat w h e = cc
react_lifts engine_cycle_stale w h e = cc
react_lifts gate_blocked w h e = elim (h e) [ ]
react_lifts healthy w h e = (refl, healthy_lifts w h e)

-- A check that takes the escalation from another level to NOMINAL is a healthy one, with automatic
-- de-escalation allowed, of a halt that is under the watchdog's own name with neither a liquidation nor
-- a shutdown, at the end of the required streak.
pub lifts-IsOwnHalt :
    (w : Watchdog) (r : Reading)
    → w.escalation.level ≢ nominal
    → (check w r).0.escalation.level ≡ nominal
    → (reason_of w r ≡ healthy) × IsOwnHalt w
unfolding check
lifts-IsOwnHalt w r h e = react_lifts (reason_of w r) w h e

allow-check :
    (w : Watchdog) (r : Reading) → w.allow_deesc ≡ false → (check w r).0.allow_deesc ≡ false
unfolding check stay_healthy reason_of
allow-check w r a = ground arith

-- Without automatic de-escalation, as in live, no checks take the escalation back to NOMINAL.
pub stays_halted :
    (w : Watchdog) (rs : List Reading)
    → w.allow_deesc ≡ false
    → w.escalation.level ≢ nominal
    → (run_checks w rs).escalation.level ≢ nominal
unfolding run_checks
stays_halted w [] a h = h
stays_halted w (r ∷ rs) a h =
    stays_halted (check w r).0 rs (allow-check w r a)
      (λ e. cc (a, (lifts-IsOwnHalt w r h e).1.enabled))

-- What a stale check leaves, and what the healthy checks after it leave.
pub record IsHandedOver (w : Watchdog) (stale r : Reading) (rs : List Reading) : Type 0 where
  pub halted : (check w stale).0.escalation.level ≡ entry_gate_halt
  pub own : (check w stale).0.escalation.commanded_by ≡ own_name
  pub no_liquidation : (check w stale).0.escalation.portfolio_liquidation_commanded ≡ false
  pub restarted : (check w stale).0.fresh_streak ≡ 0
  pub lifted : (run_checks w (stale ∷ r ∷ rs)).escalation.level ≡ nominal

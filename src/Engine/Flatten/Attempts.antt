-- ===== src/Engine/Flatten/Attempts.antt =====
-- What a flatten of the portfolio promises whatever the broker answers.
use mathlib.Core.List.{append-nil}
use systematic_trading_valid.Common.{
  List, Result, [], err, false, length, nat_eq, ok, pair_eq, pure, refl, then_do, true, ◌++◌, ◌>>=◌,
  ◌∙◌, ◌∷◌, ◌≡◌,
}
use systematic_trading_valid.Common.Text.{Text, text_eq}
use systematic_trading_valid.Persistence.PendingOrders.{clear_all}
use systematic_trading_valid.Engine.Flatten.{
  Call, Fault, M, Outside, Position, Protocol, World, called, close_all, do_clear_all, do_close_all,
  do_log, do_positions,
}
use systematic_trading_valid.Engine.Flatten.Portfolio.{
  FlattenResult, Outcome, await_loop, cancel_loop, enter_portfolio, execute_portfolio_flatten,
  flatten_held, flatten_positions, leave_portfolio, portfolio_body, result_of, symbols_of,
}
use systematic_trading_valid.Engine.Flatten.Calls.{
  Grows, Grows-trans, Reports, attempts, cancels, due, found, raised,
}
use systematic_trading_valid.Engine.Flatten.Isolation.{
  Prepares, Prepares-trans, await_loop-Prepares, cancel_loop-Prepares, flatten_loop-Flattens,
  no_outcome,
}

-- The calls of a run on these positions: cancels for every symbol held and no flatten, then a flatten for every
-- position whose quantity is above zero and no cancel; and what a result reports is what was answered.
pub record Isolated {S : Type 0} (w v : World S) (ps : List Position)
    (r : Result Fault FlattenResult) : Type 0 where
  pub first : List Call
  pub then_ : List Call
  pub calls : v.calls ≡ w.calls ++ (first ++ then_)
  pub cancelled : cancels first ≡ symbols_of ps
  pub no_attempt : attempts first ≡ []
  pub attempted : attempts then_ ≡ due ps
  pub no_cancel : cancels then_ ≡ []
  pub reports : Reports r then_

abbrev Outcomes : Result Fault Outcome → List Call → Type 0
Outcomes (ok out) cs = (out.failed ≡ raised cs) × (out.flattened ≡ found cs)
Outcomes (err e) cs = Unit

-- The flattens of a run, and its outcome
record Attempted {S : Type 0} (w v : World S) (ps : List Position) (r : Result Fault Outcome)
    : Type 0 where
  new : List Call
  grows : Grows w v new
  attempted : attempts new ≡ due ps
  no_cancel : cancels new ≡ []
  outcome : Outcomes r new

module _ {S : Type 0} (o : Outside S) where
  do_close_all-Attempted :
      (w : World S) → Attempted w (flatten_positions o [] w).0 [] (flatten_positions o [] w).1
  unfolding flatten_positions do_close_all
  do_close_all-Attempted w = closed (o.close_all_positions w.outside)
    where
      closed :
          (r : S × Result Fault (Unit {0}))
          → Attempted w
              (then_do (called close_all r w) (λ c. pure no_outcome)).0
              []
              (then_do (called close_all r w) (λ c. pure no_outcome)).1
      closed (s, ok u) = record {
        new = close_all ∷ [];
        grows = record { calls = refl; writable = refl };
        attempted = refl;
        no_cancel = refl;
        outcome = (refl, refl);
      }
      closed (s, err e) = record {
        new = close_all ∷ [];
        grows = record { calls = refl; writable = refl };
        attempted = refl;
        no_cancel = refl;
        outcome = tt;
      }

  flatten_positions-Attempted :
      (ps : List Position) (w : World S)
      → Attempted w (flatten_positions o ps w).0 ps (flatten_positions o ps w).1
  unfolding flatten_positions
  flatten_positions-Attempted [] w = do_close_all-Attempted w
  flatten_positions-Attempted (p ∷ ps) w =
      let f = flatten_loop-Flattens o (p ∷ ps) no_outcome w in
      record {
        new = f.new;
        grows = f.grows;
        attempted = f.attempted;
        no_cancel = f.no_cancel;
        outcome = (f.failed, f.flattened);
      }

  -- The flattens of a run, and the result that is returned after the event is logged
  record Finished (w v : World S) (ps : List Position) (r : Result Fault FlattenResult)
      : Type 0 where
    new : List Call
    grows : Grows w v new
    attempted : attempts new ≡ due ps
    no_cancel : cancels new ≡ []
    reports : Reports r new

  finish : Text → Outcome → M S FlattenResult
  finish reason out = do logged ← do_log o; pure (result_of reason out)

  log_reply :
      (reason : Text) (ps : List Position) (out : Outcome) (w v : World S)
      (r : Result Fault (Unit {0})) (new : List Call)
      → Grows w v new
      → attempts new ≡ due ps
      → cancels new ≡ []
      → Outcomes (ok out) new
      → Finished w
          (then_do (v, r) (λ logged. pure (result_of reason out))).0
          ps
          (then_do (v, r) (λ logged. pure (result_of reason out))).1
  log_reply reason ps out w v (ok u) new g a c k = record {
    new = new;
    grows = g;
    attempted = a;
    no_cancel = c;
    reports = k;
  }
  log_reply reason ps out w v (err e) new g a c k = record {
    new = new;
    grows = g;
    attempted = a;
    no_cancel = c;
    reports = tt;
  }

  finish-Finished :
      (reason : Text) (ps : List Position) (w : World S) (r : World S × Result Fault Outcome)
      → Attempted w r.0 ps r.1
      → Finished w (then_do r (finish reason)).0 ps (then_do r (finish reason)).1
  unfolding finish do_log
  finish-Finished reason ps w (v, ok out) a =
      log_reply reason ps out w _ (o.log_system_event v.outside).1 a.new
        (record { calls = a.grows.calls; writable = a.grows.writable }) a.attempted a.no_cancel
        a.outcome
  finish-Finished reason ps w (v, err e) a = record {
    new = a.new;
    grows = a.grows;
    attempted = a.attempted;
    no_cancel = a.no_cancel;
    reports = tt;
  }

  clear_writable :
      (w : World S)
      → w.writable ≡ true
      → do_clear_all w ≡ (record w { staged = [] }, ok (length w.staged))
  unfolding clear_all
  clear_writable w h = rw h

  held-Finished :
      (reason : Text) (ps : List Position) (w : World S)
      → w.writable ≡ true
      → Finished w
          (then_do
            (do_clear_all w)
            (λ removed u. then_do (flatten_positions o ps u) (finish reason))).0
          ps
          (then_do
            (do_clear_all w)
            (λ removed u. then_do (flatten_positions o ps u) (finish reason))).1
  held-Finished reason ps w h =
      let cleared : World S = record w { staged = [] } in
      let f =
        finish-Finished reason ps cleared (flatten_positions o ps cleared)
          (flatten_positions-Attempted ps cleared) in
      rw (clear_writable w h) (record {
        new = f.new;
        grows = record { calls = f.grows.calls; writable = f.grows.writable };
        attempted = f.attempted;
        no_cancel = f.no_cancel;
        reports = f.reports;
      })

  Prepares-Isolated :
      {w v u : World S} (ps : List Position) (r : Result Fault FlattenResult)
      → Prepares w v (symbols_of ps)
      → Finished v u ps r
      → Isolated w u ps r
  Prepares-Isolated ps r p f = record {
    first = p.new;
    then_ = f.new;
    calls = (Grows-trans p.new f.new p.grows f.grows).calls;
    cancelled = p.cancelled;
    no_attempt = p.no_attempt;
    attempted = f.attempted;
    no_cancel = f.no_cancel;
    reports = f.reports;
  }

  held-Isolated :
      (reason : Text) (ps : List Position) (w : World S)
      → w.writable ≡ true
      → Isolated w (flatten_held o reason ps w).0 ps (flatten_held o reason ps w).1
  unfolding finish
  held-Isolated reason ps w h =
      let c = cancel_loop-Prepares o (symbols_of ps) w in
      let a = await_loop-Prepares o (symbols_of ps) (cancel_loop o (symbols_of ps) w) in
      let ready = rw append-nil at (Prepares-trans (symbols_of ps) [] c a) in
      Prepares-Isolated ps _ ready (
        held-Finished reason ps (await_loop o (symbols_of ps) (cancel_loop o (symbols_of ps) w))
          (ready.grows.writable ∙ h))

  -- A flatten of the portfolio that reads these positions and can clear the staged orders: whatever faults the
  -- other calls meet, the orders of every symbol held are asked to be cancelled, then every position
  -- whose quantity is above zero is asked to be flattened, once and in order, and no flatten comes before
  -- a cancel. What it returns names as failed exactly the symbols whose flatten raised.
  pub every_position_attempted :
      (p : Protocol S) (reason : Text) (s : S) (ps : List Position)
      → p.portfolio_flattening ≡ false
      → p.world.writable ≡ true
      → o.get_positions p.world.outside ≡ (s, ok ps)
      → let r = execute_portfolio_flatten o p reason in Isolated p.world r.0.world ps r.1
  unfolding execute_portfolio_flatten enter_portfolio leave_portfolio portfolio_body do_positions
  every_position_attempted p reason s ps free h e =
      rw (free, e) (restart (held-Isolated reason ps (record p.world { outside = s }) h))
    where
      restart :
          {v : World S} {r : Result Fault FlattenResult}
          → Isolated (record p.world { outside = s }) v ps r
          → Isolated p.world v ps r
      restart i = record {
        first = i.first;
        then_ = i.then_;
        calls = i.calls;
        cancelled = i.cancelled;
        no_attempt = i.no_attempt;
        attempted = i.attempted;
        no_cancel = i.no_cancel;
        reports = i.reports;
      }

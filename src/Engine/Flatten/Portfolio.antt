-- ===== src/Engine/Flatten/Portfolio.antt =====
-- `execute_portfolio_flatten`: cancel, await, and flatten, with the faults of each symbol kept apart.
use systematic_trading_valid.Common.{
  Bool, List, Option, Result, [], err, false, if◌then◌else◌, nat_eq, none, ok, pair_eq, pure, some,
  then_do, true, ℕ, ◌++◌, ◌==◌, ◌>>=◌, ◌∷◌,
}
use systematic_trading_valid.Common.Int.{leb_ℤ, pos}
use systematic_trading_valid.Common.Text.{Text, insert_sorted, text, text_eq, upper}
use systematic_trading_valid.Engine.Flatten.{
  Fault, M, Outside, Position, Protocol, World, do_await, do_cancel, do_clear_all, do_close_all,
  do_flatten, do_force_cancel, do_log, do_positions,
}

-- `sorted({str(p.symbol).upper() for p in positions})`
abbrev pub symbols_of : List Position → List Text
symbols_of [] = []
symbols_of (p ∷ ps) = insert_sorted (upper p.symbol) (symbols_of ps)

pub record FlattenResult : Type 0 where
  pub executed : Bool
  pub skipped : Bool
  pub reason : Text
  pub symbols_flattened : List Text
  pub symbols_failed : List Text

-- The symbols that were flattened, and those that raised
pub record Outcome : Type 0 where
  pub flattened : List Text
  pub failed : List Text

abbrev pub result_of : Text → Outcome → FlattenResult
result_of reason out = record {
  executed = true;
  skipped = false;
  reason = reason;
  symbols_flattened = out.flattened;
  symbols_failed = out.failed;
}

-- `str(position.side or "flat")`
abbrev pub side_of : Position → Text
side_of p = if p.side == [] then text "flat" else p.side

abbrev pub note_reply : Text → Result Fault Bool → Outcome → Outcome
note_reply s (ok true) out = record out { flattened = out.flattened ++ (s ∷ []) }
note_reply s (ok false) out = out
note_reply s (err e) out = record out { failed = out.failed ++ (s ∷ []) }

-- The guard and the flag; there is no protocol to go on with while a flatten is active.
unfoldable pub enter_portfolio : {S : Type 0} → Protocol S → Option (Protocol S)
enter_portfolio p =
    if p.portfolio_flattening then none else some (record p { portfolio_flattening = true })

-- `finally`, whatever is raised
unfoldable pub leave_portfolio : {S : Type 0} → Protocol S → Protocol S
leave_portfolio p = record p { portfolio_flattening = false }

module _ {S : Type 0} (o : Outside S) where
  -- A fault of one symbol's cancel is caught.
  unfoldable pub cancel_loop : List Text → World S → World S
  cancel_loop [] w = w
  cancel_loop (s ∷ ss) w = cancel_loop ss (do_cancel o s w).0

  -- The clearance of one symbol, forced where it is not reached
  abbrev pub clear_symbol : Text → M S (Bool × ℕ)
  clear_symbol s = do
    (cleared, remaining) ← do_await o s
    if cleared then pure (cleared, remaining) else (do forced ← do_force_cancel o s; do_await o s)

  unfoldable pub await_loop : List Text → World S → World S
  await_loop [] w = w
  await_loop (s ∷ ss) w = await_loop ss (clear_symbol s w).0

  unfoldable pub flatten_loop : List Position → Outcome → World S → World S × Outcome
  flatten_loop [] out w = (w, out)
  flatten_loop (p ∷ ps) out w =
      let r = do_flatten o (upper p.symbol) (side_of p) p.qty w in
      let next = flatten_loop ps (note_reply (upper p.symbol) r.1 out) r.0 in
      let rest = flatten_loop ps out w in if leb_ℤ p.qty (pos 0) then rest else next

  -- The positions are flattened one by one, or, if there are none, everything is closed.
  unfoldable pub flatten_positions : List Position → M S Outcome
  flatten_positions [] w =
      then_do (do_close_all o w) (λ closed. pure (record { flattened = []; failed = [] }))
  flatten_positions (p ∷ ps) w =
      let r = flatten_loop (p ∷ ps) (record { flattened = []; failed = [] }) w in (r.0, ok r.1)

  abbrev pub flatten_held : Text → List Position → M S FlattenResult
  flatten_held reason positions w =
      let symbols = symbols_of positions in
      (do
        removed ← do_clear_all
        out ← flatten_positions positions
        logged ← do_log o
        pure (result_of reason out))
        (await_loop symbols (cancel_loop symbols w))

  unfoldable pub portfolio_body : Text → M S FlattenResult
  portfolio_body reason = do_positions o >>= flatten_held reason

  unfoldable pub execute_portfolio_flatten :
      Protocol S → Text → Protocol S × Result Fault FlattenResult
  execute_portfolio_flatten p reason = elim (enter_portfolio p) [
    | none ↦ (
      p,
      ok (record {
        executed = false;
        skipped = true;
        reason = text "portfolio_flatten_already_active";
        symbols_flattened = [];
        symbols_failed = [];
      }),
    )
    | some q ↦
        let r = portfolio_body reason q.world in (leave_portfolio (record q { world = r.0 }), r.1)
  ]

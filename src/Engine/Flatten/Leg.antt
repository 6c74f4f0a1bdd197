-- ===== src/Engine/Flatten/Leg.antt =====
-- `execute_leg_flatten`: the cascade for one leg, where a fault of any call ends it.
use systematic_trading_valid.Common.{
  Bool, Option, Result, contains, false, if◌then◌else◌, keep_if, ltb, nat_eq, none, not, ok,
  pair_eq, pure, some, ℕ, ◌&&◌, ◌++◌, ◌==◌, ◌>>=◌, ◌||◌, ◌∷◌,
}
use systematic_trading_valid.Common.Int.{ltb_ℤ, pos, ℤ}
use systematic_trading_valid.Common.Text.{Text, text, text_eq, upper}
use systematic_trading_valid.Persistence.PendingOrders.{colon}
use systematic_trading_valid.Engine.Flatten.{
  Fault, M, Outside, Protocol, do_await, do_cancel, do_clear_prefix, do_flatten, do_force_cancel,
  do_log,
}

abbrev pub leg_key : Text → Text → Text
leg_key strategy symbol = strategy ++ (colon ++ upper symbol)

pub record LegOrder : Type 0 where
  pub strategy_id : Text
  pub symbol : Text
  pub position_side : Text
  pub position_qty : ℤ

abbrev pub has_position : LegOrder → Bool
has_position l =
    ltb_ℤ (pos 0) l.position_qty
    && ((l.position_side == text "long") || (l.position_side == text "short"))

-- The guard and the leg's key; there is no protocol to go on with while the leg is flattened.
unfoldable pub enter_leg : {S : Type 0} → Text → Protocol S → Option (Protocol S)
enter_leg key p =
    if contains key p.leg_flattening
    then none
    else some (record p { leg_flattening = key ∷ p.leg_flattening })

-- `finally`, whatever is raised
unfoldable pub leave_leg : {S : Type 0} → Text → Protocol S → Protocol S
leave_leg key p = record p { leg_flattening = keep_if (λ k. not (k == key)) p.leg_flattening }

module _ {S : Type 0} (o : Outside S) where
  -- The clearance, forced where orders remain
  unfoldable pub leg_clearance : LegOrder → M S (Bool × ℕ)
  leg_clearance l = do
    (cleared, remaining) ← do_await o (upper l.symbol)
    if not cleared && ltb 0 remaining
        then (do forced ← do_force_cancel o l.symbol; do_await o (upper l.symbol))
        else pure (cleared, remaining)

  abbrev pub log_leg : Bool → M S Bool
  log_leg cleared = do logged ← do_log o; pure cleared

  unfoldable pub leg_exit : LegOrder → Bool → M S Bool
  leg_exit l cleared =
      if has_position l
      then (do
        found ← do_flatten o l.symbol l.position_side l.position_qty
        if found then log_leg cleared else pure cleared)
      else log_leg cleared

  unfoldable pub leg_body : LegOrder → M S Bool
  leg_body l = do
    cancelled ← do_cancel o l.symbol
    removed ← do_clear_prefix l.strategy_id l.symbol
    (cleared, remaining) ← leg_clearance l
    leg_exit l cleared

  unfoldable pub execute_leg_flatten : Protocol S → LegOrder → Protocol S × Result Fault Bool
  execute_leg_flatten p l =
      let key = leg_key l.strategy_id l.symbol in
      elim (enter_leg key p) [
        | none ↦ (p, ok false)
        | some q ↦ let r = leg_body l q.world in (leave_leg key (record q { world = r.0 }), r.1)
      ]

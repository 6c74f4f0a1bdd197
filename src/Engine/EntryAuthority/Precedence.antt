-- ===== src/Engine/EntryAuthority/Precedence.antt =====
-- What the gate promises: which conditions block, and the first of them in the registered precedence as the reason.
use systematic_trading_valid.Common.{
  All, Bool, Bool-cases, List, Option, [], ap, arith, beq_iff, false, if◌then◌else◌, inl, inr,
  nat_eq, none, not, pair_eq, refl, some, sym, true, ◌&&◌, ◌++◌, ◌==◌, ◌||◌, ◌∷◌, ◌≡◌, ◌⊎◌,
}
use systematic_trading_valid.Common.Text.{Text, text, text_eq}
use systematic_trading_valid.Engine.EntryAuthority.{
  BlockReason, EntryContext, EntryDecision, blocked, capital_gate, commissioning_fail_closed,
  degradation_block_entries, entry_allowed, in_safe_mode, is_entry_action, portfolio_halt,
  pre_flight_recon_lock, preemption_escalation, risk_halt, strategy_halt,
}

-- The action opens a position.
abbrev pub IsEntry : Option Text → Type 0
IsEntry action = (action ≡ some (text "LONG")) ⊎ (action ≡ some (text "SHORT"))

-- When a reason applies: the halt of a strategy, the capital gate and the degradation stop entries only, the last
-- unless a liquidation is forced; each other one stops every action.
abbrev pub Applies : EntryContext → BlockReason → Type 0
Applies ctx preemption_escalation =
    (ctx.preemption_flatten_portfolio ≡ true) ⊎ (ctx.preemption_blocks_strategy ≡ true)
Applies ctx pre_flight_recon_lock = ctx.pre_flight_recon_locked ≡ true
Applies ctx risk_halt = ctx.risk_halted ≡ true
Applies ctx portfolio_halt = ctx.portfolio_halted ≡ true
Applies ctx strategy_halt = (ctx.strategy_halted ≡ true) × IsEntry ctx.action
Applies ctx capital_gate = (ctx.capital_gate_block_new_entries ≡ true) × IsEntry ctx.action
Applies ctx degradation_block_entries =
    (ctx.degradation_block_new_entries ≡ true)
    × (ctx.force_liquidation ≡ false)
    × IsEntry ctx.action
Applies ctx in_safe_mode = ctx.safe_mode ≡ true
Applies ctx commissioning_fail_closed = ctx.commissioning_gate_blocked ≡ true

abbrev pub precedence : List BlockReason
precedence =
    preemption_escalation ∷ pre_flight_recon_lock ∷ risk_halt ∷ portfolio_halt ∷ strategy_halt
    ∷ capital_gate ∷ degradation_block_entries ∷ in_safe_mode ∷ commissioning_fail_closed ∷ []

-- The reason applies, and none that goes before it does.
pub record IsFirst (ctx : EntryContext) (rs : List BlockReason) (r : BlockReason) : Type 0 where
  pub before : List BlockReason
  pub after : List BlockReason
  pub splits : rs ≡ before ++ (r ∷ after)
  pub applies : Applies ctx r
  pub none_before : All (λ q. ¬ Applies ctx q) before

-- Either no reason applies and the order may go, or it is blocked with the first that does.
abbrev pub Decides : EntryContext → List BlockReason → EntryDecision → Type 0
Decides ctx rs d =
    ((d ≡ record { allowed = true; block_reason = none }) × All (λ q. ¬ Applies ctx q) rs)
    ⊎ ((r : BlockReason) × (d ≡ record { allowed = false; block_reason = some r })
        × IsFirst ctx rs r)

either : (b c : Bool) → (b || (c || false)) ≡ true → (b ≡ true) ⊎ (c ≡ true)
either true c h = inl refl
either false true h = inr refl
either false false h = cc

named_action : (action : Option Text) → is_entry_action action ≡ true → IsEntry action
named_action none h = cc
named_action (some a) h = elim (either (text "LONG" == a) (text "SHORT" == a) h) [
  | inl e ↦ inl (ap some (sym ((beq_iff (text "LONG") a).0 e)))
  | inr e ↦ inr (ap some (sym ((beq_iff (text "SHORT") a).0 e)))
]

tested_action : (action : Option Text) → IsEntry action → is_entry_action action ≡ true
tested_action action (inl e) = rw e refl
tested_action action (inr e) = rw e refl

-- The tests of the code, reason by reason
closes : EntryContext → BlockReason → Bool
closes ctx preemption_escalation =
    ctx.preemption_flatten_portfolio || ctx.preemption_blocks_strategy
closes ctx pre_flight_recon_lock = ctx.pre_flight_recon_locked
closes ctx risk_halt = ctx.risk_halted
closes ctx portfolio_halt = ctx.portfolio_halted
closes ctx strategy_halt = ctx.strategy_halted && is_entry_action ctx.action
closes ctx capital_gate = ctx.capital_gate_block_new_entries && is_entry_action ctx.action
closes ctx degradation_block_entries =
    ctx.degradation_block_new_entries && is_entry_action ctx.action && not ctx.force_liquidation
closes ctx in_safe_mode = ctx.safe_mode
closes ctx commissioning_fail_closed = ctx.commissioning_gate_blocked

both : (b c : Bool) → (b && c) ≡ true → (b ≡ true) × (c ≡ true)
both true c h = (refl, h)
both false c h = cc

not_forced : (b : Bool) → not b ≡ true → b ≡ false
not_forced true h = cc
not_forced false h = refl

closes_to : (ctx : EntryContext) (r : BlockReason) → closes ctx r ≡ true → Applies ctx r
unfolding closes
closes_to ctx preemption_escalation h = either _ _ (ground (arith, h))
closes_to ctx pre_flight_recon_lock h = h
closes_to ctx risk_halt h = h
closes_to ctx portfolio_halt h = h
closes_to ctx strategy_halt h = let (s, e) = both _ _ h in (s, named_action ctx.action e)
closes_to ctx capital_gate h = let (s, e) = both _ _ h in (s, named_action ctx.action e)
closes_to ctx degradation_block_entries h =
    let (f, k) = both _ _ h in
    let (s, e) = both _ _ f in (s, not_forced ctx.force_liquidation k, named_action ctx.action e)
closes_to ctx in_safe_mode h = h
closes_to ctx commissioning_fail_closed h = h

closes_from : (ctx : EntryContext) (r : BlockReason) → Applies ctx r → closes ctx r ≡ true
unfolding closes
closes_from ctx preemption_escalation (inl h) = ground (arith, h)
closes_from ctx preemption_escalation (inr h) = ground (arith, h)
closes_from ctx pre_flight_recon_lock h = h
closes_from ctx risk_halt h = h
closes_from ctx portfolio_halt h = h
closes_from ctx strategy_halt (s, e) = simp (s, tested_action ctx.action e)
closes_from ctx capital_gate (s, e) = simp (s, tested_action ctx.action e)
closes_from ctx degradation_block_entries (s, f, e) = simp (s, f, tested_action ctx.action e)
closes_from ctx in_safe_mode h = h
closes_from ctx commissioning_fail_closed h = h

abbrev decide_by : EntryContext → List BlockReason → EntryDecision
decide_by ctx [] = record { allowed = true; block_reason = none }
decide_by ctx (r ∷ rs) = let rest = decide_by ctx rs in if closes ctx r then blocked r else rest

not_closed : (ctx : EntryContext) (r : BlockReason) → closes ctx r ≡ false → ¬ Applies ctx r
not_closed ctx r h a = cc (h, closes_from ctx r a)

later :
    (ctx : EntryContext) (r : BlockReason) (rs : List BlockReason) (d : EntryDecision)
    → ¬ Applies ctx r
    → Decides ctx rs d
    → Decides ctx (r ∷ rs) d
later ctx r rs d n (inl (e, a)) = inl (e, (n, a))
later ctx r rs d n (inr (q, e, f)) = inr (
  q,
  e,
  record {
    before = r ∷ f.before;
    after = f.after;
    splits = ap (λ l. r ∷ l) f.splits;
    applies = f.applies;
    none_before = (n, f.none_before);
  },
)

decided : (ctx : EntryContext) (rs : List BlockReason) → Decides ctx rs (decide_by ctx rs)
decided ctx [] = inl (refl, tt)
decided ctx (r ∷ rs) = elim (Bool-cases (closes ctx r)) [
  | inl e ↦ inr (
    r,
    simp e refl,
    record {
      before = [];
      after = rs;
      splits = refl;
      applies = closes_to ctx r e;
      none_before = tt;
    },
  )
  | inr e ↦ simp e (later ctx r rs (decide_by ctx rs) (not_closed ctx r e) (decided ctx rs))
]

-- Either no reason applies, and the order may go; or the order is blocked with a reason that applies, where none
-- of those before it in the registered precedence does. An order applies for an entry if its action is
-- LONG or SHORT, and no other action is stopped by a strategy's halt, the capital gate or the degradation.
pub first_block_wins : (ctx : EntryContext) → Decides ctx precedence (entry_allowed ctx)
unfolding entry_allowed closes
first_block_wins ctx = decided ctx precedence

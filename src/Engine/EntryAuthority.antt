-- ===== src/Engine/EntryAuthority.antt =====
-- src/engine/entry_authority.py: the one gate that an order passes at its submission.
pub mod Precedence
mod Examples
use systematic_trading_valid.Common.{
  Bool, List, Option, [], contains, false, if◌then◌else◌, nat_eq, none, not, some, true, ◌&&◌, ◌||◌,
  ◌∷◌,
}
use systematic_trading_valid.Common.Text.{Text, text, text_eq}

-- `ENTRY_ACTIONS`
abbrev pub entry_actions : List Text
entry_actions = text "LONG" ∷ text "SHORT" ∷ []

pub record EntryContext : Type 0 where
  pub action : Option Text
  pub preemption_flatten_portfolio : Bool
  pub preemption_blocks_strategy : Bool
  pub portfolio_halted : Bool
  pub strategy_halted : Bool
  pub capital_gate_block_new_entries : Bool
  pub degradation_block_new_entries : Bool
  pub safe_mode : Bool
  pub commissioning_gate_blocked : Bool
  pub force_liquidation : Bool
  pub pre_flight_recon_locked : Bool
  pub risk_halted : Bool

-- The reasons of a block, one for each text of the source.
pub data BlockReason : Type 0 where
  preemption_escalation pre_flight_recon_lock risk_halt portfolio_halt strategy_halt : BlockReason
  capital_gate degradation_block_entries in_safe_mode commissioning_fail_closed : BlockReason

pub record EntryDecision : Type 0 where
  pub allowed : Bool
  pub block_reason : Option BlockReason

abbrev pub is_entry_action : Option Text → Bool
is_entry_action none = false
is_entry_action (some a) = contains a entry_actions

abbrev pub blocked : BlockReason → EntryDecision
blocked r = record { allowed = false; block_reason = some r }

unfoldable pub entry_allowed : EntryContext → EntryDecision
entry_allowed ctx =
    let is_entry = is_entry_action ctx.action in
    if ctx.preemption_flatten_portfolio || ctx.preemption_blocks_strategy
    then blocked preemption_escalation
    else if ctx.pre_flight_recon_locked
    then blocked pre_flight_recon_lock
    else if ctx.risk_halted
    then blocked risk_halt
    else if ctx.portfolio_halted
    then blocked portfolio_halt
    else if ctx.strategy_halted && is_entry
    then blocked strategy_halt
    else if ctx.capital_gate_block_new_entries && is_entry
    then blocked capital_gate
    else if ctx.degradation_block_new_entries && is_entry && not ctx.force_liquidation
    then blocked degradation_block_entries
    else if ctx.safe_mode
    then blocked in_safe_mode
    else if ctx.commissioning_gate_blocked
    then blocked commissioning_fail_closed
    else record { allowed = true; block_reason = none }

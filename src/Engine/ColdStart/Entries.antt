-- ===== src/Engine/ColdStart/Entries.antt =====
-- Whether a leg may enter, and at which scale: `blocks_entry_signals` and `cold_start_entry_scale`.
use systematic_trading_valid.Common.{
  Bool, contains, false, if◌then◌else◌, ltb, nat_eq, pair_eq, true, ℕ, ◌∷◌,
}
use systematic_trading_valid.Common.Text.{Text, text_eq}
use systematic_trading_valid.Engine.ColdStart.{
  Gate, GateState, Policy, bypass_override, fail_safe_close, heuristic_parity, high_availability,
  pending, pending_blocked, policy_of, stabilized_verified, stale_reverify, state_of, state_value,
}

unfoldable pub blocks_all_entries : Gate → Text → Bool
blocks_all_entries g s = elim (state_of g s) [
  | pending ↦ true
  | pending_blocked ↦ true
  | stale_reverify ↦ true
  | heuristic_parity ↦ false
  | stabilized_verified ↦ false
  | bypass_override ↦ false
]

-- The suppression is logged once for each leg and state.
abbrev note_suppressed : Text → GateState → Gate → Gate
note_suppressed s st g =
    if contains (s, state_value st) g.suppression_logged
    then g
    else record g { suppression_logged = (s, state_value st) ∷ g.suppression_logged }

abbrev suppressed : Policy → Text → GateState → Gate → Gate
suppressed fail_safe_close s st g = note_suppressed s st g
suppressed high_availability s st g = g

abbrev is_fail_safe : Policy → Bool
is_fail_safe fail_safe_close = true
is_fail_safe high_availability = false

abbrev pub blocks_in : GateState → Policy → Text → Gate → Gate × Bool
blocks_in pending p s g = (g, true)
blocks_in pending_blocked p s g = (g, true)
blocks_in stale_reverify p s g = (g, true)
blocks_in heuristic_parity p s g = (suppressed p s heuristic_parity g, is_fail_safe p)
blocks_in bypass_override p s g = (suppressed p s bypass_override g, is_fail_safe p)
blocks_in stabilized_verified p s g = (g, false)

unfoldable pub blocks_entry_signals : Text → Gate → Gate × Bool
blocks_entry_signals s g = blocks_in (state_of g s) (policy_of g s) s g

abbrev scale_unless : Policy → ℕ → ℕ
scale_unless fail_safe_close n = 0
scale_unless high_availability n = n

abbrev pub scale_in : GateState → Policy → Text → Gate → Gate × ℕ
scale_in stabilized_verified p s g = (g, 100)
scale_in stale_reverify p s g = (g, 0)
scale_in heuristic_parity p s g =
    (suppressed p s heuristic_parity g, scale_unless p g.config.heuristic_scale)
scale_in bypass_override p s g =
    (suppressed p s bypass_override g, scale_unless p g.config.bypass_scale)
scale_in pending p s g = (g, 0)
scale_in pending_blocked p s g = (g, 0)

unfoldable cold_start_entry_scale : Text → Gate → Gate × ℕ
cold_start_entry_scale s g = scale_in (state_of g s) (policy_of g s) s g

unfoldable pub allows_conservative_entries : Text → Gate → Gate × Bool
unfolding cold_start_entry_scale
allows_conservative_entries s g = let r = cold_start_entry_scale s g in (r.0, ltb 0 r.1)

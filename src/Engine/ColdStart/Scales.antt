-- ===== src/Engine/ColdStart/Scales.antt =====
-- A leg is scaled to zero exactly if its entries are blocked.
use systematic_trading_valid.Common.{arith, ltb, nat_eq, not, pair_eq, refl, ◌<◌, ◌≡◌}
use systematic_trading_valid.Common.Text.{Text, text_eq}
use systematic_trading_valid.Engine.ColdStart.{
  Gate, GateState, Policy, bypass_override, fail_safe_close, heuristic_parity, high_availability,
  pending, pending_blocked, policy_of, stabilized_verified, stale_reverify, state_of,
}
use systematic_trading_valid.Engine.ColdStart.Entries.{
  allows_conservative_entries, blocks_entry_signals, blocks_in, scale_in,
}

module _ (s : Text) where
  scale_in-blocks_in :
      (st : GateState) (p : Policy) (g : Gate)
      → 0 < g.config.heuristic_scale
      → 0 < g.config.bypass_scale
      → ((scale_in st p s g).0 ≡ (blocks_in st p s g).0)
        × (ltb 0 (scale_in st p s g).1 ≡ not (blocks_in st p s g).1)
  scale_in-blocks_in pending p g h k = (refl, refl)
  scale_in-blocks_in pending_blocked p g h k = (refl, refl)
  scale_in-blocks_in stabilized_verified p g h k = (refl, refl)
  scale_in-blocks_in stale_reverify p g h k = (refl, refl)
  scale_in-blocks_in heuristic_parity fail_safe_close g h k = (refl, refl)
  scale_in-blocks_in heuristic_parity high_availability g h k = (refl, ground (arith, h))
  scale_in-blocks_in bypass_override fail_safe_close g h k = (refl, refl)
  scale_in-blocks_in bypass_override high_availability g h k = (refl, ground (arith, k))

  -- For scales above zero, the two gates agree in every state and under every policy: a leg is sized above zero
  -- exactly if its entries are not blocked, and both note a suppression alike.
  pub open_iff_scaled :
      (g : Gate)
      → 0 < g.config.heuristic_scale
      → 0 < g.config.bypass_scale
      → ((allows_conservative_entries s g).0 ≡ (blocks_entry_signals s g).0)
        × ((allows_conservative_entries s g).1 ≡ not (blocks_entry_signals s g).1)
  unfolding allows_conservative_entries blocks_entry_signals
  open_iff_scaled g h k = scale_in-blocks_in (state_of g s) (policy_of g s) g h k

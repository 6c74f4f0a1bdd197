-- ===== src/Engine/ColdStart/Freshness.antt =====
-- What lets a leg enter: under the fail-safe policy only the verified state, which a tick keeps for fresh bars only.
use systematic_trading_valid.Common.{
  Bool, Bool-cases, Option, Option-cases, and_left, ap, arith, beq_refl, false, if◌then◌else◌, inl,
  inr, ltb, nat_eq, none, pair_eq, refl, sym, true, ℕ, ◌&&◌, ◌*◌, ◌==◌, ◌∙◌, ◌≡◌,
}
use systematic_trading_valid.Common.Text.{Text, text, text_beq→eq, text_eq}
use systematic_trading_valid.Common.Dict.{lookup-insert}
use systematic_trading_valid.Engine.ColdStart.{
  Gate, GateState, Policy, Stream, Transition, bypass_override, elapsed_seconds, fail_safe_close,
  heuristic_parity, high_availability, is_verified, pending, pending_blocked, policy_of,
  set_readiness, stabilized_verified, stale_reverify, state_of, state_value,
}
use systematic_trading_valid.Engine.ColdStart.Entries.{blocks_entry_signals, blocks_in}
use systematic_trading_valid.Engine.ColdStart.Progress.{
  Sight, bar_period_for, bounded, check_stale_feed_early_warning, evaluate_time_bound,
  max_bar_age_for_timeframe, moved, sight_of, tick_time_bound, time_bound_in, time_out, transition,
  wall_clock_freshness_ok,
}

module _ (s : Text) where
  transition-state_of :
      (new : GateState) (reason : Text) (v : Sight) (a i : Bool) (g : Gate)
      → is_verified (state_of (transition s new reason v a i g).0 s) ≡ is_verified new
  unfolding transition
  transition-state_of new reason v a i g =
      elim (Bool-cases (state_value (state_of g s) == state_value new)) [
        | inl e ↦ rw e (same_value (state_of g s) new e)
        | inr e ↦ rw (e, lookup-insert, beq_refl s) refl
      ]
    where
      is_verified_text :
          (st : GateState) → is_verified st ≡ (state_value st == text "STABILIZED_VERIFIED")
      is_verified_text pending = refl
      is_verified_text pending_blocked = refl
      is_verified_text heuristic_parity = refl
      is_verified_text stabilized_verified = refl
      is_verified_text stale_reverify = refl
      is_verified_text bypass_override = refl

      same_value :
          (st new : GateState)
          → (state_value st == state_value new) ≡ true
          → is_verified st ≡ is_verified new
      same_value st new e =
          is_verified_text st
          ∙ ap (λ t. t == text "STABILIZED_VERIFIED")
              (text_beq→eq (state_value st) (state_value new) e)
          ∙ sym (is_verified_text new)

  transition_policies :
      (new : GateState) (reason : Text) (v : Sight) (a i : Bool) (g : Gate)
      → (transition s new reason v a i g).0.policies ≡ g.policies
  unfolding transition
  transition_policies new reason v a i g =
      elim (Bool-cases (state_value (state_of g s) == state_value new)) [
        | inl e ↦ rw e refl
        | inr e ↦ rw e refl
      ]

  warned_states :
      (v : Sight) (g : Gate)
      → ((check_stale_feed_early_warning s v g).policies ≡ g.policies)
        × ((check_stale_feed_early_warning s v g).states ≡ g.states)
  warned_states v g = elim (Option-cases v.lag) [
    | inl e ↦ rw e (refl, refl)
    | inr (lag, e) ↦ elim (Bool-cases (v.fresh && ltb v.max_age (2 * lag))) [
      | inl f ↦ rw (e, f) (refl, refl)
      | inr f ↦ rw (e, f) (refl, refl)
    ]
  ]

  -- The policies stay, and a leg is verified afterwards only if its bars are fresh.
  abbrev NeedsFresh : Sight → Gate → Gate × Option Transition → Type 0
  NeedsFresh v g r =
      (r.0.policies ≡ g.policies) × (is_verified (state_of r.0 s) ≡ true → v.fresh ≡ true)

  moved-NeedsFresh :
      (new : GateState) (reason : Text) (v : Sight) (a i : Bool) (g : Gate)
      → (is_verified new ≡ true → v.fresh ≡ true)
      → NeedsFresh v g (moved (transition s new reason v a i g))
  moved-NeedsFresh new reason v a i g e = (
    transition_policies new reason v a i g,
    λ h. e (sym (transition-state_of new reason v a i g) ∙ h),
  )

  stays-NeedsFresh :
      (v : Sight) (g : Gate) → is_verified (state_of g s) ≡ false → NeedsFresh v g (g, none)
  stays-NeedsFresh v g e = (refl, λ h. cc)

  if-NeedsFresh :
      (b : Bool) (v : Sight) (g : Gate) (r q : Gate × Option Transition)
      → (b ≡ true → NeedsFresh v g r)
      → (b ≡ false → NeedsFresh v g q)
      → NeedsFresh v g (if b then r else q)
  if-NeedsFresh true v g r q h k = h refl
  if-NeedsFresh false v g r q h k = k refl

  time_out-NeedsFresh :
      (st : GateState) (p : Policy) (v : Sight) (g : Gate)
      → is_verified (state_of g s) ≡ false
      → NeedsFresh v g (time_out st p s v g)
  time_out-NeedsFresh pending fail_safe_close v g e = moved-NeedsFresh _ _ v _ _ g (λ h. cc)
  time_out-NeedsFresh pending_blocked fail_safe_close v g e = stays-NeedsFresh v g e
  time_out-NeedsFresh heuristic_parity fail_safe_close v g e = stays-NeedsFresh v g e
  time_out-NeedsFresh stabilized_verified fail_safe_close v g e = stays-NeedsFresh v g e
  time_out-NeedsFresh stale_reverify fail_safe_close v g e = stays-NeedsFresh v g e
  time_out-NeedsFresh bypass_override fail_safe_close v g e = stays-NeedsFresh v g e
  time_out-NeedsFresh pending high_availability v g e =
      if-NeedsFresh (v.intact && v.fresh) v g _ _ (λ q. moved-NeedsFresh _ _ v _ _ g (λ h. cc))
        (λ q. moved-NeedsFresh _ _ v _ _ g (λ h. cc))
  time_out-NeedsFresh pending_blocked high_availability v g e =
      moved-NeedsFresh _ _ v _ _ g (λ h. cc)
  time_out-NeedsFresh heuristic_parity high_availability v g e =
      moved-NeedsFresh _ _ v _ _ g (λ h. cc)
  time_out-NeedsFresh stabilized_verified high_availability v g e =
      moved-NeedsFresh _ _ v _ _ g (λ h. cc)
  time_out-NeedsFresh stale_reverify high_availability v g e =
      moved-NeedsFresh _ _ v _ _ g (λ h. cc)
  time_out-NeedsFresh bypass_override high_availability v g e = stays-NeedsFresh v g e

  bounded-NeedsFresh :
      (st : GateState) (v : Sight) (g : Gate)
      → is_verified (state_of g s) ≡ false
      → NeedsFresh v g (bounded st s v g)
  bounded-NeedsFresh st v g e =
      if-NeedsFresh (ltb (elapsed_seconds g v.mono) g.config.max_wait) v g _ _
        (λ q. stays-NeedsFresh v g e)
        λ q.
          if-NeedsFresh (v.aligned && v.verified && v.fresh && v.intact) v g _ _
            (λ p. moved-NeedsFresh _ _ v _ _ g (λ h. ground arith))
            (λ p. time_out-NeedsFresh st (policy_of g s) v g e)

  after_warning :
      (v : Sight) (g : Gate) (r : Gate × Option Transition)
      → NeedsFresh v (check_stale_feed_early_warning s v g) r
      → NeedsFresh v g r
  after_warning v g r (p, f) = (p ∙ (warned_states v g).0, f)

  still_unverified :
      (v : Sight) (g : Gate)
      → is_verified (state_of g s) ≡ false
      → is_verified (state_of (check_stale_feed_early_warning s v g) s) ≡ false
  still_unverified v g e = rw ((warned_states v g).1) e

  waits-NeedsFresh :
      (st : GateState) (v : Sight) (g : Gate)
      → is_verified (state_of g s) ≡ false
      → NeedsFresh v g (bounded st s v (check_stale_feed_early_warning s v g))
  waits-NeedsFresh st v g e =
      let warned = check_stale_feed_early_warning s v g in
      after_warning v g (bounded st s v warned)
        (bounded-NeedsFresh st v warned (still_unverified v g e))

  time_bound_in-NeedsFresh :
      (st : GateState) (v : Sight) (g : Gate)
      → is_verified (state_of g s) ≡ is_verified st
      → NeedsFresh v g (time_bound_in st s v g)
  time_bound_in-NeedsFresh bypass_override v g e = stays-NeedsFresh v g e
  time_bound_in-NeedsFresh stabilized_verified v g e =
      let warned = check_stale_feed_early_warning s v g in
      let stale =
        moved-NeedsFresh stale_reverify (text "stabilized_verified_feed_stale") v v.aligned v.intact
          warned (λ h. cc) in
      if-NeedsFresh v.fresh v g _ _ (λ q. ((warned_states v g).0, λ h. q))
        (λ q. (stale.0 ∙ (warned_states v g).0, stale.1))
  time_bound_in-NeedsFresh stale_reverify v g e =
      let warned = check_stale_feed_early_warning s v g in
      let stays = stays-NeedsFresh v warned (still_unverified v g e) in
      if-NeedsFresh (v.fresh && v.aligned) v g _ _
        (λ q.
          let recovered =
            moved-NeedsFresh stabilized_verified (text "stale_reverify_feed_recovered") v true
              v.intact warned (λ h. and_left v.fresh v.aligned q) in
          (recovered.0 ∙ (warned_states v g).0, recovered.1))
        (λ q. (stays.0 ∙ (warned_states v g).0, stays.1))
  time_bound_in-NeedsFresh pending v g e = waits-NeedsFresh pending v g e
  time_bound_in-NeedsFresh pending_blocked v g e = waits-NeedsFresh pending_blocked v g e
  time_bound_in-NeedsFresh heuristic_parity v g e = waits-NeedsFresh heuristic_parity v g e

  open_is_verified :
      (st : GateState) (g : Gate)
      → (blocks_in st fail_safe_close s g).1 ≡ false
      → is_verified st ≡ true
  open_is_verified pending g h = cc
  open_is_verified pending_blocked g h = cc
  open_is_verified heuristic_parity g h = cc
  open_is_verified stabilized_verified g h = refl
  open_is_verified stale_reverify g h = cc
  open_is_verified bypass_override g h = cc

  -- On a tick with readiness passed, a leg of the fail-safe policy whose entries are not blocked afterwards is
  -- verified, and its latest bar is fresh: whatever state it was in, how long the gate has waited and
  -- what else the tick saw. So a bypass opens no such leg, and a verified leg is closed when its
  -- feed goes stale.
  pub entry_needs_fresh :
      (timeframe : Text) (stream : Stream) (aligned verified : Bool) (now mono : ℕ) (g : Gate)
      → policy_of g s ≡ fail_safe_close
      → let after = (tick_time_bound s timeframe stream aligned verified true now mono g).0 in
        (blocks_entry_signals s after).1 ≡ false
        → (is_verified (state_of after s) ≡ true)
          × ((wall_clock_freshness_ok stream.latest_bar
                (bar_period_for timeframe)
                now
                (max_bar_age_for_timeframe timeframe g.config)).0
              ≡ true)
  unfolding tick_time_bound evaluate_time_bound set_readiness blocks_entry_signals
  entry_needs_fresh timeframe stream aligned verified now mono g p h =
      let v = sight_of g.config timeframe stream aligned verified now mono in
      let ready = set_readiness mono true g in
      let (policies, fresh) = time_bound_in-NeedsFresh (state_of ready s) v ready refl in
      let after = (evaluate_time_bound s v ready).0 in
      let keeps : policy_of after s ≡ fail_safe_close = rw policies p in
      let entered = open_is_verified (state_of after s) after (rw keeps at h) in
      (entered, fresh entered)

-- ===== src/Engine/FillSieve/Drain.antt =====
-- One cycle over the tracked bundles: each is dropped, or one cycle older and below the threshold.
use systematic_trading_valid.Common.{
  All, Bool-cases, Option, Result, [], arith, beq_iff, contains, err, inl, inr, leb, map, nat_eq,
  none, ok, pair_eq, some, sym, then_do, true, ℕ, ◌+◌, ◌==◌, ◌>>=◌, ◌∙◌, ◌∷◌, ◌≡◌, ◌≤◌, ◌⊎◌,
}
use systematic_trading_valid.Common.Text.{Text, text_eq}
use systematic_trading_valid.Common.Dict.{Dict, insert, lookup}
use systematic_trading_valid.Common.Keys.{keys_of}
use systematic_trading_valid.Engine.FillSieve.{
  Broker, Bundle, LegConfig, M, Sieve, ask, cancel_threshold, key_of, needs_tracking,
}
use systematic_trading_valid.Engine.FillSieve.Authority.{apply_broker_authority}
use systematic_trading_valid.Engine.FillSieve.Cycles.{
  advance_bundle, advance_bundles, advance_of, drop, end_cycle, order_of, refreshed_bundle,
}
use systematic_trading_valid.Engine.FillSieve.Frames.{
  apply_broker_authority-Keeps, ask-Keeps, refresh_slices-Keeps,
}
use systematic_trading_valid.Engine.FillSieve.Tracked.{
  Advanced, Advanced-after, Advanced-then_do, Advances, Advances-after, Advances-erase,
  Advances-insert, IsAged, IsTracked, IsTracked-insert,
}

module _ {S : Type 0} (o : Broker S) where
  end_cycle-Advanced :
      (k : Text) (b : Bundle) (w : Sieve S)
      → k ≡ key_of b
      → IsTracked w.pending
      → Advanced k b.unresolved_cycles w.pending (end_cycle o k b w)
  end_cycle-Advanced k b w e i = elim (Bool-cases (needs_tracking b)) [
    | inr h ↦ rw (h, ← e) (Advances-erase k b.unresolved_cycles w.pending i)
    | inl h ↦ elim (Bool-cases (leb cancel_threshold (b.unresolved_cycles + 1))) [
      | inl t ↦
          rw (h, t, ← e)
            (Advanced-after k older b.unresolved_cycles w.pending
              ((ask (o.cancel_open_orders b.symbol) >>= λ cancelled. drop k)
                (record w { pending = insert k older w.pending }))
              (Advanced-then_do k b.unresolved_cycles _ (ask (o.cancel_open_orders b.symbol)) _ _
                (ask-Keeps _) (IsTracked-insert k older w.pending e i)
                λ a v q. rw q (
                  Advances-erase k b.unresolved_cycles (insert k older w.pending)
                    (IsTracked-insert k older w.pending e i))))
      | inr t ↦
          rw (h, t, ← e)
            (Advances-after k older b.unresolved_cycles w.pending _ (
              Advances-insert k older (insert k older w.pending) b.unresolved_cycles e
                (record { older = omega arith; below = ground arith })
                (IsTracked-insert k older w.pending e i)))
    ]
  ]
    where
      older : Bundle
      older = record b { unresolved_cycles = b.unresolved_cycles + 1 }

  advance_bundle-Advanced :
      (leg : LegConfig) (k : Text) (b : Bundle) (w : Sieve S)
      → k ≡ key_of b
      → IsTracked w.pending
      → Advanced k b.unresolved_cycles w.pending (advance_bundle o leg k b w)
  unfolding advance_bundle
  advance_bundle-Advanced leg k b w e i =
      Advanced-then_do k b.unresolved_cycles w.pending _ _ w (refresh_slices-Keeps o b b.slices) i
        λ refreshed v q.
          let c = refreshed_bundle b refreshed in
          let j = IsTracked-insert k c w.pending e i in
          let orders = map (order_of b) b.slices in
          rw q (
            Advanced-after k c b.unresolved_cycles w.pending
              ((apply_broker_authority o leg orders refreshed b.positions_before >>= λ positions.
                  end_cycle o k c)
                (record v { pending = insert k c w.pending }))
              (Advanced-then_do k b.unresolved_cycles (insert k c w.pending) _ _ _
                (apply_broker_authority-Keeps o leg orders refreshed b.positions_before) j
                λ a u p.
                  let h : IsTracked u.pending = rw p j in rw (← p) (end_cycle-Advanced k c u e h)))

  advance_of-Advanced :
      (leg : Option LegConfig) (k : Text) (b : Bundle) (w : Sieve S)
      → k ≡ key_of b
      → IsTracked w.pending
      → Advanced k b.unresolved_cycles w.pending (advance_of o leg k b w)
  advance_of-Advanced none k b w e i = Advances-erase k b.unresolved_cycles w.pending i
  advance_of-Advanced (some leg) k b w e i = advance_bundle-Advanced leg k b w e i

  -- A tracked bundle is one that the cycle has still to come to, or an aged one.
  abbrev Due : ℕ → Dict Text Bundle → Dict Text Bundle → Type 0
  Due n rest d =
      (j : Text) (b : Bundle)
      → lookup j d ≡ some b
      → (contains j (keys_of rest) ≡ true) ⊎ IsAged n b

  Due-step :
      (n m : ℕ) (k : Text) (b : Bundle) (rest d d' : Dict Text Bundle)
      → n ≤ m
      → Advances k m d d'
      → Due n ((k, b) ∷ rest) d
      → Due n rest d'
  Due-step n m k b rest d d' le h due j c e = elim (Bool-cases (k == j)) [
    | inl q ↦
        let a = h.aged c (rw (← (beq_iff k j).0 q) at e) in
        inr (record { older = omega (arith, a.older); below = a.below })
    | inr q ↦ rw q at (due j c (sym (h.others j q) ∙ e))
  ]

  -- The bundles to come, which are under their keys and of n cycles or more
  abbrev Waiting : ℕ → Dict Text Bundle → Type 0
  Waiting n rest =
      All (λ (p : Text × Bundle). (p.0 ≡ key_of p.1) × (n ≤ p.1.unresolved_cycles)) rest

  abbrev pub Drained : ℕ → Sieve S × Result Text (Unit {0}) → Type 0
  Drained n (w, ok a) = IsTracked w.pending × Due n [] w.pending
  Drained n (w, err e) = IsTracked w.pending

  Drained-then_do :
      (k : Text) (n m : ℕ) (d : Dict Text Bundle) (r : Sieve S × Result Text (Unit {0}))
      (f : Unit {0} → M S (Unit {0}))
      → Advanced k m d r
      → ((v : Sieve S) → Advances k m d v.pending → Drained n (f tt v))
      → Drained n (then_do r f)
  Drained-then_do k n m d (v, ok tt) f h g = g v h
  Drained-then_do k n m d (v, err x) f h g = h

  pub advance_bundles-Drained :
      (legs : Dict Text LegConfig) (n : ℕ) (rest : Dict Text Bundle) (w : Sieve S)
      → Waiting n rest
      → IsTracked w.pending
      → Due n rest w.pending
      → Drained n (advance_bundles o legs rest w)
  unfolding advance_bundles
  advance_bundles-Drained legs n [] w h i due = (i, due)
  advance_bundles-Drained legs n ((k, b) ∷ rest) w ((e, le), hs) i due =
      Drained-then_do k n b.unresolved_cycles w.pending
        (advance_of o (lookup b.strategy_id legs) k b w) (λ a. advance_bundles o legs rest)
        (advance_of-Advanced (lookup b.strategy_id legs) k b w e i)
        λ v g.
          advance_bundles-Drained legs n rest v hs g.tracked
            (Due-step n b.unresolved_cycles k b rest w.pending v.pending le g due)

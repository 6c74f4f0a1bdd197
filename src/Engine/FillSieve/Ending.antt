-- ===== src/Engine/FillSieve/Ending.antt =====
-- No bundle is tracked for ever: three cycles that return end all that were tracked.
use systematic_trading_valid.Common.{
  All-map, Bool, Bool-cases, List, Option-cases, Result, [], arith, err, false, if◌then◌else◌, inl,
  inr, nat_eq, ok, pair_eq, pure, refl, some, then_do, true, ℕ, ◌+◌, ◌>>=◌, ◌∷◌, ◌≡◌, ◌≤◌,
}
use systematic_trading_valid.Common.Int.{leb_ℤ, pos, ℤ}
use systematic_trading_valid.Common.Text.{Text, text_eq, upper-upper}
use systematic_trading_valid.Common.Dict.{Dict, lookup}
use systematic_trading_valid.Common.Keys.{empty_dict, entries_found, found_key}
use systematic_trading_valid.Engine.FillSieve.{
  BookOrder, Broker, Bundle, Held, LegConfig, M, OrderResult, Sieve, bundle_from_submission,
  bundle_key, key_of, needs_tracking, new_sieve,
}
use systematic_trading_valid.Engine.FillSieve.Cycles.{
  advance_pending_cycles, pending_bundle_count, reconcile_post_submit, register_ioc_residual,
  settle_bundle,
}
use systematic_trading_valid.Engine.FillSieve.Frames.{
  Keeps, apply_broker_authority-Keeps, ask-Keeps,
}
use systematic_trading_valid.Engine.FillSieve.Tracked.{
  IsTracked, IsTracked-erase, IsTracked-insert, IsTracked-nil,
}
use systematic_trading_valid.Engine.FillSieve.Drain.{Drained, advance_bundles-Drained}

pub data Op : Type 0 where
  submits : LegConfig → List BookOrder → List OrderResult → List Held → Op
  residuals : LegConfig → List BookOrder → List OrderResult → List Held → ℤ → Op
  cycles : Dict Text LegConfig → Op

module _ {S : Type 0} (o : Broker S) where
  -- A method that raises leaves what it changed before.
  abbrev run_op : Op → Sieve S → Sieve S
  run_op (submits leg orders results before) w =
      (reconcile_post_submit o leg orders results before w).0
  run_op (residuals leg orders results before residual) w =
      (register_ioc_residual o leg orders results before residual w).0
  run_op (cycles legs) w = (advance_pending_cycles o legs w).0

  unfoldable pub run_ops : List Op → Sieve S → Sieve S
  run_ops [] w = w
  run_ops (op ∷ ops) w = run_ops ops (run_op op w)

  abbrev pub three_cycles :
      Dict Text LegConfig → Dict Text LegConfig → Dict Text LegConfig → M S (Unit {0})
  three_cycles first second third = do
    once ← advance_pending_cycles o first
    twice ← advance_pending_cycles o second
    advance_pending_cycles o third

  abbrev AtLeast : ℕ → Dict Text Bundle → Type 0
  AtLeast n d = (j : Text) (b : Bundle) → lookup j d ≡ some b → n ≤ b.unresolved_cycles

  advance_pending_cycles-Drained :
      (legs : Dict Text LegConfig) (n : ℕ) (w : Sieve S)
      → IsTracked w.pending
      → AtLeast n w.pending
      → Drained o n (advance_pending_cycles o legs w)
  unfolding advance_pending_cycles
  advance_pending_cycles-Drained legs n w i h =
      advance_bundles-Drained o legs n w.pending w
        (All-map (λ (p : Text × Bundle). lookup p.0 w.pending ≡ some p.1) _ w.pending
          (λ p e. (i.keyed p.0 p.1 e, h p.0 p.1 e)) (entries_found w.pending i.distinct))
        i λ j b e. inl (found_key j b w.pending e)

  Drained-next :
      (n m : ℕ) (r : Sieve S × Result Text (Unit {0})) (f : Unit {0} → M S (Unit {0}))
      → Drained o n r
      → ((v : Sieve S) → IsTracked v.pending → AtLeast (n + 1) v.pending → Drained o m (f tt v))
      → Drained o m (then_do r f)
  Drained-next n m (v, ok tt) f (i, due) g =
      g v i λ j b e. elim (due j b e) [ inl c ↦ cc | inr a ↦ omega (arith, a.older) ]
  Drained-next n m (v, err x) f h g = h

  nothing_tracked : (w : Sieve S) → Drained o 2 (w, ok tt) → pending_bundle_count w ≡ 0
  nothing_tracked w (i, due) =
      rw
        (empty_dict w.pending λ j. elim (Option-cases (lookup j w.pending)) [
          | inl e ↦ e
          | inr (b, e) ↦ elim (due j b e) [
            | inl c ↦ cc
            | inr a ↦ absurd (omega (arith, a.older, a.below))
          ]
        ])
        refl

  abbrev Tracks : {A : Type 0} → Sieve S × Result Text A → Type 0
  Tracks r = IsTracked r.0.pending

  Tracks-then_do :
      {A B : Type 0} (m : M S A) (f : A → M S B) (w : Sieve S)
      → Keeps m
      → IsTracked w.pending
      → ((a : A) (v : Sieve S) → IsTracked v.pending → Tracks (f a v))
      → Tracks ((m >>= f) w)
  Tracks-then_do {A} m f w h i g = go (m w) (rw (h.keeps w) i)
    where
      go : (r : Sieve S × Result Text A) → Tracks r → Tracks (then_do r f)
      go (v, ok a) j = g a v j
      go (v, err x) j = j

  submitted_key :
      (leg : LegConfig) (orders : List BookOrder) (results : List OrderResult) (before : List Held)
      → bundle_key leg.strategy_id leg.symbol
        ≡ key_of (bundle_from_submission leg orders results before)
  unfolding bundle_key bundle_from_submission
  submitted_key leg orders results before = rw (upper-upper leg.symbol) refl

  settle_bundle-Tracks :
      (k : Text) (b : Bundle) (positions : List Held) (w : Sieve S)
      → k ≡ key_of b
      → IsTracked w.pending
      → Tracks ((settle_bundle k b >>= λ tracked. pure positions) w)
  settle_bundle-Tracks k b positions w e i = elim (Bool-cases (needs_tracking b)) [
    | inl h ↦ rw h (IsTracked-insert k b w.pending e i)
    | inr h ↦ rw h (IsTracked-erase k w.pending i)
  ]

  if-Tracks :
      {A : Type 0} (b : Bool) (m n : M S A) (w : Sieve S)
      → Tracks (m w)
      → Tracks (n w)
      → Tracks ((if b then m else n) w)
  if-Tracks true m n w h k = h
  if-Tracks false m n w h k = k

  run_op-Tracks : (op : Op) (w : Sieve S) → IsTracked w.pending → IsTracked (run_op op w).pending
  unfolding reconcile_post_submit register_ioc_residual
  run_op-Tracks (submits leg orders [] before) w i = i
  run_op-Tracks (submits leg orders (r ∷ rs) before) w i =
      Tracks-then_do _ _ w (ask-Keeps (o.short_burst_refresh orders (r ∷ rs))) i λ refreshed v j.
        Tracks-then_do _ _ v (apply_broker_authority-Keeps o leg orders refreshed before) j
          λ positions u k.
            settle_bundle-Tracks _ _ positions u (submitted_key leg orders refreshed before) k
  run_op-Tracks (residuals leg orders [] before residual) w i = i
  run_op-Tracks (residuals leg orders (r ∷ rs) before residual) w i =
      if-Tracks (leb_ℤ residual (pos 0)) _ _ w i (
        Tracks-then_do _ _ w (ask-Keeps (o.short_burst_refresh orders (r ∷ rs))) i λ refreshed v j.
          Tracks-then_do _ _ v (apply_broker_authority-Keeps o leg orders refreshed before) j
            λ positions u k.
              IsTracked-insert _ _ u.pending (submitted_key leg orders refreshed before) k)
  run_op-Tracks (cycles legs) w i =
      drained_tracks (advance_pending_cycles o legs w)
        (advance_pending_cycles-Drained legs 0 w i (λ j b e. omega arith))
    where
      drained_tracks : (r : Sieve S × Result Text (Unit {0})) → Drained o 0 r → Tracks r
      drained_tracks (v, ok a) h = h.0
      drained_tracks (v, err x) h = h

  run_ops-Tracks :
      (ops : List Op) (w : Sieve S) → IsTracked w.pending → IsTracked (run_ops ops w).pending
  unfolding run_ops
  run_ops-Tracks [] w i = i
  run_ops-Tracks (op ∷ ops) w i = run_ops-Tracks ops (run_op op w) (run_op-Tracks op w i)

  -- After any submissions, residuals and cycles, also such that raised in between, three cycles that return leave
  -- no bundle tracked, whatever the broker answers and whichever legs are there: an order that
  -- never fills is given up.
  pub pending_drains :
      (ops : List Op) (s : S) (first second third : Dict Text LegConfig) (w : Sieve S)
      → three_cycles first second third (run_ops ops (new_sieve s)) ≡ (w, ok tt)
      → pending_bundle_count w ≡ 0
  pending_drains ops s first second third w e =
      let start = run_ops ops (new_sieve s) in
      let ended : Drained o 2 (three_cycles first second third start) =
        Drained-next 0 2 _ _
          (advance_pending_cycles-Drained first 0 start
            (run_ops-Tracks ops (new_sieve s) IsTracked-nil) (λ j b e. omega arith))
          λ v i h.
            Drained-next 1 2 _ _ (advance_pending_cycles-Drained second 1 v i h)
              λ u j k. advance_pending_cycles-Drained third 2 u j k in
      nothing_tracked w (rw e at ended)

-- ===== src/Execution/BootReconciliation/Agreement.antt =====
-- When the boot is clean, and what it does when it is not.
use systematic_trading_valid.Common.{
  Bool-cases, List, Option, [], arith, beq_refl, contains, false, if◌then◌else◌, inl, inr, ltb,
  nat_eq, none, not, pair_eq, refl, some, sym, true, ℕ, ◌&&◌, ◌++◌, ◌==◌, ◌||◌, ◌↔◌, ◌∙◌, ◌∷◌, ◌≡◌,
  ◌≤◌,
}
use systematic_trading_valid.Common.Int.{abs_ℤ, int_laws, pos, ℤ, ◌-ℤ◌}
use systematic_trading_valid.Common.Text.{Text, text_beq_iff, text_eq}
use systematic_trading_valid.Common.Dict.{Dict, has_key, lookup}
use systematic_trading_valid.Execution.BootReconciliation.{
  Mismatch, add_some, all_mismatches, get_qty, is_empty, keys, or_none, orphan_open_order, orphans,
  position_mismatches, reconcile_boot, symbol_mismatch, upper_keys,
}
use systematic_trading_valid.Engine.Escalation.{Snapshot, blocks_all_entries, level_eq, transition}

-- The two quantities of a symbol agree: both are below the tolerance or neither is, and they differ by no
-- more than it.
pub record AgreeWithin (tol : ℕ) (i b : ℤ) : Type 0 where
  pub same_side : ltb (abs_ℤ i) tol ≡ ltb (abs_ℤ b) tol
  pub near : abs_ℤ (i -ℤ b) ≤ tol

agree_of_none :
    (tol : ℕ) (s : Text) (i b : ℤ) → symbol_mismatch tol s i b ≡ none → AgreeWithin tol i b
unfolding symbol_mismatch
agree_of_none tol s i b h = record { same_side = ground (arith, h); near = ground (arith, h) }

none_of_agree :
    (tol : ℕ) (s : Text) (i b : ℤ) → AgreeWithin tol i b → symbol_mismatch tol s i b ≡ none
unfolding symbol_mismatch
none_of_agree tol s i b a = ground (arith, a.same_side, a.near)

add_some-none :
    (o : Option Mismatch) (ms : List Mismatch)
    → is_empty (add_some o ms) ≡ true
    → (o ≡ none) × (is_empty ms ≡ true)
add_some-none none ms h = (refl, h)
add_some-none (some m) ms h = cc

is_empty-append : (ms ns : List Mismatch) → is_empty (ms ++ ns) ≡ is_empty ms && is_empty ns
is_empty-append [] ns = refl
is_empty-append (m ∷ ms) ns = refl

contains-append :
    (s : Text) (xs ys : List Text) → contains s (xs ++ ys) ≡ contains s xs || contains s ys
contains-append s [] ys = refl
contains-append s (x ∷ xs) ys = ground (arith, contains-append s xs ys)

contains-keys : (s : Text) (d : Dict Text ℤ) → contains s (keys d) ≡ has_key s d
unfolding lookup
contains-keys s [] = refl
contains-keys s ((k, q) ∷ d) = ground (arith, contains-keys s d)

missing-zero : (s : Text) (d : Dict Text ℤ) → has_key s d ≡ false → get_qty s d ≡ pos 0
missing-zero s d h = ground arith

module _ (tol : ℕ) (i b : Dict Text ℤ) where
  abbrev AgreeAt : Text → Type 0
  AgreeAt s = AgreeWithin tol (get_qty s i) (get_qty s b)

  listed-AgreeAt :
      (ss : List Text) (s : Text)
      → is_empty (position_mismatches tol i b ss) ≡ true
      → contains s ss ≡ true
      → AgreeAt s
  listed-AgreeAt [] s h c = cc
  listed-AgreeAt (x ∷ ss) s h c =
      let e = add_some-none _ _ h in
      elim (Bool-cases (x == s)) [
        | inl same ↦ same-AgreeAt x s ((text_beq_iff x s).0 same) (agree_of_none tol x _ _ e.0)
        | inr other ↦ listed-AgreeAt ss s e.1 (ground (arith, c, other))
      ]
    where
      same-AgreeAt : (x s : Text) → x ≡ s → AgreeAt x → AgreeAt s
      same-AgreeAt x s p a = rw (sym p) a

  unlisted-AgreeAt : (s : Text) → contains s (keys i ++ keys b) ≡ false → AgreeAt s
  unlisted-AgreeAt s h =
      zero-AgreeAt
        (missing-zero s i
          (ground (arith, h, contains-append s (keys i) (keys b), contains-keys s i)))
        (missing-zero s b
          (ground (arith, h, contains-append s (keys i) (keys b), contains-keys s b)))
    where
      zero-AgreeAt : get_qty s i ≡ pos 0 → get_qty s b ≡ pos 0 → AgreeAt s
      zero-AgreeAt p q = rw (p, q) (record { same_side = refl; near = grind int_laws })

  agreed-none :
      (ss : List Text) → ((s : Text) → AgreeAt s) → is_empty (position_mismatches tol i b ss) ≡ true
  agreed-none [] h = refl
  agreed-none (s ∷ ss) h = rw (none_of_agree tol s _ _ (h s)) (agreed-none ss h)

orphan-false :
    (known : List Text) (x : Text) (ms : List Mismatch)
    → contains x known ≡ false
    → is_empty (if contains x known then ms else orphan_open_order x ∷ ms) ≡ false
orphan-false known x ms h = simp h refl

orphans-none :
    (known ids : List Text) (c : Text)
    → is_empty (orphans known ids) ≡ true
    → contains c ids ≡ true
    → contains c known ≡ true
orphans-none known [] c h k = cc
orphans-none known (x ∷ ids) c h k = elim (Bool-cases (contains x known)) [
  | inl e ↦ elim (Bool-cases (x == c)) [
    | inl same ↦ as_known x c ((text_beq_iff x c).0 same) e
    | inr other ↦ orphans-none known ids c (ground (arith, h, e)) (ground (arith, k, other))
  ]
  | inr e ↦ cc (orphan-false known x (orphans known ids) e, h)
]
  where
    as_known : (x c : Text) → x ≡ c → contains x known ≡ true → contains c known ≡ true
    as_known x c p a = rw (sym p) a

known-none :
    (known ids : List Text)
    → ((c : Text) → contains c ids ≡ true → contains c known ≡ true)
    → is_empty (orphans known ids) ≡ true
known-none known [] h = refl
known-none known (x ∷ ids) h =
    simp (h x (simp (beq_refl x) refl)) (known-none known ids (λ c k. h c (ground (arith, k))))

module _ (tol : ℕ) (internal broker : Dict Text ℤ)
    (internal_open broker_open : Option (List Text)) where
  -- What a clean boot means.
  pub record IsReconciled : Type 0 where
    pub positions :
        (s : Text)
        → AgreeWithin tol (get_qty s (upper_keys internal [])) (get_qty s (upper_keys broker []))
    pub orders :
        (c : Text)
        → contains c (or_none broker_open) ≡ true
        → contains c (or_none internal_open) ≡ true

  abbrev all : List Mismatch
  all = all_mismatches tol internal broker internal_open broker_open

  none→IsReconciled : is_empty all ≡ true → IsReconciled
  none→IsReconciled h =
      let i = upper_keys internal [] in
      let b = upper_keys broker [] in
      let ps = position_mismatches tol i b (keys i ++ keys b) in
      let os = orphans (or_none internal_open) (or_none broker_open) in
      record {
        positions = λ s. elim (Bool-cases (contains s (keys i ++ keys b))) [
          | inl c ↦ listed-AgreeAt tol i b _ s (ground (arith, h, is_empty-append ps os)) c
          | inr c ↦ unlisted-AgreeAt tol i b s c
        ];
        orders = λ c k. orphans-none _ _ c (ground (arith, h, is_empty-append ps os)) k;
      }

  IsReconciled→none : IsReconciled → is_empty all ≡ true
  IsReconciled→none r =
      let i = upper_keys internal [] in
      let b = upper_keys broker [] in
      is_empty-append (position_mismatches tol i b (keys i ++ keys b)) _
      ∙ ground (
        arith,
        agreed-none tol i b (keys i ++ keys b) r.positions,
        known-none (or_none internal_open) (or_none broker_open) r.orders,
      )

  tripped_iff :
      (s : Snapshot)
      → (reconcile_boot tol internal broker internal_open broker_open s).0.tripped
        ≡ not (is_empty all)
  unfolding reconcile_boot
  tripped_iff s = ground arith

  -- The reconciliation trips exactly if some symbol, with its names in upper case, has quantities that do
  -- not agree within the tolerance, or some open order of the broker is not known.
  pub clean_iff_reconciled :
      (s : Snapshot)
      → ((reconcile_boot tol internal broker internal_open broker_open s).0.tripped ≡ false)
        ↔ IsReconciled
  clean_iff_reconciled s = (
    λ h. none→IsReconciled (ground (arith, h, tripped_iff s)),
    λ r. tripped_iff s ∙ rw (IsReconciled→none r) refl,
  )

  -- A boot that trips blocks all entries, is reported, and keeps a shutdown latch as it was.
  pub mismatch_blocks_entries :
      (s : Snapshot)
      → (reconcile_boot tol internal broker internal_open broker_open s).0.tripped ≡ true
      → (let r = reconcile_boot tol internal broker internal_open broker_open s in
          (blocks_all_entries r.1 ≡ true)
          × (r.2 ≡ true)
          × (r.1.engine_shutdown_latched ≡ s.engine_shutdown_latched))
  unfolding reconcile_boot transition blocks_all_entries
  mismatch_blocks_entries s h = elim (Bool-cases (is_empty all)) [
    | inl e ↦ cc (h, e)
    | inr e ↦ simp e (refl, refl, refl)
  ]

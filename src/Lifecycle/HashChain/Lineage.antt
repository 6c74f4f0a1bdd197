-- ===== src/Lifecycle/HashChain/Lineage.antt =====
-- Which sequences of promotions and refits leave a chain that verifies.
use mathlib.Core.List.{append-nil}
use systematic_trading_valid.Common.{
  Bool, Bool-cases, List, Option, [], ap, arith, beq_refl, false, if◌then◌else◌, inl, inr, is_some,
  keep_if, keep_if-append, ltb, nat_beq_iff, nat_eq, none, not, pair_eq, refl, some, sym, true, ℕ,
  ◌&&◌, ◌++◌, ◌==◌, ◌∙◌, ◌∷◌, ◌≡◌,
}
use systematic_trading_valid.Common.Text.{text_eq}
use systematic_trading_valid.Lifecycle.HashChain.{
  Entry, append_chain_entry, last_entry, leaf_of, or_entry, parent_is, promote_genesis, read_chain,
  read_latest_leaf, record_refit, verify_after, verify_chain, verify_entries,
}

-- What may follow the last entry of a chain.
abbrev pub fits : Option Entry → Entry → Bool
fits none e = not (is_some e.parent_hash)
fits (some l) e = parent_is l.leaf_hash e.parent_hash && ltb l.epoch e.epoch

last_or : Entry → List Entry → Entry
last_or p [] = p
last_or p (e ∷ es) = last_or e es

last_entry-cons : (p : Entry) (es : List Entry) → last_entry (p ∷ es) ≡ some (last_or p es)
unfolding last_or
last_entry-cons p [] = refl
last_entry-cons p (e ∷ es) = ap (or_entry p) (last_entry-cons e es)

verify_after-append :
    (p e : Entry) (es : List Entry)
    → verify_after p (es ++ (e ∷ [])) ≡ verify_after p es && fits (some (last_or p es)) e
unfolding last_or
verify_after-append p e [] = ground arith
verify_after-append p e (x ∷ es) = ground (arith, verify_after-append x e es)

verify-append :
    (es : List Entry) (e : Entry)
    → verify_entries (es ++ (e ∷ [])) ≡ verify_entries es && fits (last_entry es) e
verify-append [] e = ground arith
verify-append (p ∷ es) e =
    first_and_rest (is_some p.parent_hash) _ _ _ (verify_after-append p e es)
    ∙ ap (λ o. verify_entries (p ∷ es) && fits o e) (sym (last_entry-cons p es))
  where
    first_and_rest :
        (b x y z : Bool) → x ≡ y && z → (if b then false else x) ≡ (if b then false else y) && z
    first_and_rest true x y z h = refl
    first_and_rest false x y z h = h

pub last_entry-append : (es : List Entry) (e : Entry) → last_entry (es ++ (e ∷ [])) ≡ some e
last_entry-append [] e = refl
last_entry-append (p ∷ es) e = ap (or_entry p) (last_entry-append es e)

-- The chain of a leg after an entry of its own, and after one of another leg.
pub chain_own :
    (leg : ℕ) (t : List Entry) (e : Entry)
    → (e.leg_id == leg) ≡ true
    → read_chain leg (append_chain_entry t e) ≡ read_chain leg t ++ (e ∷ [])
unfolding read_chain append_chain_entry
chain_own leg t e h = keep_if-append _ t (e ∷ []) ∙ simp h refl

pub chain_other :
    (leg : ℕ) (t : List Entry) (e : Entry)
    → (e.leg_id == leg) ≡ false
    → read_chain leg (append_chain_entry t e) ≡ read_chain leg t
unfolding read_chain append_chain_entry
chain_other leg t e h = keep_if-append _ t (e ∷ []) ∙ simp h (append-nil (keep_if _ t))

abbrev pub last_of : ℕ → List Entry → Option Entry
last_of leg t = last_entry (read_chain leg t)

abbrev pub epoch_of : Option Entry → Option ℕ
epoch_of none = none
epoch_of (some e) = some e.epoch

-- A promotion or a refit of a leg, with its configuration and epoch.
pub data Call (Config : Type 0) : Type 0 where
  promote refit : ℕ → Config → ℕ → Call Config

abbrev pub is_later : Option ℕ → ℕ → Bool
is_later none epoch = true
is_later (some last) epoch = ltb last epoch

-- Of one leg's calls: a promotion comes first if at all, and the epochs increase.
abbrev pub lawful : {Config : Type 0} → ℕ → Option ℕ → List (Call Config) → Bool
lawful leg last [] = true
lawful leg last (promote l c epoch ∷ cs) =
    let own = lawful leg (some epoch) cs in
    let other = lawful leg last cs in if l == leg then not (is_some last) && own else other
lawful leg last (refit l c epoch ∷ cs) =
    let own = lawful leg (some epoch) cs in
    let other = lawful leg last cs in if l == leg then is_later last epoch && own else other

and_assoc : (a b c : Bool) → (a && b) && c ≡ a && (b && c)
and_assoc a b c = ground arith

module _ {Config : Type 0} (canonical_config_hash : Config → ℕ) where
  abbrev pub act : List Entry → Call Config → List Entry
  act t (promote leg c epoch) = promote_genesis canonical_config_hash t leg c epoch
  act t (refit leg c epoch) = record_refit canonical_config_hash t leg c epoch

  abbrev pub run : List Entry → List (Call Config) → List Entry
  run t [] = t
  run t (c ∷ cs) = run (act t c) cs

  own_step :
      (leg : ℕ) (t : List Entry) (e : Entry) (b : Bool) (rest : Option ℕ → Bool)
      → (e.leg_id == leg) ≡ true
      → fits (last_of leg t) e ≡ b
      → verify_chain leg (append_chain_entry t e)
          && rest (epoch_of (last_of leg (append_chain_entry t e)))
        ≡ verify_chain leg t && (b && rest (some e.epoch))
  unfolding verify_chain
  own_step leg t e b rest h f =
      rw
        (
          chain_own leg t e h,
          verify-append (read_chain leg t) e,
          last_entry-append (read_chain leg t) e,
          f,
        )
        (and_assoc (verify_entries (read_chain leg t)) b (rest (some e.epoch)))

  other_step :
      (leg : ℕ) (t : List Entry) (e : Entry) (rest : Option ℕ → Bool)
      → (e.leg_id == leg) ≡ false
      → verify_chain leg (append_chain_entry t e)
          && rest (epoch_of (last_of leg (append_chain_entry t e)))
        ≡ verify_chain leg t && rest (epoch_of (last_of leg t))
  unfolding verify_chain
  other_step leg t e rest h = rw (chain_other leg t e h) refl

  abbrev pub entry : ℕ → ℕ → Option ℕ → Config → Entry
  entry leg epoch parent c = record {
    leg_id = leg;
    epoch = epoch;
    parent_hash = parent;
    leaf_hash = canonical_config_hash c;
  }

  fits_promotion :
      (o : Option Entry) (leg epoch : ℕ) (c : Config)
      → fits o (entry leg epoch none c) ≡ not (is_some (epoch_of o))
  fits_promotion none leg epoch c = refl
  fits_promotion (some l) leg epoch c = refl

  fits_refit :
      (o : Option Entry) (leg epoch : ℕ) (c : Config)
      → fits o (entry leg epoch (leaf_of o) c) ≡ is_later (epoch_of o) epoch
  fits_refit none leg epoch c = refl
  fits_refit (some l) leg epoch c = ground (arith, beq_refl l.leaf_hash)

  verify-run :
      (leg : ℕ) (t : List Entry) (cs : List (Call Config))
      → verify_chain leg (run t cs) ≡ verify_chain leg t && lawful leg (epoch_of (last_of leg t)) cs
  unfolding promote_genesis record_refit read_latest_leaf
  verify-run leg t [] = ground arith
  verify-run leg t (promote l c epoch ∷ cs) =
      let e = entry l epoch none c in
      verify-run leg (append_chain_entry t e) cs ∙ elim (Bool-cases (l == leg)) [
        | inl own ↦ simp own (
            own_step leg t e _ (λ o. lawful leg o cs) own
              (fits_promotion (last_of leg t) l epoch c))
        | inr other ↦ simp other (other_step leg t e (λ o. lawful leg o cs) other)
      ]
  verify-run leg t (refit l c epoch ∷ cs) =
      let e = entry l epoch (leaf_of (last_of l t)) c in
      verify-run leg (append_chain_entry t e) cs ∙ elim (Bool-cases (l == leg)) [
        | inl own ↦ simp own (
            own_step leg t e _ (λ o. lawful leg o cs) own
              (ap (λ k. fits (last_of leg t) (entry l epoch (leaf_of (last_of k t)) c))
                  ((nat_beq_iff l leg).0 own)
                ∙ fits_refit (last_of leg t) l epoch c))
        | inr other ↦ simp other (other_step leg t e (λ o. lawful leg o cs) other)
      ]

  -- A chain that starts empty verifies exactly if, of the calls for its leg, only the first may be a
  -- promotion and every later one has a larger epoch; the calls for other legs do not matter.
  pub chain_verifies_iff :
      (leg : ℕ) (cs : List (Call Config)) → verify_chain leg (run [] cs) ≡ lawful leg none cs
  unfolding verify_chain read_chain
  chain_verifies_iff leg cs = verify-run leg [] cs

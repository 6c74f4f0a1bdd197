-- ===== src/Lifecycle/HashChain/Tampering.antt =====
-- Which running configurations are out of band.
use systematic_trading_valid.Common.{
  Bool, Bool-cases, List, Option, [], ap, false, if◌then◌else◌, inl, inr, nat_eq, none, not,
  pair_eq, refl, some, true, ℕ, ◌==◌, ◌||◌, ◌∙◌, ◌∷◌, ◌≡◌,
}
use systematic_trading_valid.Common.Text.{Text, text_eq}
use systematic_trading_valid.Lifecycle.HashChain.{
  Entry, append_chain_entry, detect_out_of_band_change, is_latest, last_entry, leaf_of,
  promote_genesis, read_chain, read_latest_leaf, record_refit,
}
use systematic_trading_valid.Lifecycle.HashChain.Lineage.{
  Call, chain_other, chain_own, entry, last_entry-append, promote, refit, run,
}
use systematic_trading_valid.Engine.Escalation.{Snapshot, blocks_all_entries, level_eq, transition}

module _ {Config : Type 0} (canonical_config_hash : Config → ℕ) where
  -- The configuration of the leg's last promotion or refit.
  abbrev pub last_config : ℕ → Option Config → List (Call Config) → Option Config
  last_config leg o [] = o
  last_config leg o (promote l c epoch ∷ cs) =
      let own = last_config leg (some c) cs in
      let other = last_config leg o cs in if l == leg then own else other
  last_config leg o (refit l c epoch ∷ cs) =
      let own = last_config leg (some c) cs in
      let other = last_config leg o cs in if l == leg then own else other

  abbrev pub hash_of : Option Config → Option ℕ
  hash_of none = none
  hash_of (some c) = some (canonical_config_hash c)

  appended_leaf :
      (leg l epoch : ℕ) (parent : Option ℕ) (c : Config) (t : List Entry)
      → read_latest_leaf leg (append_chain_entry t (entry canonical_config_hash l epoch parent c))
        ≡ (if l == leg then some (canonical_config_hash c) else read_latest_leaf leg t)
  unfolding read_latest_leaf
  appended_leaf leg l epoch parent c t = elim (Bool-cases (l == leg)) [
    | inl own ↦ simp own (
        ap (λ es. leaf_of (last_entry es))
          (chain_own leg t (entry canonical_config_hash l epoch parent c) own)
        ∙ ap leaf_of
            (last_entry-append (read_chain leg t) (entry canonical_config_hash l epoch parent c)))
    | inr other ↦ simp other (
        ap (λ es. leaf_of (last_entry es))
          (chain_other leg t (entry canonical_config_hash l epoch parent c) other))
  ]

  choose :
      (leg : ℕ) (o : Option Config) (l epoch : ℕ) (parent : Option ℕ) (c : Config) (t : List Entry)
      → read_latest_leaf leg t ≡ hash_of o
      → read_latest_leaf leg (append_chain_entry t (entry canonical_config_hash l epoch parent c))
        ≡ hash_of (if l == leg then some c else o)
  choose leg o l epoch parent c t h = elim (Bool-cases (l == leg)) [
    | inl own ↦ simp own (appended_leaf leg l epoch parent c t ∙ simp own refl)
    | inr other ↦ simp other (appended_leaf leg l epoch parent c t ∙ simp other h)
  ]

  -- The last configuration, passed on to the later calls.
  passed_on :
      (b : Bool) (leg : ℕ) (o : Option Config) (c : Config) (cs : List (Call Config))
      → last_config leg (if b then some c else o) cs
        ≡ (if b then last_config leg (some c) cs else last_config leg o cs)
  passed_on true leg o c cs = refl
  passed_on false leg o c cs = refl

  leaf-run :
      (leg : ℕ) (t : List Entry) (o : Option Config) (cs : List (Call Config))
      → read_latest_leaf leg t ≡ hash_of o
      → read_latest_leaf leg (run canonical_config_hash t cs) ≡ hash_of (last_config leg o cs)
  unfolding promote_genesis record_refit
  leaf-run leg t o [] h = h
  leaf-run leg t o (promote l c epoch ∷ cs) h =
      leaf-run leg (append_chain_entry t (entry canonical_config_hash l epoch none c))
        (if l == leg then some c else o) cs (choose leg o l epoch none c t h)
      ∙ ap hash_of (passed_on (l == leg) leg o c cs)
  leaf-run leg t o (refit l c epoch ∷ cs) h =
      leaf-run leg
        (append_chain_entry t (entry canonical_config_hash l epoch (read_latest_leaf l t) c))
        (if l == leg then some c else o) cs (choose leg o l epoch (read_latest_leaf l t) c t h)
      ∙ ap hash_of (passed_on (l == leg) leg o c cs)

  record Detects (leg : ℕ) (name : Text) (c : Config) (t : List Entry) (s : Snapshot) : Type 0 where
    reports :
        (detect_out_of_band_change canonical_config_hash leg name c t s).1
        ≡ not (is_latest (canonical_config_hash c) (read_latest_leaf leg t))
    blocks :
        blocks_all_entries (detect_out_of_band_change canonical_config_hash leg name c t s).0
        ≡ (detect_out_of_band_change canonical_config_hash leg name c t s).1 || blocks_all_entries s

  detect-Detects :
      (leg : ℕ) (name : Text) (c : Config) (t : List Entry) (s : Snapshot) → Detects leg name c t s
  unfolding detect_out_of_band_change transition blocks_all_entries
  detect-Detects leg name c t s =
      elim (Bool-cases (is_latest (canonical_config_hash c) (read_latest_leaf leg t))) [
        | inl e ↦ record { reports = simp e refl; blocks = simp e refl }
        | inr e ↦ record { reports = simp e refl; blocks = simp e refl }
      ]

  -- A change is reported exactly if the running configuration does not hash to that of the leg's last
  -- promotion or refit (or there is none), and a report blocks the entries of every strategy.
  pub out_of_band_exact :
      (leg : ℕ) (name : Text) (c : Config) (cs : List (Call Config)) (s : Snapshot)
      → (let t = run canonical_config_hash [] cs in
          let r = detect_out_of_band_change canonical_config_hash leg name c t s in
          (r.1 ≡ not (is_latest (canonical_config_hash c) (hash_of (last_config leg none cs))))
          × (blocks_all_entries r.0 ≡ r.1 || blocks_all_entries s))
  unfolding read_latest_leaf read_chain
  out_of_band_exact leg name c cs s =
      let d = detect-Detects leg name c (run canonical_config_hash [] cs) s in
      (
        d.reports
            ∙ ap (λ o. not (is_latest (canonical_config_hash c) o)) (leaf-run leg [] none cs refl),
        d.blocks,
      )

-- ===== src/Lifecycle/HashChain.antt =====
-- src/lifecycle/hash_chain.py and src/persistence/hash_chain_store.py. Legs, hashes and epochs are
-- numbers; the canonical hash of a configuration is a parameter. The table is a list in the order of its
-- ids, oldest first; the evidence reference and the creation time of a row are left out.
pub mod Lineage
pub mod Tampering
mod Examples
use systematic_trading_valid.Common.{
  Bool, List, Option, [], false, if◌then◌else◌, is_some, keep_if, leb, nat_eq, none, not, pair_eq,
  some, true, ℕ, ◌++◌, ◌==◌, ◌∷◌,
}
use systematic_trading_valid.Common.Text.{Text, text, text_eq}
use systematic_trading_valid.Engine.Escalation.{Snapshot, entry_gate_halt, level_eq, transition}

-- A row of `config_hash_chain`.
pub record Entry : Type 0 where
  pub leg_id : ℕ
  pub epoch : ℕ
  pub parent_hash : Option ℕ
  pub leaf_hash : ℕ

-- `persist_chain_entries`, which only appends
unfoldable pub append_chain_entry : List Entry → Entry → List Entry
append_chain_entry t e = t ++ (e ∷ [])

unfoldable pub read_chain : ℕ → List Entry → List Entry
read_chain leg t = keep_if (λ e. e.leg_id == leg) t

abbrev pub or_entry : Entry → Option Entry → Option Entry
or_entry e none = some e
or_entry e (some l) = some l

abbrev pub last_entry : List Entry → Option Entry
last_entry [] = none
last_entry (e ∷ es) = or_entry e (last_entry es)

abbrev pub leaf_of : Option Entry → Option ℕ
leaf_of none = none
leaf_of (some e) = some e.leaf_hash

unfoldable pub read_latest_leaf : ℕ → List Entry → Option ℕ
read_latest_leaf leg t = leaf_of (last_entry (read_chain leg t))

-- `entry["parent_hash"] != prev_leaf`
abbrev pub parent_is : ℕ → Option ℕ → Bool
parent_is leaf none = false
parent_is leaf (some p) = p == leaf

-- The loop of `verify_chain` after an entry
abbrev pub verify_after : Entry → List Entry → Bool
verify_after prev [] = true
verify_after prev (e ∷ es) =
    let rest = verify_after e es in
    if not (parent_is prev.leaf_hash e.parent_hash)
    then false
    else if leb e.epoch prev.epoch
    then false
    else rest

abbrev pub verify_entries : List Entry → Bool
verify_entries [] = true
verify_entries (e ∷ es) =
    let rest = verify_after e es in if is_some e.parent_hash then false else rest

unfoldable pub verify_chain : ℕ → List Entry → Bool
verify_chain leg t = verify_entries (read_chain leg t)

-- `latest is not None and running_hash == latest`
abbrev pub is_latest : ℕ → Option ℕ → Bool
is_latest hash none = false
is_latest hash (some l) = hash == l

module _ {Config : Type 0} (canonical_config_hash : Config → ℕ) where
  -- `RefitRunner.promote_genesis`
  unfoldable pub promote_genesis : List Entry → ℕ → Config → ℕ → List Entry
  promote_genesis t leg config epoch = append_chain_entry t (record {
    leg_id = leg;
    epoch = epoch;
    parent_hash = none;
    leaf_hash = canonical_config_hash config;
  })

  -- `RefitRunner.record_refit`
  unfoldable pub record_refit : List Entry → ℕ → Config → ℕ → List Entry
  record_refit t leg config epoch = append_chain_entry t (record {
    leg_id = leg;
    epoch = epoch;
    parent_hash = read_latest_leaf leg t;
    leaf_hash = canonical_config_hash config;
  })

  -- `detect_out_of_band_change`: the escalation after it, and whether it reports a change
  unfoldable pub detect_out_of_band_change :
      ℕ → Text → Config → List Entry → Snapshot → Snapshot × Bool
  detect_out_of_band_change leg leg_name config t s =
      if is_latest (canonical_config_hash config) (read_latest_leaf leg t) then (s, false) else (
        transition s (record {
          new_level = entry_gate_halt;
          scope = text "GLOBAL";
          strategy = some leg_name;
          symbol = none;
          by = text "config_chain_out_of_band";
        }),
        true,
      )

-- ===== src/Lifecycle/HashChain/Examples.antt =====
-- A leg with two refits, and an edit by hand. A configuration is its own hash here.
use systematic_trading_valid.Common.{
  List, [], false, nat_eq, none, pair_eq, refl, true, ℕ, ◌++◌, ◌+◌, ◌∷◌, ◌≡◌,
}
use systematic_trading_valid.Common.Text.{text_eq}
use systematic_trading_valid.Lifecycle.HashChain.{
  append_chain_entry, promote_genesis, read_chain, read_latest_leaf, record_refit, verify_chain,
}
use systematic_trading_valid.Lifecycle.HashChain.Lineage.{
  Call, chain_verifies_iff, lawful, promote, refit, run,
}
use systematic_trading_valid.Engine.Escalation.{level_eq}

abbrev hash : ℕ → ℕ
hash c = c + 1000

abbrev calls : List (Call ℕ)
calls = promote 1 7 0 ∷ promote 2 5 0 ∷ refit 1 8 1 ∷ refit 1 9 4 ∷ []

calls_verify : verify_chain 1 (run hash [] calls) ≡ true
unfolding verify_chain read_chain promote_genesis record_refit append_chain_entry read_latest_leaf
calls_verify = refl

-- A second promotion breaks the chain.
second_promotion : verify_chain 2 (run hash [] (calls ++ (promote 2 6 9 ∷ []))) ≡ false
unfolding verify_chain read_chain promote_genesis record_refit append_chain_entry read_latest_leaf
second_promotion = refl

chain_verifies_iff_example : verify_chain 1 (run hash [] calls) ≡ lawful 1 none calls
chain_verifies_iff_example = chain_verifies_iff hash 1 calls

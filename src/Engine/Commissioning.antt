-- ===== src/Engine/Commissioning.antt =====
-- src/engine/commissioning_gate.py: which legs are loaded at boot. Strategy ids are numbers, whose order
-- stands for that of the ids; the rest of a configuration is a number.
pub mod Loads
mod Examples
use systematic_trading_valid.Common.{
  Bool, List, Option, [], contains, false, if◌then◌else◌, ltb, map, nat_eq, none, pair_eq, some,
  true, ℕ, ◌&&◌, ◌==◌, ◌∷◌,
}
use systematic_trading_valid.Common.Text.{Text, text, text_eq}
use systematic_trading_valid.Common.Dict.{Dict, insert, lookup}

pub record StrategyConfig : Type 0 where
  pub strategy_id : ℕ
  pub enabled : Bool
  pub params : ℕ

pub record SoakConfig : Type 0 where
  pub enabled : Bool
  pub commissioning_legs : List ℕ

pub data Source : Type 0 where
  commissioning_gate supabase_enablement local_default fail_closed : Source

pub record LegLoadDecision : Type 0 where
  pub strategy_id : ℕ
  pub loaded : Bool
  pub source : Source
  pub commissioning : Bool
  pub config : Option StrategyConfig

-- `{s.strategy_id: s for s in strategies}`
abbrev pub by_id : List StrategyConfig → Dict ℕ StrategyConfig → Dict ℕ StrategyConfig
by_id [] d = d
by_id (s ∷ ss) d = by_id ss (insert s.strategy_id s d)

-- A sorted set of ids
abbrev pub add_id : ℕ → List ℕ → List ℕ
add_id x [] = x ∷ []
add_id x (y ∷ ys) =
    let rest = add_id x ys in if x == y then y ∷ ys else if ltb x y then x ∷ y ∷ ys else y ∷ rest

abbrev pub add_keys : Dict ℕ StrategyConfig → List ℕ → List ℕ
add_keys [] ids = ids
add_keys ((k, s) ∷ d) ids = add_id k (add_keys d ids)

abbrev pub no_load : ℕ → Source → LegLoadDecision
no_load id source = record {
  strategy_id = id;
  loaded = false;
  source = source;
  commissioning = false;
  config = none;
}

abbrev pub commissioned : ℕ → StrategyConfig → LegLoadDecision
commissioned id s = record {
  strategy_id = id;
  loaded = true;
  source = commissioning_gate;
  commissioning = true;
  config = some s;
}

-- The legacy enablement outside the soak
abbrev pub enabled_by : ℕ → Source → Option StrategyConfig → LegLoadDecision
enabled_by id source none = no_load id source
enabled_by id source (some s) = record {
  strategy_id = id;
  loaded = s.enabled;
  source = source;
  commissioning = false;
  config = if s.enabled then some s else none;
}

-- The boot's inputs: the environment, the soak, the two dictionaries and the watcher's authority.
pub record Boot : Type 0 where
  pub environment : Text
  pub soak : SoakConfig
  pub local_by_id : Dict ℕ StrategyConfig
  pub watcher_by_id : Dict ℕ StrategyConfig
  pub supabase_authoritative : Bool

abbrev pub is_allowed : Boot → ℕ → Bool
is_allowed b id =
    b.soak.enabled && (b.environment == text "paper") && contains id b.soak.commissioning_legs

-- A leg that the local charter does not have, or that is not on the list
abbrev pub otherwise : Boot → ℕ → LegLoadDecision
otherwise b id =
    if b.soak.enabled
    then no_load id fail_closed
    else enabled_by id (if b.supabase_authoritative then supabase_enablement else local_default)
        (lookup id b.watcher_by_id)

abbrev pub decide_on : Boot → ℕ → Option StrategyConfig → LegLoadDecision
decide_on b id none = otherwise b id
decide_on b id (some s) = if is_allowed b id then commissioned id s else otherwise b id

-- The body of the loop
unfoldable pub decide : Boot → ℕ → LegLoadDecision
decide b id = decide_on b id (lookup id b.local_by_id)

abbrev pub boot_of : Text → SoakConfig → List StrategyConfig → List StrategyConfig → Bool → Boot
boot_of environment soak local_strategies watcher_strategies authoritative = record {
  environment = environment;
  soak = soak;
  local_by_id = by_id local_strategies [];
  watcher_by_id = by_id watcher_strategies [];
  supabase_authoritative = authoritative;
}

abbrev pub known_ids : Boot → List ℕ
known_ids b = add_keys b.local_by_id (add_keys b.watcher_by_id [])

unfoldable pub resolve_active_legs :
    Text → SoakConfig → List StrategyConfig → List StrategyConfig → Bool → List LegLoadDecision
resolve_active_legs environment soak local_strategies watcher_strategies authoritative =
    let b = boot_of environment soak local_strategies watcher_strategies authoritative in
    map (decide b) (known_ids b)

-- ===== src/Engine/Commissioning/Examples.antt =====
-- A soak of two legs, with a watcher that disagrees.
use systematic_trading_valid.Common.{
  Bool, List, [], false, nat_eq, pair_eq, refl, true, ℕ, ◌∷◌, ◌≡◌,
}
use systematic_trading_valid.Common.Text.{text, text_eq}
use systematic_trading_valid.Common.Dict.{insert, lookup}
use systematic_trading_valid.Engine.Commissioning.{
  SoakConfig, StrategyConfig, boot_of, commissioned, decide, fail_closed, no_load,
  resolve_active_legs,
}
use systematic_trading_valid.Engine.Commissioning.Loads.{loaded_config, loads_exactly, wanted}

abbrev leg : ℕ → Bool → ℕ → StrategyConfig
leg id enabled params = record { strategy_id = id; enabled = enabled; params = params }

abbrev soak : SoakConfig
soak = record { enabled = true; commissioning_legs = 1 ∷ 3 ∷ [] }

abbrev local_legs : List StrategyConfig
local_legs = leg 2 true 20 ∷ leg 1 false 10 ∷ []

abbrev watched : List StrategyConfig
watched = leg 1 false 11 ∷ leg 2 true 21 ∷ leg 3 true 31 ∷ []

decisions :
    resolve_active_legs (text "paper") soak local_legs watched true
    ≡ commissioned 1 (leg 1 false 10) ∷ no_load 2 fail_closed ∷ no_load 3 fail_closed ∷ []
unfolding resolve_active_legs decide insert lookup
decisions = refl

loads_exactly_example :
    loaded_config 1 (resolve_active_legs (text "paper") soak local_legs watched true)
    ≡ wanted (boot_of (text "paper") soak local_legs watched true) 1
loads_exactly_example = loads_exactly (text "paper") soak local_legs watched true 1

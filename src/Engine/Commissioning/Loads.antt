-- ===== src/Engine/Commissioning/Loads.antt =====
-- Which configuration of a leg is loaded.
use systematic_trading_valid.Common.{
  Bool, Bool-cases, List, Option, [], ap, arith, contains, false, if◌then◌else◌, inl, inr, is_some,
  map, nat_beq_iff, nat_eq, none, pair_eq, refl, some, sym, true, ℕ, ◌&&◌, ◌==◌, ◌||◌, ◌∙◌, ◌∷◌,
  ◌≡◌,
}
use systematic_trading_valid.Common.Text.{Text, text, text_eq}
use systematic_trading_valid.Common.Dict.{Dict, has_key, lookup}
use systematic_trading_valid.Engine.Commissioning.{
  Boot, LegLoadDecision, SoakConfig, Source, StrategyConfig, add_id, add_keys, boot_of, decide,
  decide_on, enabled_by, is_allowed, known_ids, local_default, otherwise, resolve_active_legs,
  supabase_enablement,
}

-- The configuration that the boot loads for a leg.
abbrev pub loaded_config : ℕ → List LegLoadDecision → Option StrategyConfig
loaded_config id [] = none
loaded_config id (d ∷ ds) =
    let rest = loaded_config id ds in if (d.strategy_id == id) && d.loaded then d.config else rest

-- The one that it should load: in the soak, the local charter's of a leg on the list, in paper trading;
-- outside the soak, the watcher's, if that is enabled.
abbrev pub if_enabled : Option StrategyConfig → Option StrategyConfig
if_enabled none = none
if_enabled (some s) = if s.enabled then some s else none

abbrev pub wanted : Boot → ℕ → Option StrategyConfig
wanted b id =
    if b.soak.enabled
    then (if (b.environment == text "paper") && contains id b.soak.commissioning_legs
        then lookup id b.local_by_id
        else none)
    else if_enabled (lookup id b.watcher_by_id)

abbrev config_if_loaded : LegLoadDecision → Option StrategyConfig
config_if_loaded d = if d.loaded then d.config else none

otherwise-wanted :
    (b : Boot) (id : ℕ) (w : Option StrategyConfig)
    → lookup id b.watcher_by_id ≡ w
    → config_if_loaded (otherwise b id) ≡ (if b.soak.enabled then none else if_enabled w)
otherwise-wanted b id none f = ground (arith, f)
otherwise-wanted b id (some s) f = ground (arith, f)

not_listed :
    (b : Boot) (id : ℕ) (l w : Option StrategyConfig)
    → is_allowed b id ≡ false
    → (if b.soak.enabled then none else w) ≡ (
        if b.soak.enabled
        then (if (b.environment == text "paper") && contains id b.soak.commissioning_legs
            then l
            else none)
        else w)
not_listed b id l w h = ground (arith, h)

decided :
    (b : Boot) (id : ℕ) (l : Option StrategyConfig)
    → config_if_loaded (decide_on b id l) ≡ (
        if b.soak.enabled
        then (if (b.environment == text "paper") && contains id b.soak.commissioning_legs
            then l
            else none)
        else if_enabled (lookup id b.watcher_by_id))
decided b id none = otherwise-wanted b id _ refl ∙ ground arith
decided b id (some s) = elim (Bool-cases (is_allowed b id)) [
  | inl a ↦ ground (arith, a)
  | inr a ↦ simp a (otherwise-wanted b id _ refl ∙ not_listed b id (some s) _ a)
]

decide-wanted : (b : Boot) (id : ℕ) → config_if_loaded (decide b id) ≡ wanted b id
unfolding decide
decide-wanted b id = decided b id (lookup id b.local_by_id)

enabled_by_id :
    (id : ℕ) (source : Source) (w : Option StrategyConfig)
    → (enabled_by id source w).strategy_id ≡ id
enabled_by_id id source none = refl
enabled_by_id id source (some s) = refl

otherwise_id : (b : Boot) (id : ℕ) → (otherwise b id).strategy_id ≡ id
otherwise_id b id =
    let e =
      enabled_by_id id (if b.supabase_authoritative then supabase_enablement else local_default)
        (lookup id b.watcher_by_id) in
    elim (Bool-cases b.soak.enabled) [ inl h ↦ simp h refl | inr h ↦ simp h e ]

decided_id : (b : Boot) (id : ℕ) (l : Option StrategyConfig) → (decide_on b id l).strategy_id ≡ id
decided_id b id none = otherwise_id b id
decided_id b id (some s) = elim (Bool-cases (is_allowed b id)) [
  | inl a ↦ simp a refl
  | inr a ↦ simp a (otherwise_id b id)
]

decide_id : (b : Boot) (id : ℕ) → (decide b id).strategy_id ≡ id
unfolding decide
decide_id b id = decided_id b id (lookup id b.local_by_id)

first_one :
    (d : LegLoadDecision) (id : ℕ) (m : Bool) (rest : Option StrategyConfig)
    → (d.strategy_id == id) ≡ true
    → rest ≡ (if m then config_if_loaded d else none)
    → (if (d.strategy_id == id) && d.loaded then d.config else rest) ≡ config_if_loaded d
first_one d id m rest h e = ground (arith, h, e)

not_this :
    (d : LegLoadDecision) (id : ℕ) (rest : Option StrategyConfig)
    → (d.strategy_id == id) ≡ false
    → (if (d.strategy_id == id) && d.loaded then d.config else rest) ≡ rest
not_this d id rest h = ground (arith, h)

loaded-map :
    (b : Boot) (id : ℕ) (ids : List ℕ)
    → loaded_config id (map (decide b) ids)
      ≡ (if contains id ids then config_if_loaded (decide b id) else none)
loaded-map b id [] = refl
loaded-map b id (x ∷ ids) =
    let tested = ap (λ y. y == id) (decide_id b x) in
    elim (Bool-cases (x == id)) [
      | inl e ↦
          let p = (nat_beq_iff x id).0 e in
          simp e (
            first_one (decide b x) id (contains id ids) (loaded_config id (map (decide b) ids))
              (tested ∙ e)
              (loaded-map b id ids
                ∙ ap (λ y. if contains id ids then config_if_loaded (decide b y) else none) (sym p))
            ∙ ap (λ y. config_if_loaded (decide b y)) p)
      | inr e ↦ simp e (
          not_this (decide b x) id (loaded_config id (map (decide b) ids)) (tested ∙ e)
          ∙ loaded-map b id ids)
    ]

contains-add_id : (j x : ℕ) (ys : List ℕ) → contains j (add_id x ys) ≡ (x == j) || contains j ys
contains-add_id j x [] = refl
contains-add_id j x (y ∷ ys) = ground (arith, contains-add_id j x ys)

contains-add_keys :
    (j : ℕ) (d : Dict ℕ StrategyConfig) (ids : List ℕ)
    → contains j (add_keys d ids) ≡ has_key j d || contains j ids
unfolding lookup
contains-add_keys j [] ids = refl
contains-add_keys j ((k, s) ∷ d) ids =
    ground (arith, contains-add_id j k (add_keys d ids), contains-add_keys j d ids)

-- A leg that no source knows is not wanted.
unknown-wanted : (b : Boot) (id : ℕ) → contains id (known_ids b) ≡ false → wanted b id ≡ none
unknown-wanted b id h = absent b (lookup id b.local_by_id) (lookup id b.watcher_by_id) id (
    ground (
      arith,
      h,
      contains-add_keys id b.local_by_id (add_keys b.watcher_by_id []),
      contains-add_keys id b.watcher_by_id [],
    ))
  where
    absent :
        (b : Boot) (l w : Option StrategyConfig) (id : ℕ)
        → (is_some l || is_some w) ≡ false
        → (if b.soak.enabled
            then (if (b.environment == text "paper") && contains id b.soak.commissioning_legs
                then l
                else none)
            else if_enabled w)
          ≡ none
    absent b none none id h = ground arith
    absent b none (some w) id h = cc
    absent b (some l) w id h = cc

-- The boot loads, of each leg, exactly this configuration: in the soak the local charter's, if the leg is
-- on the list and the environment is paper, whatever the watcher says; outside the soak the watcher's, if
-- it is enabled.
pub loads_exactly :
    (environment : Text) (soak : SoakConfig) (local watcher : List StrategyConfig) (auth : Bool)
    (id : ℕ)
    → loaded_config id (resolve_active_legs environment soak local watcher auth)
      ≡ wanted (boot_of environment soak local watcher auth) id
unfolding resolve_active_legs
loads_exactly environment soak local watcher auth id =
    let b = boot_of environment soak local watcher auth in
    loaded-map b id (known_ids b) ∙ elim (Bool-cases (contains id (known_ids b))) [
      | inl k ↦ simp k (decide-wanted b id)
      | inr k ↦ simp k (sym (unknown-wanted b id k))
    ]

-- In the soak, the configurations that are loaded do not depend on what the watcher resolved, nor on
-- whether Supabase was reached.
pub soak_ignores_supabase :
    (environment : Text) (soak : SoakConfig) (local w v : List StrategyConfig) (a c : Bool) (id : ℕ)
    → soak.enabled ≡ true
    → loaded_config id (resolve_active_legs environment soak local w a)
      ≡ loaded_config id (resolve_active_legs environment soak local v c)
soak_ignores_supabase environment soak local w v a c id h =
    loads_exactly environment soak local w a id
    ∙ same_wish
    ∙ sym (loads_exactly environment soak local v c id)
  where
    same_wish :
        wanted (boot_of environment soak local w a) id
        ≡ wanted (boot_of environment soak local v c) id
    same_wish = simp h refl

-- ===== src/Engine/RiskGovernor/Evaluate.antt =====
-- `evaluate`: the measurement of the legs that are due, and the clamps on their sizes.
use systematic_trading_valid.Common.{
  Bool, List, Option, [], contains, false, if◌then◌else◌, keep_if, leb, length, ltb, min, nat_eq,
  not, or_default, pair_eq, ℕ, ◌*◌, ◌∷◌,
}
use systematic_trading_valid.Common.Int.{abs_ℤ, leb_ℤ, max_ℤ, pos, pos_part, ℤ, ◌+ℤ◌, ◌-ℤ◌}
use systematic_trading_valid.Common.Text.{Text, text_eq}
use systematic_trading_valid.Common.Dict.{Dict, insert, lookup}
use systematic_trading_valid.Engine.RiskGovernor.{
  Drawdown, Governor, add_id, clamp_multiplier, discard_id, drawdown_of, equity_history_limit,
  history_of, max_safe_correlation, min_correlation_samples, no_drawdown, peak_of, push_bounded,
  strategy_max_drawdown,
}

-- `max(…, default=0.0)` of a history
abbrev pub max_from : ℤ → List ℤ → ℤ
max_from m [] = m
max_from m (x ∷ xs) = max_from (max_ℤ m x) xs

abbrev pub history_peak : List ℤ → ℤ
history_peak [] = pos 0
history_peak (x ∷ xs) = max_from x xs

unfoldable pub resolve_peak : Governor → Text → ℤ → List ℤ → ℤ
resolve_peak g s equity history = max_ℤ (max_ℤ (peak_of g s) (history_peak history)) equity

unfoldable pub compute_drawdown_from_peak : ℤ → ℤ → ℤ → Drawdown
compute_drawdown_from_peak peak_pnl leg_pnl peak_broker =
    if leb_ℤ peak_broker (pos 0)
    then no_drawdown
    else record { fall = pos_part (peak_pnl -ℤ leg_pnl); base = pos_part peak_broker }

abbrev pub exceeds_limit : Drawdown → Bool
exceeds_limit d = ltb (strategy_max_drawdown * d.base) (d.fall * 100)

-- What a cycle says of a leg: its id, whether it is enabled and due, its realized and its open profit,
-- and its closes, if it has a window
pub record Leg : Type 0 where
  pub strategy_id : Text
  pub enabled : Bool
  pub due : Bool
  pub realized : ℤ
  pub unrealized : ℤ
  pub closes : Option (List ℤ)

abbrev pub pnl_of : Leg → ℤ
pnl_of l = l.realized +ℤ l.unrealized

-- The drawdowns and exit-only ids of the verdict so far
pub record Scores : Type 0 where
  pub governor : Governor
  pub drawdowns : Dict Text Drawdown
  pub exit_only : List Text

-- A leg that is not due keeps its state.
unfoldable pub carry_leg : Text → Scores → Scores
carry_leg s x = record x {
  drawdowns = insert s (drawdown_of x.governor s) x.drawdowns;
  exit_only =
      if contains s x.governor.strategy_exit_only then add_id s x.exit_only else x.exit_only;
}

unfoldable pub measure_leg : Text → ℤ → Scores → Scores
measure_leg s leg_pnl x =
    let g = x.governor in
    let history = push_bounded equity_history_limit (history_of g s) leg_pnl in
    let peak = resolve_peak g s leg_pnl history in
    let drawdown = compute_drawdown_from_peak peak leg_pnl g.peak_broker_equity in
    let exits = exceeds_limit drawdown in
    record {
      governor = record g {
        equity_history = insert s history g.equity_history;
        strategy_peaks = insert s peak g.strategy_peaks;
        strategy_drawdowns = insert s drawdown g.strategy_drawdowns;
        strategy_exit_only =
            if exits then add_id s g.strategy_exit_only else discard_id s g.strategy_exit_only;
      };
      drawdowns = insert s drawdown x.drawdowns;
      exit_only = if exits then add_id s x.exit_only else x.exit_only;
    }

abbrev pub score_leg : Leg → Scores → Scores
score_leg l x =
    if not l.enabled
    then x
    else if not l.due
    then carry_leg l.strategy_id x
    else measure_leg l.strategy_id (pnl_of l) x

unfoldable pub score_legs : List Leg → Scores → Scores
score_legs [] x = x
score_legs (l ∷ ls) x = score_legs ls (score_leg l x)

abbrev pub Pairs : Type 0
Pairs = Dict (Text × Text) ℤ

abbrev pub closes_of : Leg → List ℤ
closes_of l = or_default [] l.closes

abbrev pub has_samples : Leg → Bool
has_samples l = leb min_correlation_samples (length (closes_of l))

abbrev pub enabled_legs : List Leg → List Leg
enabled_legs ls = keep_if (λ l. l.enabled) ls

module _ (correlation : List ℤ → List ℤ → ℤ) where
  -- The inner loop of `_compute_correlation_pairs`
  abbrev pub pair_with : Leg → List Leg → Pairs → Pairs
  pair_with l [] d = d
  pair_with l (r ∷ rs) d =
      let c = correlation (closes_of l) (closes_of r) in
      pair_with l rs (
        if has_samples r
        then insert (r.strategy_id, l.strategy_id) c (insert (l.strategy_id, r.strategy_id) c d)
        else d)

  abbrev pub pairs_from : List Leg → Pairs → Pairs
  pairs_from [] d = d
  pairs_from (l ∷ ls) d = pairs_from ls (if has_samples l then pair_with l ls d else d)

  unfoldable pub compute_correlation_pairs : List Leg → Pairs
  compute_correlation_pairs ls = pairs_from (enabled_legs ls) []

abbrev pub Sizes : Type 0
Sizes = Dict Text ℕ

abbrev pub full_sizes : List Leg → Sizes → Sizes
full_sizes [] d = d
full_sizes (l ∷ ls) d = full_sizes ls (insert l.strategy_id 100 d)

-- `min(sizing_multipliers.get(s, 1.0), clamp)`
abbrev pub clamp_size : Text → Sizes → Sizes
clamp_size s d = insert s (min (or_default 100 (lookup s d)) clamp_multiplier) d

abbrev pub clamp_pairs : Pairs → Sizes → Sizes
clamp_pairs [] d = d
clamp_pairs (((a, b), c) ∷ ps) d =
    clamp_pairs ps (if ltb (abs_ℤ c) max_safe_correlation then d else clamp_size b (clamp_size a d))

-- The clamp on legs with too few bars, and their ids
abbrev pub clamp_cold : List Leg → Sizes × List Text → Sizes × List Text
clamp_cold [] r = r
clamp_cold (l ∷ ls) (d, cold) =
    clamp_cold ls
      (if has_samples l then (d, cold) else (clamp_size l.strategy_id d, add_id l.strategy_id cold))

unfoldable pub sizes_of : (List ℤ → List ℤ → ℤ) → List Leg → Sizes × List Text
unfolding compute_correlation_pairs
sizes_of correlation ls =
    let on = enabled_legs ls in
    clamp_cold on (clamp_pairs (compute_correlation_pairs correlation ls) (full_sizes on []), [])

pub record GovernorVerdict : Type 0 where
  pub sizing_multipliers : Sizes
  pub exit_only_strategy_ids : List Text
  pub correlation_pairs : Pairs
  verdict_drawdowns : Dict Text Drawdown
  pub cold_start_clamped : List Text

abbrev pub ratcheted : Governor → ℤ → Governor
ratcheted g equity = record g { peak_broker_equity = max_ℤ g.peak_broker_equity equity }

unfoldable pub evaluate :
    (List ℤ → List ℤ → ℤ) → Governor → List Leg → ℤ → Governor × GovernorVerdict
evaluate correlation g ls broker_equity =
    let start : Scores = record {
      governor = ratcheted g broker_equity;
      drawdowns = [];
      exit_only = [];
    } in
    let scores = score_legs ls start in
    let sizes = sizes_of correlation ls in
    (
      scores.governor,
      record {
        sizing_multipliers = sizes.0;
        exit_only_strategy_ids = scores.exit_only;
        correlation_pairs = compute_correlation_pairs correlation ls;
        verdict_drawdowns = scores.drawdowns;
        cold_start_clamped = sizes.1;
      },
    )

-- `blocks_new_entries`, for an entry signal or another
unfoldable pub blocks_new_entries : Text → Bool → GovernorVerdict → Bool
blocks_new_entries s is_entry v =
    if not is_entry then false else contains s v.exit_only_strategy_ids

-- ===== src/Engine/RiskGovernor.antt =====
-- src/engine/portfolio_risk_governor.py: the governor of drawdowns and correlated sizes. Money is an exact integer
-- of a smallest unit, a drawdown is a fraction that is compared exactly, a correlation is in
-- ten-thousandths, and a size multiplier in percent. `compute_return_correlation` of
-- src/engine/portfolio_brain.py, which is numeric, and the open profit of a leg's position are
-- arguments.
pub mod Evaluate
pub mod Rehydrate
pub mod Store
pub mod HighWater
pub mod Pairs
pub mod Sizing
pub mod Ids
pub mod Alike
pub mod Reread
pub mod Restart
mod Examples
use systematic_trading_valid.Common.{
  List, [], contains, if◌then◌else◌, keep_if, length, nat_eq, not, or_default, pair_eq, suc, zero,
  ℕ, ◌++◌, ◌-◌, ◌==◌, ◌∷◌,
}
use systematic_trading_valid.Common.Int.{pos, ℤ}
use systematic_trading_valid.Common.Text.{Text, text, text_eq}
use systematic_trading_valid.Common.Dict.{Dict, lookup}

abbrev pub max_safe_correlation : ℕ
max_safe_correlation = 8500

abbrev pub clamp_multiplier : ℕ
clamp_multiplier = 60

abbrev pub strategy_max_drawdown : ℕ
strategy_max_drawdown = 6

abbrev pub min_correlation_samples : ℕ
min_correlation_samples = 20

abbrev pub equity_history_limit : ℕ
equity_history_limit = 256

abbrev pub formula_version : Text
formula_version = text "v-GV3-pnlcurve"

-- A fraction of the account's high water
pub record Drawdown : Type 0 where
  pub fall : ℕ
  pub base : ℕ

abbrev pub no_drawdown : Drawdown
no_drawdown = record { fall = 0; base = 1 }

-- `PortfolioRiskGovernor`
pub record Governor : Type 0 where
  pub equity_history : Dict Text (List ℤ)
  pub strategy_peaks : Dict Text ℤ
  pub strategy_drawdowns : Dict Text Drawdown
  pub strategy_exit_only : List Text
  pub last_persisted : Text
  pub peak_broker_equity : ℤ

abbrev pub new_governor : Governor
new_governor = record {
  equity_history = [];
  strategy_peaks = [];
  strategy_drawdowns = [];
  strategy_exit_only = [];
  last_persisted = [];
  peak_broker_equity = pos 0;
}

abbrev pub peak_of : Governor → Text → ℤ
peak_of g s = or_default (pos 0) (lookup s g.strategy_peaks)

abbrev pub drawdown_of : Governor → Text → Drawdown
drawdown_of g s = or_default no_drawdown (lookup s g.strategy_drawdowns)

abbrev pub history_of : Governor → Text → List ℤ
history_of g s = or_default [] (lookup s g.equity_history)

-- Python's sets of strategy ids
abbrev pub add_id : Text → List Text → List Text
add_id s ids = if contains s ids then ids else s ∷ ids

abbrev pub discard_id : Text → List Text → List Text
discard_id s ids = keep_if (λ i. not (i == s)) ids

-- `deque(maxlen=…)`: the newest items stay.
abbrev pub drop_first {ℓ} : {A : Type ℓ} → ℕ → List A → List A
drop_first zero xs = xs
drop_first (suc n) [] = []
drop_first (suc n) (x ∷ xs) = drop_first n xs

abbrev pub push_bounded : ℕ → List ℤ → ℤ → List ℤ
push_bounded limit xs x = let ys = xs ++ (x ∷ []) in drop_first (length ys - limit) ys

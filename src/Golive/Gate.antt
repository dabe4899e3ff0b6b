-- ===== src/Golive/Gate.antt =====
-- services/golive/gate.py: GoLiveGate. A score is given with its category; the texts of the details and of
-- the recommendation are left out.
use apex_trader.Base.{
  Bool, true, false, ◌&&◌, Option, none, some, List, [], ◌∷◌, ◌++◌, all, if◌then◌else◌, leb,
}
use apex_trader.Base.Floats.{FloatOps, ◌*F◌, ◌<F◌, ◌≤F◌, num, min}
use apex_trader.Config.{Settings}
use apex_trader.Shadow.Engine.{WeeklyReport}

-- The keys of the backtest that are read; `none` where one is missing.
pub record Backtest (F : Type 0) : Type 0 where
  pub sharpe : Option F
  pub win_rate : Option F
  pub profit_factor : Option F
  pub max_drawdown : Option F
  pub passed_validation : Option Bool

pub data Category : Type 0 where
  strategy_quality risk_quality execution_quality operational_quality data_quality : Category

pub record CategoryScore (F : Type 0) : Type 0 where
  pub name : Category
  pub score : F
  pub passed : Bool

pub data GateBlocker : Type 0 where
  validation_failed risk_unhealthy short_history watchdog_issues poor_data : GateBlocker

pub record ReadinessReport (F : Type 0) : Type 0 where
  pub overall_passed : Bool
  pub live_allowed : Bool
  pub categories : List (CategoryScore F)
  pub blockers : List GateBlocker

abbrev pub given : {A : Type 0} → Option A → A → A
given none d = d
given (some a) d = a

abbrev pub unless : Bool → GateBlocker → List GateBlocker
unless true b = []
unless false b = b ∷ []

abbrev pub none_blocks : List GateBlocker → Bool
none_blocks [] = true
none_blocks (b ∷ bs) = false

module _ {F : Type 0} ⦃o : FloatOps F⦄ where
  -- `min(xs)` of Python, and zero where there are none.
  abbrev pub least : F → List F → F
  least a [] = a
  least a (x ∷ xs) = least (min a x) xs

  abbrev pub least_score : List F → F
  least_score [] = num 0
  least_score (x ∷ xs) = least x xs

  abbrev pub full_if : Bool → F
  full_if passed = if passed then num 100 else num 0

  unfoldable pub strategy_passes : Settings F → Backtest F → Bool
  strategy_passes cfg t =
      (cfg.golive_min_sharpe ≤F given t.sharpe (num 0))
      && (cfg.golive_min_win_rate ≤F given t.win_rate (num 0))
      && (cfg.golive_min_profit_factor ≤F given t.profit_factor (num 0))
      && (given t.max_drawdown (num 99) ≤F cfg.golive_max_drawdown)
      && given t.passed_validation false

  unfoldable pub history_passes : Settings F → WeeklyReport F → Bool
  history_passes cfg shadow =
      leb cfg.golive_min_completed_trades shadow.completed_trades
      && leb cfg.golive_min_shadow_days shadow.active_days
      && (num 0 <F shadow.total_shadow_pnl)

  -- `GoLiveGate.evaluate`
  unfoldable pub evaluate :
      Settings F → Backtest F → WeeklyReport F → Bool → F → Bool → List F → ReadinessReport F
  evaluate cfg backtest shadow risk_healthy quality watchdog_ok strategy_scores =
      let strategy_ok = strategy_passes cfg backtest in
      let history_ok = history_passes cfg shadow in
      let data_ok = cfg.min_data_quality_score ≤F quality in
      let categories : List (CategoryScore F) =
        record {
          name = Category.strategy_quality;
          score = least_score strategy_scores;
          passed = strategy_ok;
        }
        ∷ record {
          name = Category.risk_quality;
          score = full_if risk_healthy;
          passed = risk_healthy;
        }
        ∷ record { name = Category.execution_quality; score = shadow.win_rate; passed = history_ok }
        ∷ record {
          name = Category.operational_quality;
          score = full_if watchdog_ok;
          passed = watchdog_ok;
        }
        ∷ record { name = Category.data_quality; score = quality *F num 100; passed = data_ok }
        ∷ [] in
      let blockers =
        unless strategy_ok GateBlocker.validation_failed
        ++ unless risk_healthy GateBlocker.risk_unhealthy
        ++ unless history_ok GateBlocker.short_history
        ++ unless watchdog_ok GateBlocker.watchdog_issues
        ++ unless data_ok GateBlocker.poor_data in
      let passed = all (λ c. c.passed) categories && none_blocks blockers in
      record {
        overall_passed = passed;
        live_allowed = passed && cfg.enable_live_execution;
        categories = categories;
        blockers = blockers;
      }

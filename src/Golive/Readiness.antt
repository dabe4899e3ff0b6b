-- ===== src/Golive/Readiness.antt =====
-- services/golive/gate.py: when live trading is allowed.
use apex_trader.Base.{◌≡◌, ◌↔◌, Bool, true, false, List, leb, arith}
use apex_trader.Base.Floats.{FloatOps, ◌<F◌, ◌≤F◌, num}
use apex_trader.Config.{Settings}
use apex_trader.Shadow.Engine.{WeeklyReport}
use apex_trader.Golive.Gate.{Backtest, given, evaluate, strategy_passes, history_passes}

module _ {F : Type 0} ⦃o : FloatOps F⦄ where
  -- The gate allows live trading exactly when live execution is enabled, the backtest passed its validation and
  -- keeps the four thresholds, the shadow trades are enough, over enough days and with a profit, the risk
  -- engine and the watchdog are well, and the data is good enough.
  pub evaluate-live_allowed_iff :
      (cfg : Settings F) (backtest : Backtest F) (shadow : WeeklyReport F) (risk_healthy : Bool)
      (data_quality : F) (watchdog_ok : Bool) (scores : List F)
      → ((evaluate cfg backtest shadow risk_healthy data_quality watchdog_ok scores).live_allowed
          ≡ true)
        ↔ ((cfg.enable_live_execution ≡ true)
            × ((cfg.golive_min_sharpe ≤F given backtest.sharpe (num 0)) ≡ true)
            × ((cfg.golive_min_win_rate ≤F given backtest.win_rate (num 0)) ≡ true)
            × ((cfg.golive_min_profit_factor ≤F given backtest.profit_factor (num 0)) ≡ true)
            × ((given backtest.max_drawdown (num 99) ≤F cfg.golive_max_drawdown) ≡ true)
            × (given backtest.passed_validation false ≡ true)
            × (leb cfg.golive_min_completed_trades shadow.completed_trades ≡ true)
            × (leb cfg.golive_min_shadow_days shadow.active_days ≡ true)
            × ((num 0 <F shadow.total_shadow_pnl) ≡ true)
            × (risk_healthy ≡ true)
            × (watchdog_ok ≡ true)
            × ((cfg.min_data_quality_score ≤F data_quality) ≡ true))
  unfolding evaluate strategy_passes history_passes
  evaluate-live_allowed_iff cfg backtest shadow risk_healthy data_quality watchdog_ok scores =
      ground arith

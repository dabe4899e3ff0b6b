-- ===== src/Config.antt =====
-- shared/config.py: the settings that the modelled components read. Pydantic checks the bounds of
-- four of them when the settings are made.
use apex_trader.Base.{ℕ, String, Bool, true, false}

-- `trading_mode` is a text: `other` is any text that the code does not compare with.
pub data TradingMode : Type 0 where
  paper shadow live : TradingMode
  other : String → TradingMode

abbrev pub is_live : TradingMode → Bool
is_live live = true
is_live _ = false

abbrev pub is_shadow : TradingMode → Bool
is_shadow shadow = true
is_shadow _ = false

abbrev pub is_paper : TradingMode → Bool
is_paper paper = true
is_paper _ = false

pub record Settings (F : Type 0) : Type 0 where
  pub initial_capital : F
  pub max_risk_per_trade_pct : F
  pub max_position_value_pct : F
  pub cash_reserve_pct : F
  pub min_net_reward_risk : F
  pub estimated_round_trip_cost_bps : F
  pub estimated_exit_slippage_bps : F
  pub golive_min_completed_trades : ℕ
  pub max_daily_loss_pct : F
  pub max_weekly_loss_pct : F
  pub max_monthly_loss_pct : F
  pub max_monthly_drawdown_pct : F
  pub max_portfolio_heat_pct : F
  pub max_correlated_exposure_pct : F
  pub max_sector_concentration_pct : F
  pub min_confidence_score : F
  pub max_open_positions : ℕ
  pub consecutive_loss_reduce : ℕ
  pub consecutive_loss_halt : ℕ
  pub high_vol_size_multiplier : F
  pub vol_threshold_reduce : F
  pub kelly_cap_fraction : F
  pub trading_mode : TradingMode
  pub enable_live_execution : Bool
  pub shadow_slippage_bps : F
  pub golive_min_sharpe : F
  pub golive_min_win_rate : F
  pub golive_max_drawdown : F
  pub golive_min_shadow_days : ℕ
  pub golive_min_profit_factor : F
  pub min_data_quality_score : F
  pub strategy_disable_win_rate : F
  pub strategy_disable_min_trades : ℕ
  pub api_failure_threshold : ℕ
  pub api_circuit_pause_minutes : ℕ
  pub enforce_market_hours : Bool
  pub max_entry_deviation_pct : F
  pub sizing_risk_breach_tolerance : F
  pub enforce_sector_correlation_limits : Bool
  pub icb_drift_restrict_threshold : ℕ
  pub default_broker : String
  pub kite_exchange : String
  pub kite_product : String
  pub kite_autoslice : Bool
  pub kite_static_ip_confirmed : Bool
  pub golive_approved : Bool
  pub chaos_report_max_age_hours : ℕ
  pub idempotency_bucket_minutes : ℕ

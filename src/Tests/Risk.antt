-- ===== src/Tests/Risk.antt =====
-- services/risk on a trade of ten shares with a stop, on an account of a million.
use apex_trader.Base.{◌≡◌, refl, ◌↔◌, ℕ, Bool, true, false, some, [], ◌<◌}
use apex_trader.Base.Floats.{num, ◌=F◌}
use mathlib.Core.Option.{get_or}
use apex_trader.Risk.Types.{
  RiskVerdict, RiskState, AdvancedRiskState, TradeProposal, Reason, RiskDecision, is_approved,
}
use apex_trader.Risk.Engine.{
  numbers_ok, stressed_loss, evaluate, all_passed, budget_checks, net_reward, daily_budget,
  limit_checks, daily_loss_ok, weekly_loss_ok, drawdown_ok, per_trade_risk_pct, regime_clear,
}
use apex_trader.Risk.Advanced.{
  evaluate_advanced, extend, advanced_checks, advanced_multiplier, sector_ok, correlation_ok,
  monthly_ok,
}
use apex_trader.Risk.Approval.{approves, WithinLimits, evaluate-approved_iff}
use apex_trader.Risk.AdvancedApproval.{Extras, evaluate_advanced-approved_iff}
use apex_trader.Tests.Samples.{milli, settings}

abbrev pub account : RiskState ℕ
account = record {
  equity = num 1000000;
  cash = num 1000000;
  daily_pnl = num 0;
  weekly_pnl = num 0;
  peak_equity = num 1000000;
  open_positions = 2;
  portfolio_heat_pct = num 1;
  consecutive_losses = 3;
  emergency_halt = false;
  circuit_breaker = false;
}

abbrev pub trade : TradeProposal ℕ
trade = record {
  symbol = "INFY";
  asset_class = "equity";
  side = "long";
  entry = num 1500;
  stop_loss = num 1480;
  take_profit = num 1560;
  qty = num 10;
  confidence = num 80;
  strategy = "momentum";
  regime = "trending";
  liquidity_score = num 1;
  volatility_pct = num 20;
  correlation_bucket = "it";
}

abbrev pub advanced_account : AdvancedRiskState ℕ
advanced_account = record {
  base = account;
  monthly_pnl = num 0;
  sector_exposure = [];
  correlation_exposure = [];
  disabled_strategies = [];
  black_swan_mode = false;
  safe_mode = false;
  data_quality_score = num 1;
}

abbrev none_made : RiskDecision ℕ
none_made = record {
  verdict = RiskVerdict.rejected;
  approved_qty = num 0;
  checks = [];
  reason = Reason.invalid_numbers;
  size_multiplier = num 1;
}

abbrev decided : RiskDecision ℕ
decided = get_or (evaluate settings trade account) none_made

-- The trade is decided, and after three losses its size is halved.
approval_made :
    (evaluate settings trade account ≡ some decided)
    × (is_approved decided ≡ true)
    × (decided.approved_qty ≡ num 5)
unfolding evaluate numbers_ok stressed_loss all_passed budget_checks net_reward daily_budget
    limit_checks daily_loss_ok weekly_loss_ok drawdown_ok per_trade_risk_pct regime_clear
    is_approved
approval_made = (refl, refl, refl)

abbrev advanced_decided : RiskDecision ℕ
advanced_decided = get_or (evaluate_advanced settings trade advanced_account) none_made

trade_advanced :
    (evaluate_advanced settings trade advanced_account ≡ some advanced_decided)
    × (is_approved advanced_decided ≡ true)
unfolding evaluate numbers_ok stressed_loss all_passed budget_checks net_reward daily_budget
    limit_checks daily_loss_ok weekly_loss_ok drawdown_ok per_trade_risk_pct regime_clear
    is_approved evaluate_advanced extend advanced_checks advanced_multiplier sector_ok
    correlation_ok monthly_ok
trade_advanced = (refl, refl)

evaluate-approved_iff_example : (approves (evaluate settings trade account) ≡ true) ↔ (
    (numbers_ok trade account ≡ true)
    × ((stressed_loss settings trade =F num 0) ≡ false)
    × (◌≡◌ {A = Bool} false false)
    × (◌≡◌ {A = Bool} false false)
    × WithinLimits settings trade account
    × (3 < 5))
evaluate-approved_iff_example = evaluate-approved_iff settings trade account

evaluate_advanced-approved_iff_example :
    (approves (evaluate_advanced settings trade advanced_account) ≡ true)
    ↔ ((approves (evaluate settings trade account) ≡ true) × Extras settings trade advanced_account)
evaluate_advanced-approved_iff_example =
    evaluate_advanced-approved_iff settings trade advanced_account

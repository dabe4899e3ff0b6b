-- ===== src/Tests/Unified.antt =====
-- services/risk/unified.py on a trade of ten shares, halved after three losses.
use apex_trader.Base.{◌≡◌, ◌↔◌, refl, ℕ, ◌*◌, true, false, none, some, [], ◌∷◌}
use apex_trader.Base.Floats.{num, whole}
use mathlib.Core.Option.{get_or}
use apex_trader.Config.{paper}
use apex_trader.Governance.Models.{new_record, is_tradeable_state}
use apex_trader.Governance.Policy.{evaluate_strategy}
use apex_trader.Governance.Engine.{Engine, ensure_loaded, record_of}
use apex_trader.Governance.Store.{load}
use apex_trader.Icb.Types.{market_open}
use apex_trader.Risk.Types.{Reason, RiskDecision, is_approved}
use apex_trader.Risk.Engine.{
  numbers_ok, stressed_loss, evaluate, all_passed, budget_checks, net_reward, daily_budget,
  limit_checks, daily_loss_ok, weekly_loss_ok, drawdown_ok, per_trade_risk_pct, regime_clear,
}
use apex_trader.Risk.Advanced.{
  evaluate_advanced, extend, advanced_checks, advanced_multiplier, sector_ok, correlation_ok,
  monthly_ok,
}
use apex_trader.Risk.Unified.{
  Verdict, UnifiedRiskDecision, Request, evaluate_trade, decide_gated, decide, strategy_gate,
  validate_entry, reference_price, is_held, deviates, is_allowed,
}
use apex_trader.Risk.UnifiedApproval.{
  lets_through, IsGovernanceOpen, IsApprovedEntry, evaluate_trade-allowed_iff,
}
use apex_trader.Tests.Samples.{milli, capitals, settings}
use apex_trader.Tests.Risk.{trade, advanced_account}

abbrev engine : Engine ℕ
engine = record {
  records = ("momentum", new_record "now" "momentum") ∷ [];
  loaded = true;
  store = record { memory = []; file = none };
}

-- A Tuesday at ten.
abbrev request : Request ℕ
request = record {
  proposal = trade;
  state = advanced_account;
  portfolio = record {
    equity = num 1000000;
    cash = num 1000000;
    positions = [];
    daily_pnl = num 0;
    weekly_pnl = num 0;
    monthly_pnl = num 0;
    peak_equity = num 1000000;
    buying_power = num 0;
    consecutive_losses = 3;
    emergency_halt = false;
    circuit_breaker = false;
    black_swan_mode = false;
  };
  market_data = record { has_real_data = true; ltp = some (num 1510); synthetic_close = none };
  trading_mode = paper;
  regime_recommended = "momentum" ∷ [];
  lab_enabled = "momentum" ∷ [];
  clock = record { weekday = 1; time = 10 * 3600 * 1000000 };
}

abbrev none_made : UnifiedRiskDecision ℕ
none_made = record {
  verdict = Verdict.reject;
  final_quantity = num 0;
  reason = Reason.invalid_numbers;
  checks = [];
  size_multiplier = num 1;
}

abbrev decided : UnifiedRiskDecision ℕ
decided = get_or (evaluate_trade settings "now" none request engine).0 none_made

approval_made :
    ((evaluate_trade settings "now" none request engine).0 ≡ some decided)
    × (is_allowed decided ≡ true)
    × (decided.final_quantity ≡ num 5)
unfolding evaluate numbers_ok stressed_loss all_passed budget_checks net_reward daily_budget
    limit_checks daily_loss_ok weekly_loss_ok drawdown_ok per_trade_risk_pct regime_clear
    is_approved evaluate_advanced extend advanced_checks advanced_multiplier sector_ok
    correlation_ok monthly_ok evaluate_trade decide_gated decide strategy_gate validate_entry
    reference_price is_held deviates is_allowed whole market_open new_record is_tradeable_state
    evaluate_strategy ensure_loaded load
approval_made = (refl, refl, refl)

evaluate_trade-allowed_iff_example :
    let r = record_of "now" "momentum" (ensure_loaded "now" none engine) in
    (lets_through (evaluate_trade settings "now" none request engine).0 ≡ true) ↔ (
      IsGovernanceOpen request r
      × ((a : RiskDecision ℕ) × ((shares : ℕ) × IsApprovedEntry settings request
              (strategy_gate request r).size_multiplier
              a
              shares)))
evaluate_trade-allowed_iff_example = evaluate_trade-allowed_iff settings "now" none request engine

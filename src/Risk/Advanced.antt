-- ===== src/Risk/Advanced.antt =====
-- services/risk/advanced.py: `AdvancedRiskEngine`, which adds the sector, correlation, monthly loss and
-- volatility rules to the base engine's decision.
use apex_trader.Base.{
  Bool, true, false, not, ◌||◌, Option, none, some, List, [], ◌∷◌, ◌++◌, if◌then◌else◌,
}
use apex_trader.Base.Floats.{FloatOps, ◌*F◌, ◌/F◌, ◌<F◌, ◌≤F◌, num, neg}
use apex_trader.Base.Dict.{contains, get_or}
use apex_trader.Config.{Settings}
use apex_trader.Risk.Types.{
  RiskVerdict, AdvancedRiskState, TradeProposal, RiskCheck, Reason, RiskDecision, is_approved,
}
use apex_trader.Risk.Engine.{check, all_passed, first_failed, refuse, decision, evaluate}

module _ {F : Type 0} ⦃o : FloatOps F⦄ where
  unfoldable pub sector_ok : Settings F → TradeProposal F → AdvancedRiskState F → Bool
  sector_ok cfg p s =
      if cfg.enforce_sector_correlation_limits
      then get_or p.correlation_bucket s.sector_exposure (num 0) <F cfg.max_sector_concentration_pct
      else true

  unfoldable pub correlation_ok : Settings F → TradeProposal F → AdvancedRiskState F → Bool
  correlation_ok cfg p s =
      if cfg.enforce_sector_correlation_limits
      then get_or p.correlation_bucket s.correlation_exposure (num 0)
        <F cfg.max_correlated_exposure_pct
      else true

  unfoldable pub monthly_ok : Settings F → AdvancedRiskState F → Bool
  monthly_ok cfg s = neg (s.base.equity *F cfg.max_monthly_loss_pct /F num 100) ≤F s.monthly_pnl

  abbrev pub high_volatility : Settings F → TradeProposal F → Bool
  high_volatility cfg p = cfg.vol_threshold_reduce <F p.volatility_pct

  -- The checks after those of the base decision.
  unfoldable pub advanced_checks :
      Settings F → TradeProposal F → AdvancedRiskState F → List RiskCheck
  advanced_checks cfg p s =
      check "sector_concentration" (sector_ok cfg p s)
      ∷ check "correlation" (correlation_ok cfg p s)
      ∷ check "monthly_loss" (monthly_ok cfg s)
      ∷ (if high_volatility cfg p then check "high_vol_reduce" true ∷ [] else [])

  -- The multiplier after the volatility rule.
  unfoldable pub advanced_multiplier : Settings F → TradeProposal F → RiskDecision F → F
  advanced_multiplier cfg p base =
      if high_volatility cfg p
      then base.size_multiplier *F cfg.high_vol_size_multiplier
      else base.size_multiplier

  -- What follows an approval by the base engine.
  unfoldable pub extend :
      Settings F → TradeProposal F → AdvancedRiskState F → RiskDecision F → RiskDecision F
  extend cfg p s base =
      let checks = base.checks ++ advanced_checks cfg p s in
      let m = advanced_multiplier cfg p base in
      if s.data_quality_score <F cfg.min_data_quality_score
      then refuse RiskVerdict.rejected base.checks (Reason.low_data_quality s.data_quality_score)
      else if not (all_passed checks)
      then refuse RiskVerdict.rejected checks (Reason.check_failed (first_failed checks))
      else decision (if m <F num 1 then RiskVerdict.reduced else base.verdict) (p.qty *F m) checks
          base.reason m

  abbrev extend_approved :
      Settings F
      → TradeProposal F
      → AdvancedRiskState F
      → Option (RiskDecision F)
      → Option (RiskDecision F)
  extend_approved cfg p s none = none
  extend_approved cfg p s (some base) =
      if not (is_approved base) then some base else some (extend cfg p s base)

  unfoldable pub evaluate_advanced :
      Settings F → TradeProposal F → AdvancedRiskState F → Option (RiskDecision F)
  evaluate_advanced cfg p s =
      if s.black_swan_mode || s.safe_mode
      then some (refuse RiskVerdict.halted [] Reason.no_new_trades)
      else if contains s.disabled_strategies p.strategy
      then some (
          refuse RiskVerdict.rejected (check "strategy_disabled" false ∷ [])
            (Reason.strategy_disabled p.strategy))
      else extend_approved cfg p s (evaluate cfg p s.base)

  unfoldable pub enter_black_swan : AdvancedRiskState F → AdvancedRiskState F
  enter_black_swan s = record s {
    base = record (s.base) { emergency_halt = true; circuit_breaker = true };
    black_swan_mode = true;
  }

  unfoldable pub enter_safe_mode : AdvancedRiskState F → AdvancedRiskState F
  enter_safe_mode s = record s {
    base = record (s.base) { circuit_breaker = true };
    safe_mode = true;
  }

-- ===== src/Risk/Engine.antt =====
-- services/risk/engine.py: `RiskEngine`. `none` is the `ZeroDivisionError` of a stressed loss of zero.
use apex_trader.Base.{
  String, Bool, true, not, ◌&&◌, ◌||◌, Option, none, some, List, [], ◌∷◌, ◌++◌, if◌then◌else◌, ltb,
  leb, str_eq,
}
use apex_trader.Base.Floats.{
  FloatOps, ◌+F◌, ◌-F◌, ◌*F◌, ◌/F◌, ◌<F◌, ◌≤F◌, ◌=F◌, num, ratio, neg, abs, min, max,
}
use apex_trader.Config.{Settings}
use apex_trader.Risk.Types.{RiskVerdict, RiskState, TradeProposal, RiskCheck, Reason, RiskDecision}

abbrev pub check : String → Bool → RiskCheck
check name passed = record { name = name; passed = passed }

unfoldable pub all_passed : List RiskCheck → Bool
all_passed [] = true
all_passed (c ∷ cs) = c.passed && all_passed cs

-- `next(c for c in checks if not c.passed)`, by its name
unfoldable pub first_failed : List RiskCheck → String
first_failed [] = ""
first_failed (c ∷ cs) = if c.passed then first_failed cs else c.name

unfoldable pub regime_clear : String → Bool
regime_clear r = not (str_eq r "unclear" || str_eq r "crisis" || str_eq r "black_swan")

module _ {F : Type 0} ⦃o : FloatOps F⦄ where
  abbrev pub decision : RiskVerdict → F → List RiskCheck → Reason F → F → RiskDecision F
  decision v qty cs why m = record {
    verdict = v;
    approved_qty = qty;
    checks = cs;
    reason = why;
    size_multiplier = m;
  }

  abbrev pub refuse : RiskVerdict → List RiskCheck → Reason F → RiskDecision F
  refuse v cs why = decision v (num 0) cs why (num 1)

  abbrev positive : F → Bool
  positive x = o.is_finite x && (num 0 <F x)

  -- The first guard: five finite numbers above zero, and the stop below the entry below the target.
  unfoldable pub numbers_ok : TradeProposal F → RiskState F → Bool
  numbers_ok p s =
      positive p.entry
      && positive p.stop_loss
      && positive p.take_profit
      && positive p.qty
      && positive s.equity
      && (p.stop_loss <F p.entry)
      && (p.entry <F p.take_profit)

  -- `entry * bps / 10000`
  abbrev bps_of : F → F → F
  bps_of entry bps = entry *F bps /F num 10000

  unfoldable pub stressed_loss : Settings F → TradeProposal F → F
  stressed_loss cfg p =
      p.entry
      -F p.stop_loss
      +F bps_of p.entry cfg.estimated_round_trip_cost_bps
      +F bps_of p.entry cfg.estimated_exit_slippage_bps

  unfoldable pub net_reward : Settings F → TradeProposal F → F
  net_reward cfg p =
      p.take_profit
      -F p.entry
      -F bps_of p.entry cfg.estimated_round_trip_cost_bps
      -F bps_of p.entry cfg.estimated_exit_slippage_bps

  -- What is left of the day's loss limit.
  unfoldable pub daily_budget : Settings F → RiskState F → F
  daily_budget cfg s =
      max (num 0) (s.equity *F cfg.max_daily_loss_pct /F num 100 +F min (num 0) s.daily_pnl)

  unfoldable pub daily_loss_ok : Settings F → RiskState F → Bool
  daily_loss_ok cfg s = neg (s.equity *F cfg.max_daily_loss_pct /F num 100) ≤F s.daily_pnl

  unfoldable pub weekly_loss_ok : Settings F → RiskState F → Bool
  weekly_loss_ok cfg s = neg (s.equity *F cfg.max_weekly_loss_pct /F num 100) ≤F s.weekly_pnl

  unfoldable pub drawdown_ok : Settings F → RiskState F → Bool
  drawdown_ok cfg s =
      if s.peak_equity ≤F num 0
      then true
      else (s.peak_equity -F s.equity) /F s.peak_equity *F num 100 ≤F cfg.max_monthly_drawdown_pct

  unfoldable pub per_trade_risk_pct : TradeProposal F → RiskState F → F
  per_trade_risk_pct p s =
      if (p.entry ≤F p.stop_loss) || (s.equity ≤F num 0)
      then num 999
      else abs (p.entry -F p.stop_loss) *F p.qty /F s.equity *F num 100

  -- The two checks that stand before the halts.
  unfoldable pub budget_checks : Settings F → TradeProposal F → RiskState F → List RiskCheck
  budget_checks cfg p s =
      check "net_reward_risk" (cfg.min_net_reward_risk ≤F net_reward cfg p /F stressed_loss cfg p)
      ∷ check "remaining_daily_budget" (stressed_loss cfg p *F p.qty ≤F daily_budget cfg s)
      ∷ []

  -- The ten checks after the halts.
  unfoldable pub limit_checks : Settings F → TradeProposal F → RiskState F → List RiskCheck
  limit_checks cfg p s =
      let risk = per_trade_risk_pct p s in
      check "confidence" (cfg.min_confidence_score ≤F p.confidence)
      ∷ check "daily_loss" (daily_loss_ok cfg s)
      ∷ check "weekly_loss" (weekly_loss_ok cfg s)
      ∷ check "drawdown" (drawdown_ok cfg s)
      ∷ check "position_count" (ltb s.open_positions cfg.max_open_positions)
      ∷ check "per_trade_risk" (risk ≤F cfg.max_risk_per_trade_pct)
      ∷ check "portfolio_heat" (s.portfolio_heat_pct +F risk ≤F cfg.max_portfolio_heat_pct)
      ∷ check "liquidity" (ratio 6 10 ≤F p.liquidity_score)
      ∷ check "volatility" (p.volatility_pct ≤F num 50)
      ∷ check "regime_clarity" (regime_clear p.regime)
      ∷ []

  -- The size after a streak of losses.
  abbrev pub after_streak :
      Settings F → TradeProposal F → RiskState F → List RiskCheck → RiskDecision F
  after_streak cfg p s checks =
      if leb cfg.consecutive_loss_halt s.consecutive_losses
      then refuse RiskVerdict.halted checks (Reason.loss_streak s.consecutive_losses)
      else if leb cfg.consecutive_loss_reduce s.consecutive_losses
      then decision RiskVerdict.reduced (p.qty *F ratio 1 2)
          (checks ++ check "loss_streak_reduce" true ∷ []) Reason.all_passed (ratio 1 2)
      else decision RiskVerdict.approved (p.qty *F num 1) checks Reason.all_passed (num 1)

  unfoldable pub evaluate : Settings F → TradeProposal F → RiskState F → Option (RiskDecision F)
  evaluate cfg p s =
      let budget = budget_checks cfg p s in
      let checks = budget ++ limit_checks cfg p s in
      if not (numbers_ok p s)
      then some (refuse RiskVerdict.rejected [] Reason.invalid_numbers)
      else if stressed_loss cfg p =F num 0
      then none
      else if s.emergency_halt
      then some (refuse RiskVerdict.halted budget Reason.emergency_shutdown)
      else if s.circuit_breaker
      then some (refuse RiskVerdict.halted budget Reason.circuit_breaker_triggered)
      else if not (all_passed checks)
      then some (refuse RiskVerdict.rejected checks (Reason.check_failed (first_failed checks)))
      else some (after_streak cfg p s checks)

  unfoldable pub trigger_circuit_breaker : RiskState F → RiskState F
  trigger_circuit_breaker s = record s { circuit_breaker = true }

  unfoldable pub emergency_shutdown : RiskState F → RiskState F
  emergency_shutdown s = record s { emergency_halt = true; circuit_breaker = true }

-- ===== src/Risk/Approval.antt =====
-- services/risk/engine.py and advanced.py: exactly which trades are approved, and at which size.
use apex_trader.Base.{
  ◌≡◌, refl, ◌↔◌, Bool, true, false, ◌&&◌, ◌<◌, Option, none, some, List, [], ◌∷◌, ◌++◌, arith,
  if◌then◌else◌, leb,
}
use apex_trader.Base.Floats.{FloatOps, ◌*F◌, ◌/F◌, ◌≤F◌, ◌=F◌, ◌+F◌, num, ratio}
use apex_trader.Config.{Settings}
use apex_trader.Risk.Types.{RiskState, TradeProposal, RiskCheck, RiskDecision, is_approved}
use apex_trader.Risk.Engine.{
  all_passed, regime_clear, numbers_ok, stressed_loss, net_reward, daily_budget, daily_loss_ok,
  weekly_loss_ok, drawdown_ok, per_trade_risk_pct, budget_checks, limit_checks, evaluate,
}

pub all_passed-append :
    (xs ys : List RiskCheck) → all_passed (xs ++ ys) ≡ (all_passed xs && all_passed ys)
unfolding all_passed
all_passed-append [] ys = refl
all_passed-append (x ∷ xs) ys = ground (arith, all_passed-append xs ys)

module _ {F : Type 0} ⦃o : FloatOps F⦄ where
  abbrev pub approves : Option (RiskDecision F) → Bool
  approves none = false
  approves (some d) = is_approved d

  -- The limits on the account and on the trade, said once, apart from the engine's bookkeeping.
  abbrev pub WithinLimits : Settings F → TradeProposal F → RiskState F → Type 0
  WithinLimits cfg p s =
      ((cfg.min_net_reward_risk ≤F net_reward cfg p /F stressed_loss cfg p) ≡ true)
      × ((stressed_loss cfg p *F p.qty ≤F daily_budget cfg s) ≡ true)
      × ((cfg.min_confidence_score ≤F p.confidence) ≡ true)
      × (daily_loss_ok cfg s ≡ true)
      × (weekly_loss_ok cfg s ≡ true)
      × (drawdown_ok cfg s ≡ true)
      × (s.open_positions < cfg.max_open_positions)
      × ((per_trade_risk_pct p s ≤F cfg.max_risk_per_trade_pct) ≡ true)
      × ((s.portfolio_heat_pct +F per_trade_risk_pct p s ≤F cfg.max_portfolio_heat_pct) ≡ true)
      × ((ratio 6 10 ≤F p.liquidity_score) ≡ true)
      × ((p.volatility_pct ≤F num 50) ≡ true)
      × (regime_clear p.regime ≡ true)

  limits_iff :
      (cfg : Settings F) (p : TradeProposal F) (s : RiskState F)
      → (all_passed (budget_checks cfg p s ++ limit_checks cfg p s) ≡ true) ↔ WithinLimits cfg p s
  unfolding all_passed budget_checks limit_checks
  limits_iff cfg p s = (ground arith, ground arith)

  -- The base engine approves a trade exactly when its numbers are finite, positive and in order, the
  -- stressed loss is not zero, neither halt is set, every limit is kept, and the streak of losses is
  -- below the halting length.
  pub evaluate-approved_iff :
      (cfg : Settings F) (p : TradeProposal F) (s : RiskState F)
      → (approves (evaluate cfg p s) ≡ true) ↔ (
          (numbers_ok p s ≡ true)
          × ((stressed_loss cfg p =F num 0) ≡ false)
          × (s.emergency_halt ≡ false)
          × (s.circuit_breaker ≡ false)
          × WithinLimits cfg p s
          × (s.consecutive_losses < cfg.consecutive_loss_halt))
  unfolding evaluate is_approved
  evaluate-approved_iff cfg p s =
      (λ h. ground (arith, limits_iff cfg p s), λ h. ground (arith, limits_iff cfg p s))

  -- Whatever the engine answers, an approved quantity is the proposed one, or half of it exactly when
  -- the streak of losses has reached the reducing length; and a refused trade has quantity zero.
  pub evaluate-size :
      (cfg : Settings F) (p : TradeProposal F) (s : RiskState F) (d : RiskDecision F)
      → evaluate cfg p s ≡ some d
      → (d.approved_qty ≡ (
          if is_approved d
          then p.qty
            *F (if leb cfg.consecutive_loss_reduce s.consecutive_losses then ratio 1 2 else num 1)
          else num 0))
        × (is_approved d ≡ true
            → d.size_multiplier
              ≡ (if leb cfg.consecutive_loss_reduce s.consecutive_losses then ratio 1 2 else num 1))
  unfolding evaluate is_approved
  evaluate-size cfg p s d h = ground arith

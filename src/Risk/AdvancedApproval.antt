-- ===== src/Risk/AdvancedApproval.antt =====
-- services/risk/advanced.py: which trades the advanced engine approves, beside the base engine.
use apex_trader.Base.{
  ◌≡◌, refl, ◌↔◌, inl, inr, true, false, not, ◌&&◌, some, [], ◌∷◌, ◌++◌, arith, if◌then◌else◌, leb,
  Bool-cases, Option-cases,
}
use apex_trader.Base.Floats.{FloatOps, ◌*F◌, ◌<F◌, num, ratio}
use apex_trader.Base.Dict.{contains}
use apex_trader.Config.{Settings}
use apex_trader.Risk.Types.{RiskState, AdvancedRiskState, TradeProposal, RiskDecision, is_approved}
use apex_trader.Risk.Engine.{check, all_passed, budget_checks, limit_checks, evaluate}
use apex_trader.Risk.Advanced.{
  sector_ok, correlation_ok, monthly_ok, high_volatility, advanced_checks, advanced_multiplier,
  extend, evaluate_advanced,
}
use apex_trader.Risk.Approval.{approves, all_passed-append, evaluate-size}

streak_check-passed : all_passed (check "loss_streak_reduce" true ∷ []) ≡ true
unfolding all_passed
streak_check-passed = refl

module _ {F : Type 0} ⦃o : FloatOps F⦄ where
  -- What the advanced engine asks for besides the base engine's approval.
  abbrev pub Extras : Settings F → TradeProposal F → AdvancedRiskState F → Type 0
  Extras cfg p s =
      (s.black_swan_mode ≡ false)
      × (s.safe_mode ≡ false)
      × (contains s.disabled_strategies p.strategy ≡ false)
      × ((s.data_quality_score <F cfg.min_data_quality_score) ≡ false)
      × (sector_ok cfg p s ≡ true)
      × (correlation_ok cfg p s ≡ true)
      × (monthly_ok cfg s ≡ true)

  -- The checks of an approved base decision have all passed.
  approved-checks :
      (cfg : Settings F) (p : TradeProposal F) (s : RiskState F) (d : RiskDecision F)
      → evaluate cfg p s ≡ some d
      → is_approved d ≡ true
      → all_passed d.checks ≡ true
  unfolding evaluate is_approved
  approved-checks cfg p s d h a =
      let checks = budget_checks cfg p s ++ limit_checks cfg p s in
      ground (
        arith,
        all_passed-append checks (check "loss_streak_reduce" true ∷ []),
        streak_check-passed,
      )

  advanced_checks-passed :
      (cfg : Settings F) (p : TradeProposal F) (s : AdvancedRiskState F)
      → all_passed (advanced_checks cfg p s)
        ≡ (sector_ok cfg p s && (correlation_ok cfg p s && monthly_ok cfg s))
  unfolding advanced_checks all_passed
  advanced_checks-passed cfg p s = elim (Bool-cases (high_volatility cfg p)) [
    | inl high ↦ rw high (ground arith)
    | inr low ↦ rw low (ground arith)
  ]

  -- An approved base decision is approved again exactly when the data are good enough and the added
  -- checks pass.
  extend-approved_iff :
      (cfg : Settings F) (p : TradeProposal F) (s : AdvancedRiskState F) (d : RiskDecision F)
      → all_passed d.checks ≡ true
      → is_approved d ≡ true
      → is_approved (extend cfg p s d) ≡ (
          not (s.data_quality_score <F cfg.min_data_quality_score)
          && all_passed (advanced_checks cfg p s))
  unfolding extend is_approved
  extend-approved_iff cfg p s d c a =
      ground (arith, all_passed-append d.checks (advanced_checks cfg p s))

  -- The advanced engine approves a trade exactly when the base engine does, neither black-swan nor safe
  -- mode is on, the strategy is not disabled, the data are good enough, and the sector, correlation and
  -- monthly loss limits are kept.
  pub evaluate_advanced-approved_iff :
      (cfg : Settings F) (p : TradeProposal F) (s : AdvancedRiskState F)
      → (approves (evaluate_advanced cfg p s) ≡ true)
        ↔ ((approves (evaluate cfg p s.base) ≡ true) × Extras cfg p s)
  unfolding evaluate_advanced is_approved
  evaluate_advanced-approved_iff cfg p s = elim (Option-cases (evaluate cfg p s.base)) [
    | inl raised ↦ (λ h. ground arith, λ h. ground arith)
    | inr (d, e) ↦ (
      λ h. ground (
        arith,
        advanced_checks-passed cfg p s,
        approved-checks cfg p s.base d e,
        extend-approved_iff cfg p s d,
      ),
      λ h. ground (
        arith,
        advanced_checks-passed cfg p s,
        approved-checks cfg p s.base d e,
        extend-approved_iff cfg p s d,
      ),
    )
  ]

  -- The quantity that the advanced engine approves is the proposed one times the product of the streak's
  -- factor and, where the volatility is high, the volatility's factor.
  pub evaluate_advanced-size :
      (cfg : Settings F) (p : TradeProposal F) (s : AdvancedRiskState F) (d : RiskDecision F)
      → evaluate_advanced cfg p s ≡ some d
      → is_approved d ≡ true
      → let streak : F =
          if leb cfg.consecutive_loss_reduce s.base.consecutive_losses then ratio 1 2 else num 1 in
        let m : F =
          if high_volatility cfg p then streak *F cfg.high_vol_size_multiplier else streak in
        (d.approved_qty ≡ p.qty *F m) × (d.size_multiplier ≡ m)
  unfolding evaluate_advanced extend advanced_multiplier is_approved
  evaluate_advanced-size cfg p s d h a = elim (Option-cases (evaluate cfg p s.base)) [
    | inl raised ↦ ground arith
    | inr (b, e) ↦ ground (arith, evaluate-size cfg p s.base b e)
  ]

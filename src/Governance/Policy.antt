-- ===== src/Governance/Policy.antt =====
-- services/governance/policy.py: may a strategy operate under the current conditions?
use apex_trader.Base.{◌≡◌, ◌↔◌, ◌⊎◌, String, Bool, true, false, not, List, if◌then◌else◌, arith}
use apex_trader.Base.Floats.{FloatOps, ◌=F◌, num}
use apex_trader.Base.Dict.{contains}
use apex_trader.Governance.Models.{
  StrategyState, Reason, StrategyRecord, GovernanceDecision, is_tradeable_state, reason_or,
  default_throttle_factor,
}

module _ {F : Type 0} ⦃o : FloatOps F⦄ where
  -- `record.throttle_factor or DEFAULT_THROTTLE_FACTOR`
  abbrev pub factor_of : StrategyRecord F → F
  factor_of r = if r.throttle_factor =F num 0 then default_throttle_factor else r.throttle_factor

  abbrev deny : StrategyRecord F → Reason F → GovernanceDecision F
  deny r reason = record {
    allowed = false;
    state = r.state;
    reason = reason;
    size_multiplier = num 1;
  }

  abbrev allow : StrategyRecord F → Reason F → F → GovernanceDecision F
  allow r reason factor = record {
    allowed = true;
    state = r.state;
    reason = reason;
    size_multiplier = factor;
  }

  -- The two tests that stand before the states that may trade.
  abbrev gated :
      StrategyRecord F → String → List String → Bool → GovernanceDecision F → GovernanceDecision F
  gated r regime recommended lab_enabled decision =
      if not lab_enabled
      then deny r (Reason.text "Strategy lab performance gate closed")
      else if not (contains recommended r.name)
      then deny r (Reason.not_recommended regime r.name)
      else decision

  -- The source's last `return`, for a state of another name, cannot be reached.
  abbrev evaluate_state :
      StrategyState → StrategyRecord F → String → List String → Bool → GovernanceDecision F
  evaluate_state StrategyState.killed r _ _ _ =
      deny r (reason_or r.reason (Reason.text "Strategy permanently killed"))
  evaluate_state StrategyState.disabled r _ _ _ =
      deny r (reason_or r.reason (Reason.text "Strategy disabled by governance"))
  evaluate_state StrategyState.paused r _ _ _ =
      deny r (reason_or r.reason (Reason.text "Strategy paused by governance"))
  evaluate_state StrategyState.throttled r regime recommended lab_enabled =
      gated r regime recommended lab_enabled
        (allow r (reason_or r.reason (Reason.throttled_to (factor_of r))) (factor_of r))
  evaluate_state StrategyState.active r regime recommended lab_enabled =
      gated r regime recommended lab_enabled
        (allow r (Reason.text "Active — regime aligned") (num 1))

  unfoldable pub evaluate_strategy :
      StrategyRecord F → String → List String → Bool → GovernanceDecision F
  evaluate_strategy r regime recommended lab_enabled =
      evaluate_state r.state r regime recommended lab_enabled

  -- A strategy is allowed exactly when its state is ACTIVE or THROTTLED, the lab has it enabled and
  -- the regime recommends it.
  pub evaluate_strategy-allowed_iff :
      (r : StrategyRecord F) (regime : String) (recommended : List String) (lab_enabled : Bool)
      → ((evaluate_strategy r regime recommended lab_enabled).allowed ≡ true) ↔ (
          (is_tradeable_state r.state ≡ true)
          × (lab_enabled ≡ true)
          × (contains recommended r.name ≡ true))
  unfolding evaluate_strategy is_tradeable_state
  evaluate_strategy-allowed_iff r regime recommended lab_enabled = (ground arith, ground arith)

  -- Whatever is decided, the size is full, or the throttle factor of a THROTTLED strategy that is
  -- allowed.
  pub evaluate_strategy-size :
      (r : StrategyRecord F) (regime : String) (recommended : List String) (lab_enabled : Bool)
      → let d = evaluate_strategy r regime recommended lab_enabled in
        (d.state ≡ r.state)
        × ((d.size_multiplier ≡ num 1)
            ⊎ ((r.state ≡ StrategyState.throttled)
                × (d.allowed ≡ true)
                × (d.size_multiplier ≡ factor_of r)))
  unfolding evaluate_strategy
  evaluate_strategy-size r regime recommended lab_enabled = ground arith

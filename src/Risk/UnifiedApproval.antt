-- ===== src/Risk/UnifiedApproval.antt =====
-- services/risk/unified.py: exactly which trades are let through, and at what size.
use apex_trader.Base.{
  ◌≡◌, ◌↔◌, inl, inr, String, Bool, true, false, not, ◌&&◌, ◌||◌, Option, none, some, arith,
  if◌then◌else◌, Option-cases,
}
use apex_trader.Base.Floats.{FloatOps, ◌*F◌, ◌<F◌, ◌≤F◌, num, max, whole}
use apex_trader.Base.Dict.{contains}
use apex_trader.Base.CaseMap.{CaseMap}
use apex_trader.Config.{Settings}
use apex_trader.Governance.Models.{StrategyRecord, is_tradeable_state}
use apex_trader.Governance.Policy.{evaluate_strategy-allowed_iff}
use apex_trader.Governance.Store.{Records}
use apex_trader.Governance.Engine.{Engine, ensure_loaded, record_of}
use apex_trader.Icb.Types.{market_open}
use apex_trader.Risk.Types.{EntryResult, RiskDecision, is_approved}
use apex_trader.Risk.Advanced.{evaluate_advanced}
use apex_trader.Risk.Unified.{
  Verdict, UnifiedRiskDecision, Request, is_allowed, strategy_gate, reference_price, is_held,
  deviates, checks_hours, validate_entry, decide, decide_gated, evaluate_trade,
}

abbrev pub lets_through : {F : Type 0} → Option (UnifiedRiskDecision F) → Bool
lets_through none = false
lets_through (some d) = is_allowed d

module _ {F : Type 0} ⦃o : FloatOps F⦄ ⦃u : CaseMap⦄ where
  -- An entry of a whole number of shares that nothing is wrong with.
  abbrev pub IsValidEntry : Settings F → Request F → F → Type 0
  IsValidEntry cfg q qty =
      ((qty <F num 1) ≡ false)
      × ((q.proposal.stop_loss ≤F num 0) ≡ false)
      × ((q.proposal.entry ≤F q.proposal.stop_loss) ≡ false)
      × (is_held q.proposal.symbol q.portfolio ≡ false)
      × ((checks_hours cfg q.trading_mode && not (market_open cfg.enforce_market_hours q.clock))
          ≡ false)
      × ((ltp : F) × (reference_price cfg q.proposal.entry q.market_data ≡ some ltp)
          × (deviates cfg q.proposal.entry ltp ≡ false))

  validate_entry-passed_iff :
      (cfg : Settings F) (q : Request F) (qty : F)
      → (validate_entry cfg q qty ≡ some EntryResult.entry_passed) ↔ IsValidEntry cfg q qty
  unfolding validate_entry
  validate_entry-passed_iff cfg q qty =
      elim (Option-cases (reference_price cfg q.proposal.entry q.market_data)) [
        | inl raised ↦ (λ h. ground arith, λ (_, _, _, _, _, (ltp, e, _)). ground (arith, e))
        | inr (ltp, e) ↦ (
          λ h. (
            ground arith,
            ground arith,
            ground arith,
            ground arith,
            ground arith,
            (ltp, e, ground arith),
          ),
          λ (a, b, c, d, f, (p, e', g)). ground (arith, a, b, c, d, f, e', g),
        )
      ]

  -- The trade is approved by the advanced engine, and what is left of its size after the throttle is a
  -- valid entry.
  abbrev pub IsApprovedEntry : Settings F → Request F → F → RiskDecision F → F → Type 0
  IsApprovedEntry cfg q throttle a shares =
      (evaluate_advanced cfg q.proposal q.state ≡ some a)
      × (is_approved a ≡ true)
      × (whole (a.approved_qty *F throttle) ≡ some shares)
      × IsValidEntry cfg q (max (num 0) shares)

  decide-allowed_iff :
      (cfg : Settings F) (q : Request F) (throttle : F) (a : RiskDecision F)
      → (lets_through (decide cfg q throttle a) ≡ true) ↔ (
          (is_approved a ≡ true)
          × ((shares : F) × (whole (a.approved_qty *F throttle) ≡ some shares)
              × (validate_entry cfg q (max (num 0) shares) ≡ some EntryResult.entry_passed)))
  unfolding decide is_allowed
  decide-allowed_iff cfg q throttle a = elim (Option-cases (whole (a.approved_qty *F throttle))) [
    | inl raised ↦ (λ h. ground arith, λ (x, (n, e, _)). ground (arith, e))
    | inr (n, e) ↦
        (λ h. (ground arith, (n, e, ground arith)), λ (x, (m, e', v)). ground (arith, x, e', v))
  ]

  -- The strategy's state lets it trade, the lab has it enabled and the regime recommends it.
  abbrev pub IsGovernanceOpen : Request F → StrategyRecord F → Type 0
  IsGovernanceOpen q r =
      (is_tradeable_state r.state ≡ true)
      × (contains q.lab_enabled q.proposal.strategy ≡ true)
      × (contains q.regime_recommended r.name ≡ true)

  strategy_gate-allowed_iff :
      (q : Request F) (r : StrategyRecord F)
      → ((strategy_gate q r).allowed ≡ true) ↔ IsGovernanceOpen q r
  unfolding strategy_gate
  strategy_gate-allowed_iff q r =
      let lab = contains q.lab_enabled q.proposal.strategy in
      let rule = evaluate_strategy-allowed_iff r q.proposal.regime q.regime_recommended lab in
      (λ h. ground (arith, rule), λ h. ground (arith, rule, h))

  decide_gated-allowed_iff :
      (cfg : Settings F) (q : Request F) (r : StrategyRecord F)
      → (lets_through (decide_gated cfg q (strategy_gate q r)) ≡ true) ↔ (
          IsGovernanceOpen q r
          × ((a : RiskDecision F) × ((shares : F) × IsApprovedEntry cfg q
                  (strategy_gate q r).size_multiplier
                  a
                  shares)))
  unfolding decide_gated is_allowed
  decide_gated-allowed_iff cfg q r =
      let throttle = (strategy_gate q r).size_multiplier in
      let advanced = evaluate_advanced cfg q.proposal q.state in
      (
        λ h. elim (Option-cases advanced) [
          | inl raised ↦ ground (arith, h, raised)
          | inr (a, e) ↦
              let gate : (strategy_gate q r).allowed ≡ true = ground (arith, h) in
              let decided : lets_through (decide cfg q throttle a) ≡ true = ground (arith, h, e) in
              let (fine, (n, w, v)) = (decide-allowed_iff cfg q throttle a).0 decided in
              (
                (strategy_gate-allowed_iff q r).0 gate,
                (a, (n, (e, fine, w, (validate_entry-passed_iff cfg q (max (num 0) n)).0 v))),
              )
        ],
        λ (opened, (a, (n, (e, fine, w, v)))).
            let gate = (strategy_gate-allowed_iff q r).1 opened in
            let passed = (validate_entry-passed_iff cfg q (max (num 0) n)).1 v in
            let decided = (decide-allowed_iff cfg q throttle a).1 (fine, (n, w, passed)) in
            ground (arith, e, gate, decided),
      )

  -- The unified engine lets a trade through exactly when the governance has its strategy open, the
  -- advanced engine approves it, and what the throttle leaves of the approved size is a valid entry: a
  -- share at least, with its stop below the entry, of a symbol that is not held, in the market's hours
  -- where they are enforced, and near the price known for it.
  pub evaluate_trade-allowed_iff :
      (cfg : Settings F) (now : String) (cached : Option (Records F)) (q : Request F) (e : Engine F)
      → let r = record_of now q.proposal.strategy (ensure_loaded now cached e) in
        (lets_through (evaluate_trade cfg now cached q e).0 ≡ true) ↔ (
          IsGovernanceOpen q r
          × ((a : RiskDecision F) × ((shares : F) × IsApprovedEntry cfg q
                  (strategy_gate q r).size_multiplier
                  a
                  shares)))
  unfolding evaluate_trade
  evaluate_trade-allowed_iff cfg now cached q e =
      decide_gated-allowed_iff cfg q
        (record_of now q.proposal.strategy (ensure_loaded now cached e))

  -- A trade that is let through has the whole shares that the throttle leaves of the advanced engine's
  -- size, and at least one; it counts as reduced exactly when the streak's and the volatility's factor
  -- or the throttle is below one; and its multiplier is their product.
  pub evaluate_trade-size :
      (cfg : Settings F) (now : String) (cached : Option (Records F)) (q : Request F) (e : Engine F)
      (d : UnifiedRiskDecision F)
      → (evaluate_trade cfg now cached q e).0 ≡ some d
      → is_allowed d ≡ true
      → let r = record_of now q.proposal.strategy (ensure_loaded now cached e) in
        let throttle = (strategy_gate q r).size_multiplier in
        (a : RiskDecision F) × (evaluate_advanced cfg q.proposal q.state ≡ some a)
        × ((shares : F) × (whole (a.approved_qty *F throttle) ≡ some shares)
            × (d.final_quantity ≡ max (num 1) (max (num 0) shares))
            × (d.size_multiplier ≡ a.size_multiplier *F throttle)
            × (d.verdict ≡ (
                if (a.size_multiplier <F num 1) || (throttle <F num 1)
                then Verdict.reduce_size
                else Verdict.allow)))
  unfolding evaluate_trade decide_gated decide is_allowed
  evaluate_trade-size cfg now cached q e d h ok =
      let r = record_of now q.proposal.strategy (ensure_loaded now cached e) in
      let throttle = (strategy_gate q r).size_multiplier in
      elim (Option-cases (evaluate_advanced cfg q.proposal q.state)) [
        | inl raised ↦ ground (arith, raised)
        | inr (a, made) ↦ elim (Option-cases (whole (a.approved_qty *F throttle))) [
          | inl raised ↦ ground (arith, made, raised)
          | inr (n, w) ↦ (
            a,
            made,
            (n, w, ground (arith, made, w), ground (arith, made, w), ground (arith, made, w)),
          )
        ]
      ]

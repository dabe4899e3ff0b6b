-- ===== src/Risk/Unified.antt =====
-- services/risk/unified.py: UnifiedRiskEngine. The market's data, the clock and Redis' answer are
-- arguments; `none` is an exception. Audit records are not modelled.
use apex_trader.Base.{
  String, Bool, true, false, not, ◌&&◌, ◌||◌, Option, none, some, List, [], ◌∷◌, ◌++◌, any,
  if◌then◌else◌, str_eq, ◌>>=◌,
}
use apex_trader.Base.Floats.{FloatOps, ◌-F◌, ◌*F◌, ◌/F◌, ◌<F◌, ◌≤F◌, num, abs, max, whole}
use apex_trader.Base.Dict.{contains}
use apex_trader.Base.CaseMap.{CaseMap}
use apex_trader.Config.{Settings, TradingMode, is_live, is_shadow, is_paper}
use apex_trader.Governance.Models.{
  Reason as GovernanceReason, StrategyRecord, GovernanceDecision, is_tradeable_state, reason_or,
}
use apex_trader.Governance.Policy.{evaluate_strategy}
use apex_trader.Governance.Store.{Records}
use apex_trader.Governance.Engine.{Engine, ensure_loaded, record_of}
use apex_trader.Icb.Types.{Clock, market_open}
use apex_trader.Portfolio.Models.{PortfolioState}
use apex_trader.Risk.Types.{
  RiskVerdict, AdvancedRiskState, TradeProposal, RiskCheck, EntryResult, Reason, RiskDecision,
  is_approved,
}
use apex_trader.Risk.Engine.{check}
use apex_trader.Risk.Advanced.{evaluate_advanced}

pub data Verdict : Type 0 where
  allow reduce_size reject : Verdict

pub record UnifiedRiskDecision (F : Type 0) : Type 0 where
  pub verdict : Verdict
  pub final_quantity : F
  pub reason : Reason F
  pub checks : List RiskCheck
  pub size_multiplier : F

-- `approved`
unfoldable pub is_allowed : {F : Type 0} → UnifiedRiskDecision F → Bool
is_allowed d = elim d.verdict [ Verdict.reject ↦ false | _ ↦ true ]

abbrev mapped_verdict : Verdict → RiskVerdict
mapped_verdict Verdict.allow = RiskVerdict.approved
mapped_verdict Verdict.reduce_size = RiskVerdict.reduced
mapped_verdict Verdict.reject = RiskVerdict.rejected

abbrev pub to_risk_decision : {F : Type 0} → UnifiedRiskDecision F → RiskDecision F
to_risk_decision d = record {
  verdict = mapped_verdict d.verdict;
  approved_qty = d.final_quantity;
  checks = d.checks;
  reason = d.reason;
  size_multiplier = d.size_multiplier;
}

-- What the market data service answers for the symbol: whether it has a real source, the last price
-- that it has, and the last synthetic close.
pub record MarketData (F : Type 0) : Type 0 where
  pub has_real_data : Bool
  pub ltp : Option F
  pub synthetic_close : Option F

-- The arguments of `evaluate_trade`.
pub record Request (F : Type 0) : Type 0 where
  pub proposal : TradeProposal F
  pub state : AdvancedRiskState F
  pub portfolio : PortfolioState F
  pub market_data : MarketData F
  pub trading_mode : TradingMode
  pub regime_recommended : List String
  pub lab_enabled : List String
  pub clock : Clock

-- `_validate_entry` asks for the market's hours in live and in paper trading.
abbrev pub checks_hours : {F : Type 0} → Settings F → TradingMode → Bool
checks_hours cfg mode = (is_live mode || is_paper mode) && cfg.enforce_market_hours

module _ {F : Type 0} ⦃o : FloatOps F⦄ ⦃u : CaseMap⦄ where
  -- `_strategy_gate`, after `ensure_loaded`, on the strategy's record.
  unfoldable pub strategy_gate : Request F → StrategyRecord F → GovernanceDecision F
  strategy_gate q r =
      if not (is_tradeable_state r.state)
      then record {
        allowed = false;
        state = r.state;
        reason = reason_or r.reason (GovernanceReason.strategy_is r.state);
        size_multiplier = num 1;
      }
      else evaluate_strategy r q.proposal.regime q.regime_recommended
          (contains q.lab_enabled q.proposal.strategy)

  abbrev real_price : MarketData F → Option F
  real_price m =
      if m.has_real_data
      then elim m.ltp [ none ↦ none | some x ↦ if num 0 <F x then some x else none ]
      else none

  abbrev price_or : Option F → F → F
  price_or none x = x
  price_or (some y) x = y

  -- `_reference_price`; `none` is its `RuntimeError`.
  unfoldable pub reference_price : Settings F → F → MarketData F → Option F
  reference_price cfg fallback m = elim (real_price m) [
    | some x ↦ some x
    | none ↦
        if is_live cfg.trading_mode || is_shadow cfg.trading_mode
        then none
        else some (price_or m.synthetic_close fallback)
  ]

  unfoldable pub is_held : String → PortfolioState F → Bool
  is_held symbol s = any (λ p. str_eq (u.upper p.symbol) (u.upper symbol)) s.positions

  unfoldable pub deviates : Settings F → F → F → Bool
  deviates cfg entry ltp =
      (num 0 <F ltp)
      && (num 0 <F entry)
      && (cfg.max_entry_deviation_pct <F abs (ltp -F entry) /F entry *F num 100)

  -- `_validate_entry`, of the whole quantity: what it finds. The quantity it returns is that one.
  unfoldable pub validate_entry : Settings F → Request F → F → Option EntryResult
  validate_entry cfg q approved_qty =
      let p = q.proposal in
      if approved_qty <F num 1
      then some EntryResult.below_one_share
      else if (p.stop_loss ≤F num 0) || (p.entry ≤F p.stop_loss)
      then some EntryResult.stop_not_below_entry
      else if is_held p.symbol q.portfolio
      then some EntryResult.already_held
      else if checks_hours cfg q.trading_mode && not (market_open cfg.enforce_market_hours q.clock)
      then some EntryResult.market_closed
      else do
        ltp ← reference_price cfg p.entry q.market_data
        some (
            if deviates cfg p.entry ltp
            then EntryResult.price_deviates
            else EntryResult.entry_passed)

  abbrev rejected : Reason F → List RiskCheck → F → UnifiedRiskDecision F
  rejected reason checks m = record {
    verdict = Verdict.reject;
    final_quantity = num 0;
    reason = reason;
    checks = checks;
    size_multiplier = m;
  }

  -- `advanced.reason or "Risk approved"`; the messages of an approval are not empty.
  abbrev final_decision : RiskDecision F → F → F → EntryResult → UnifiedRiskDecision F
  final_decision a throttle qty EntryResult.entry_passed = record {
    verdict =
        if (a.size_multiplier <F num 1) || (throttle <F num 1)
        then Verdict.reduce_size
        else Verdict.allow;
    final_quantity = max (num 1) qty;
    reason = a.reason;
    checks = a.checks;
    size_multiplier = a.size_multiplier *F throttle;
  }
  final_decision a throttle qty found =
      rejected (Reason.entry_validation found) (a.checks ++ (check "entry_validation" false ∷ []))
        (num 1)

  -- From the advanced decision on.
  unfoldable pub decide :
      Settings F → Request F → F → RiskDecision F → Option (UnifiedRiskDecision F)
  decide cfg q throttle a =
      if not (is_approved a) then some (rejected a.reason a.checks a.size_multiplier) else do
        shares ← whole (a.approved_qty *F throttle)
        found ← validate_entry cfg q (max (num 0) shares)
        some (final_decision a throttle (max (num 0) shares) found)

  unfoldable pub decide_gated :
      Settings F → Request F → GovernanceDecision F → Option (UnifiedRiskDecision F)
  decide_gated cfg q g =
      if not g.allowed
      then some
          (rejected (Reason.governance g.reason) (check "strategy_governance" false ∷ []) (num 1))
      else do a ← evaluate_advanced cfg q.proposal q.state; decide cfg q g.size_multiplier a

  -- `evaluate_trade`, with the governance engine that it loads.
  unfoldable pub evaluate_trade :
      Settings F
      → String
      → Option (Records F)
      → Request F
      → Engine F
      → Option (UnifiedRiskDecision F) × Engine F
  evaluate_trade cfg now cached q e =
      let e' = ensure_loaded now cached e in
      let r = record_of now q.proposal.strategy e' in (decide_gated cfg q (strategy_gate q r), e')

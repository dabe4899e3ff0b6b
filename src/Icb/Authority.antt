-- ===== src/Icb/Authority.antt =====
-- services/icb/engine.py: `_authorize_inner`, the decision on one action, as a chain of gates. A gate
-- answers `none` where the source goes on to its next test.
use apex_trader.Base.{
  String, Bool, not, ◌&&◌, ◌||◌, Option, none, some, List, [], ◌∷◌, if◌then◌else◌, leb, str_eq,
}
use apex_trader.Config.{Settings, is_live}
use apex_trader.Icb.SystemState.{SystemState, safe_mode, active, paused, emergency_lock}
use apex_trader.Icb.Types.{
  Action, is_trading, is_entry, needs_market, survives_lock, is_exit, is_place_order, is_chaos,
  Decision, Reason, Integrity, is_ok, IcbResult, Signals, Halts, halted_portfolio, Clock,
  market_open,
}

-- The context of a request, and what the decision reads besides the state of the system.
pub record Context : Type 0 where
  pub portfolio : Option Halts
  pub watchdog_safe_mode : Bool
  pub risk_status : String
  pub autonomous_running : Bool
  pub signals : Signals
  pub chaos_approved : Bool
  pub chaos_blockers : List String
  pub clock : Clock

unfoldable pub risk_blocks : String → Bool
risk_blocks s = str_eq s "DANGER" || str_eq s "HALTED"

-- `a or b` on texts
unfoldable pub text_or : String → String → String
text_or a b = if str_eq a "" then b else a

abbrev result : Decision → Reason → SystemState → Integrity → Option IcbResult
result d why s i =
    some (record { decision = d; reason = why; system_state = s; crce_integrity = i })

abbrev first_blocker : List String → String
first_blocker [] = "Chaos gate failed — LIVE blocked"
first_blocker (b ∷ bs) = b

-- Chaos tests are decided before anything else.
unfoldable pub chaos_gate : SystemState → Action → Context → Option IcbResult
chaos_gate s action ctx =
    if is_chaos action
    then if ctx.autonomous_running
      then result Decision.deny (Reason.text "Stop autonomous engine before running chaos tests") s
          Integrity.ok
      else result Decision.allow (Reason.text "Chaos testing authorized") s Integrity.ok
    else none

-- The tests on the state of the system. `why` is the stored reason, `safe_why` the brain's own.
unfoldable pub state_gate : SystemState → String → String → Action → Option IcbResult
unfolding text_or
state_gate emergency_lock why safe_why action =
    if survives_lock action
    then none
    else result Decision.lock (Reason.text (text_or why "EMERGENCY_LOCK — manual reset required"))
        emergency_lock Integrity.ok
state_gate safe_mode why safe_why action =
    if is_trading action
    then result Decision.deny (Reason.text (text_or safe_why (text_or why "SAFE_MODE active")))
        safe_mode Integrity.ok
    else none
state_gate paused why safe_why action =
    if is_entry action
    then result Decision.pause_system (Reason.text (text_or why "System PAUSED — analysis only"))
        paused Integrity.ok
    else none
state_gate active why safe_why action = none

abbrev pub first : Option IcbResult → IcbResult → IcbResult
first none rest = rest
first (some r) rest = r

module _ {F : Type 0} where
  -- The tests on the signals.
  unfoldable pub signal_gate : Settings F → SystemState → Action → Context → Option IcbResult
  signal_gate cfg s action ctx =
      let integrity = ctx.signals.crce_integrity in
      let drifts = ctx.signals.drift_count in
      if ctx.signals.reconciliation_degraded && is_trading action
      then result Decision.deny (Reason.text "Broker reconciliation degraded — trading stopped")
          (if is_place_order action then safe_mode else s) integrity
      else if leb cfg.icb_drift_restrict_threshold drifts && is_entry action
      then result Decision.deny (Reason.drift_detected drifts cfg.icb_drift_restrict_threshold) s
          integrity
      else if is_live cfg.trading_mode && not (is_ok integrity)
      then result Decision.deny (Reason.text "CRCE integrity failure — LIVE blocked") safe_mode
          integrity
      else if is_live cfg.trading_mode && is_trading action && not ctx.chaos_approved
      then result Decision.deny (Reason.text (first_blocker ctx.chaos_blockers)) s integrity
      else none

  -- The tests on the risk status, the market's hours and the portfolio.
  unfoldable pub context_gate : Settings F → SystemState → Action → Context → Option IcbResult
  context_gate cfg s action ctx =
      let integrity = ctx.signals.crce_integrity in
      if is_trading action && risk_blocks ctx.risk_status
      then result Decision.deny (Reason.risk_status ctx.risk_status) s integrity
      else if needs_market action && not (market_open cfg.enforce_market_hours ctx.clock)
      then result Decision.deny (Reason.text "Market closed") s integrity
      else if halted_portfolio ctx.portfolio && is_trading action && not (is_exit action)
      then result Decision.lock (Reason.text "Trading halted — kill switch active") emergency_lock
          Integrity.ok
      else none

  -- `_authorize_inner`, in the state that `_resolve_state` found.
  unfoldable pub authorize_inner :
      Settings F → SystemState → String → String → Action → Context → IcbResult
  authorize_inner cfg s why safe_why action ctx = first (chaos_gate s action ctx) (
      first (state_gate s why safe_why action) (
        first (signal_gate cfg s action ctx) (
          first (context_gate cfg s action ctx) (record {
            decision = Decision.allow;
            reason = Reason.text "Authority checks passed";
            system_state = s;
            crce_integrity = ctx.signals.crce_integrity;
          }))))

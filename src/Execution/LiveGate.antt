-- ===== src/Execution/LiveGate.antt =====
-- services/execution/live_gate.py: LiveSafetyGate. What the other services answer is an argument, in
-- `LiveAnswers`; the reports of the chaos and the evidence gates are lists of texts.
use apex_trader.Base.{
  String, Bool, true, false, not, ◌&&◌, ◌||◌, List, [], ◌∷◌, ◌++◌, map, ltb, str_eq,
}
use apex_trader.Base.Floats.{FloatOps, ◌+F◌, ◌*F◌, ◌<F◌, ◌≤F◌, num}
use apex_trader.Base.CaseMap.{CaseMap}
use apex_trader.Config.{Settings, is_live}
use apex_trader.Portfolio.Models.{sum_from}
use apex_trader.Portfolio.Manager.{Manager, is_trading_halted}
use apex_trader.Shadow.Engine.{WeeklyReport}
use apex_trader.Execution.Orders.{Blocker}

pub record LiveAnswers : Type 0 where
  pub owner_active : Bool
  pub real_data : Bool
  pub repo_healthy : Bool
  pub live_ready : Bool
  pub connected : Bool
  pub live_capital_blockers : List String
  pub validation_blockers : List String

-- `if condition: blockers.append(...)`
abbrev pub when : Bool → Blocker → List Blocker
when true b = b ∷ []
when false b = []

module _ {F : Type 0} ⦃o : FloatOps F⦄ where
  -- The ledger's equity is more than the cash and the positions at their entries, by over one.
  unfoldable pub exceeds_backing : Manager F → Bool
  exceeds_backing m =
      let held = sum_from (λ p. p.qty *F p.entry) (num 0) m.state.positions in
      m.state.cash +F held +F num 1 <F m.state.equity

  unfoldable pub lacks_history : Settings F → WeeklyReport F → Bool
  lacks_history cfg shadow =
      ltb shadow.active_days cfg.golive_min_shadow_days
      || ltb shadow.completed_trades cfg.golive_min_completed_trades
      || (shadow.total_shadow_pnl ≤F num 0)

  module _ ⦃u : CaseMap⦄ where
    abbrev pub is_kite : Settings F → Bool
    is_kite cfg = str_eq (u.lower cfg.default_broker) "kite"

    -- `LiveSafetyGate.check`: the blockers, in the order of the source.
    unfoldable pub check : Settings F → LiveAnswers → WeeklyReport F → Manager F → List Blocker
    check cfg a shadow m =
        when (is_live cfg.trading_mode && not a.owner_active) Blocker.no_ownership
        ++ when (not a.real_data) Blocker.no_real_data
        ++ when (not a.repo_healthy) Blocker.database_down
        ++ when (a.repo_healthy && not m.persistence_ok) Blocker.portfolio_not_loaded
        ++ when (not (is_kite cfg)) Blocker.not_kite
        ++ when (not a.live_ready) Blocker.broker_not_ready
        ++ when (not a.connected) Blocker.not_connected
        ++ when cfg.kite_autoslice Blocker.autoslice_on
        ++ when (not cfg.enable_live_execution) Blocker.live_disabled
        ++ when (exceeds_backing m) Blocker.capital_exceeds_backing
        ++ when (not cfg.golive_approved) Blocker.not_approved
        ++ when (is_trading_halted m.state) Blocker.halted
        ++ when (is_kite cfg && not cfg.kite_static_ip_confirmed) Blocker.ip_not_confirmed
        ++ map Blocker.reported a.live_capital_blockers
        ++ map Blocker.reported a.validation_blockers
        ++ when (lacks_history cfg shadow) Blocker.short_history

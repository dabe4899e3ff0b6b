-- ===== src/Portfolio/Models.antt =====
-- services/portfolio/models.py: positions and the state of the portfolio.
use apex_trader.Base.{ℕ, String, Bool, Option, List, [], ◌∷◌, if◌then◌else◌, length}
use apex_trader.Base.Floats.{FloatOps, ◌+F◌, ◌*F◌, ◌=F◌, num, min, max}
use apex_trader.Risk.Types.{RiskState}

pub record PositionView (F : Type 0) : Type 0 where
  pub symbol : String
  pub qty : F
  pub entry : F
  pub stop_loss : F
  pub take_profit : F
  pub strategy : String
  pub unrealized_pnl : F
  pub risk_pct : F
  pub broker_order_id : String
  pub stop_order_id : String
  pub db_id : Option ℕ

pub record PortfolioState (F : Type 0) : Type 0 where
  pub equity : F
  pub cash : F
  pub positions : List (PositionView F)
  pub daily_pnl : F
  pub weekly_pnl : F
  pub monthly_pnl : F
  pub peak_equity : F
  pub buying_power : F
  pub consecutive_losses : ℕ
  pub emergency_halt : Bool
  pub circuit_breaker : Bool
  pub black_swan_mode : Bool

module _ {F : Type 0} ⦃o : FloatOps F⦄ where
  -- `sum(f(p) for p in positions)`, added from the left on to `acc`
  unfoldable pub sum_from : (PositionView F → F) → F → List (PositionView F) → F
  sum_from f acc [] = acc
  sum_from f acc (p ∷ ps) = sum_from f (acc +F f p) ps

  unfoldable pub to_risk_state : PortfolioState F → RiskState F
  unfolding sum_from
  to_risk_state s =
      let held = sum_from (λ p. p.qty *F p.entry) (num 0) s.positions in
      record {
        equity = max (num 0) (min s.equity (s.cash +F held));
        cash = s.cash;
        daily_pnl = s.daily_pnl;
        weekly_pnl = s.weekly_pnl;
        peak_equity = if s.peak_equity =F num 0 then s.equity else s.peak_equity;
        open_positions = length s.positions;
        portfolio_heat_pct = sum_from (λ p. p.risk_pct) (num 0) s.positions;
        consecutive_losses = s.consecutive_losses;
        emergency_halt = s.emergency_halt;
        circuit_breaker = s.circuit_breaker;
      }

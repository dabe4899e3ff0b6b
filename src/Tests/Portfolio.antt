-- ===== src/Tests/Portfolio.antt =====
-- services/portfolio on an account that holds two symbols.
use apex_trader.Base.{
  ◌≡◌, refl, ◌+◌, ◌-◌, ℕ, String, true, false, none, some, List, [], ◌∷◌, arith, if◌then◌else◌,
}
use apex_trader.Base.Floats.{num, ◌+F◌, ◌*F◌, ◌<F◌}
use apex_trader.Portfolio.Models.{PositionView, to_risk_state}
use apex_trader.Portfolio.Manager.{
  Manager, ExitResult, is_trading_halted, find_position, record_exit,
}
use apex_trader.Portfolio.Halting.{Call, perform, perform_all, halt_lasts}
use apex_trader.Portfolio.Exits.{record_exit_lem, IsPeaked, perform_all-IsPeaked}
use apex_trader.Risk.Engine.{evaluate}
use apex_trader.Risk.Approval.{approves}
use apex_trader.Tests.Samples.{milli, capitals, settings}
use apex_trader.Tests.Risk.{trade}

abbrev pub position : String → ℕ → ℕ → PositionView ℕ
position symbol qty entry = record {
  symbol = symbol;
  qty = num qty;
  entry = num entry;
  stop_loss = num (entry - 10);
  take_profit = num (entry + 30);
  strategy = "momentum";
  unrealized_pnl = num 0;
  risk_pct = num 1;
  broker_order_id = "b1";
  stop_order_id = "s1";
  db_id = none;
}

abbrev pub manager : Manager ℕ
manager = record {
  state = record {
    equity = num 100000;
    cash = num 50000;
    positions = position "INFY" 10 1500 ∷ position "TCS" 5 3000 ∷ [];
    daily_pnl = num 0;
    weekly_pnl = num 0;
    monthly_pnl = num 0;
    peak_equity = num 100000;
    buying_power = num 0;
    consecutive_losses = 2;
    emergency_halt = false;
    circuit_breaker = false;
    black_swan_mode = false;
  };
  persistence_ok = true;
}

abbrev lost_write : Call ℕ
lost_write = Call.fill (position "SBIN" 3 800) true false

abbrev later : List (Call ℕ)
later = Call.exit "TCS" (num 3100) (num 500) none true true ∷ Call.saving true ∷ []

halt_lasts_example :
    (is_trading_halted (perform_all later (perform lost_write manager)).state ≡ true)
    × (approves (
          evaluate settings trade
            (to_risk_state (perform_all later (perform lost_write manager)).state))
        ≡ false)
halt_lasts_example = halt_lasts settings trade lost_write later manager refl

record_exit_lem_example :
    let (m', result) = record_exit "INFY" (num 1550) (num 200) (some (num 4)) true true manager in
    let s = manager.state in
    (result ≡ ExitResult.returned true)
    × (m'.state.equity ≡ s.equity +F num 200)
    × (m'.state.daily_pnl ≡ s.daily_pnl +F num 200)
    × (m'.state.weekly_pnl ≡ s.weekly_pnl +F num 200)
    × (m'.state.monthly_pnl ≡ s.monthly_pnl +F num 200)
    × (m'.state.cash ≡ s.cash +F num 4 *F num 1550)
    × (m'.state.peak_equity
        ≡ (if s.peak_equity <F (s.equity +F num 200) then s.equity +F num 200 else s.peak_equity))
    × (m'.state.consecutive_losses ≡ (if ◌<F◌ {F = ℕ} (num 200) (num 0) then 2 + 1 else 0))
    × (find_position "TCS" m'.state.positions ≡ find_position "TCS" s.positions)
unfolding find_position
record_exit_lem_example =
    record_exit_lem "INFY" "TCS" (num 1550) (num 200) (num 4) true true manager
      (position "INFY" 10 1500) refl refl refl refl

not_below_itself : (x : ℕ) → (x <F x) ≡ false
not_below_itself x = ground arith

perform_all-IsPeaked_example : IsPeaked (perform_all later manager)
perform_all-IsPeaked_example = perform_all-IsPeaked not_below_itself later manager refl

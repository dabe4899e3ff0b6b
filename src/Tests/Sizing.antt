-- ===== src/Tests/Sizing.antt =====
-- services/sizing on an account of a million and a trade at 1500 with a stop at 1480.
use apex_trader.Base.{◌≡◌, ◌⊎◌, refl, ℕ, arith, true, false, none, some, ltb}
use apex_trader.Base.Floats.{num, ratio, divided, whole}
use mathlib.Core.Option.{get_or}
use apex_trader.Sizing.Engine.{
  fixed_risk, SizeInput, SizeResult, compute, method_qty, risk_budget, max_qty, max_capital,
  cap_basis, final_size,
}
use apex_trader.Sizing.Bounds.{IsSized, compute-bounds}
use apex_trader.Tests.Samples.{milli, settings}

abbrev input : SizeInput ℕ
input = record {
  equity = num 1000000;
  entry = num 1500;
  stop_loss = num 1480;
  buying_power = none;
  cash = some (num 400000);
  daily_pnl = num 0;
  open_notional = num 0;
  atr = num 0;
  volatility_pct = num 40;
  win_rate = num 50;
  avg_win_loss_ratio = ratio 15 10;
  portfolio_heat_pct = num 0;
  risk_multiplier = num 1;
}

abbrev nothing : SizeResult ℕ
nothing = record {
  qty = num 0;
  method = fixed_risk;
  risk_pct = num 0;
  risk_rs = num 0;
  capped = true;
}

abbrev size : SizeResult ℕ
size = get_or (compute settings fixed_risk input) nothing

-- The risk budget is 5000, so the stop and the costs allow more than the capital does.
size_made : (compute settings fixed_risk input ≡ some size) × (size.qty ≡ num 166)
unfolding compute method_qty divided whole risk_budget max_qty max_capital cap_basis final_size
size_made = (refl, refl)

lt_irrefl : (x : ℕ) → ltb x x ≡ false
lt_irrefl x = ground arith

compute-bounds_example : (size.qty ≡ num 0) ⊎ IsSized settings input size
compute-bounds_example = compute-bounds lt_irrefl refl settings fixed_risk input size size_made.0

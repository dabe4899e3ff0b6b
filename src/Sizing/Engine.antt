-- ===== src/Sizing/Engine.antt =====
-- services/sizing/engine.py: PositionSizingEngine. `none` is an exception: a division by zero, or
-- `int` of a number that is not finite. The texts of the details are left out.
use apex_trader.Base.{Bool, true, ◌||◌, Option, none, some, if◌then◌else◌, ◌>>=◌}
use apex_trader.Base.Floats.{
  FloatOps, ◌+F◌, ◌-F◌, ◌*F◌, ◌/F◌, ◌<F◌, ◌≤F◌, ◌=F◌, num, ratio, abs, min, max, divided, whole,
}
use apex_trader.Config.{Settings}

pub data SizingMethod : Type 0 where
  fixed_risk atr volatility kelly portfolio : SizingMethod

pub record SizeInput (F : Type 0) : Type 0 where
  pub equity : F
  pub entry : F
  pub stop_loss : F
  pub buying_power : Option F
  pub cash : Option F
  pub daily_pnl : F
  pub open_notional : F
  pub atr : F
  pub volatility_pct : F
  pub win_rate : F
  pub avg_win_loss_ratio : F
  pub portfolio_heat_pct : F
  pub risk_multiplier : F

pub record SizeResult (F : Type 0) : Type 0 where
  pub qty : F
  pub method : SizingMethod
  pub risk_pct : F
  pub risk_rs : F
  pub capped : Bool

module _ {F : Type 0} ⦃o : FloatOps F⦄ where
  abbrev pub per_share_risk : SizeInput F → F
  per_share_risk inp = abs (inp.entry -F inp.stop_loss)

  abbrev pub max_risk_pct : Settings F → SizeInput F → F
  max_risk_pct cfg inp = cfg.max_risk_per_trade_pct *F max (num 0) (min (num 1) inp.risk_multiplier)

  abbrev pub heat_room : Settings F → SizeInput F → F
  heat_room cfg inp = max (num 0) (cfg.max_portfolio_heat_pct -F inp.portfolio_heat_pct)

  -- The risk budget, which the portfolio method lowers.
  unfoldable pub risk_budget : Settings F → SizingMethod → SizeInput F → F
  risk_budget cfg SizingMethod.portfolio inp =
      inp.equity *F min (max_risk_pct cfg inp) (heat_room cfg inp) /F num 100
  risk_budget cfg _ inp = inp.equity *F max_risk_pct cfg inp /F num 100

  abbrev fixed_qty : Settings F → SizingMethod → SizeInput F → Option F
  fixed_qty cfg method inp = divided (risk_budget cfg method inp) (per_share_risk inp)

  abbrev kelly_fraction : Settings F → SizeInput F → F
  kelly_fraction cfg inp =
      let w = inp.win_rate /F num 100 in
      let r = inp.avg_win_loss_ratio in
      min (if num 0 <F r then max (num 0) (w -F (num 1 -F w) /F r) else num 0)
        cfg.kelly_cap_fraction

  -- The quantity that each method asks for.
  unfoldable pub method_qty : Settings F → SizingMethod → SizeInput F → Option F
  method_qty cfg SizingMethod.atr inp =
      if num 0 <F inp.atr
      then divided (risk_budget cfg SizingMethod.atr inp)
          (max (inp.atr *F ratio 15 10) (per_share_risk inp))
      else fixed_qty cfg SizingMethod.atr inp
  method_qty cfg SizingMethod.volatility inp =
      let factor = max (ratio 3 10) (min (num 1) (num 20 /F max inp.volatility_pct (num 1))) in
      do qty ← fixed_qty cfg SizingMethod.volatility inp; some (qty *F factor)
  method_qty cfg SizingMethod.kelly inp = divided (inp.equity *F kelly_fraction cfg inp) inp.entry
  method_qty cfg SizingMethod.portfolio inp = fixed_qty cfg SizingMethod.portfolio inp
  method_qty cfg SizingMethod.fixed_risk inp = fixed_qty cfg SizingMethod.fixed_risk inp

  abbrev costs : Settings F → SizeInput F → F
  costs cfg inp =
      inp.entry
      *F (cfg.estimated_round_trip_cost_bps +F cfg.estimated_exit_slippage_bps)
      /F num 10000

  abbrev daily_room : Settings F → SizeInput F → F
  daily_room cfg inp =
      max (num 0) (inp.equity *F cfg.max_daily_loss_pct /F num 100 +F min (num 0) inp.daily_pnl)

  -- `min(risk_budget, daily_room, heat_room_rs)`
  abbrev loss_room : Settings F → SizingMethod → SizeInput F → F
  loss_room cfg method inp =
      min (min (risk_budget cfg method inp) (daily_room cfg inp))
        (inp.equity *F heat_room cfg inp /F num 100)

  abbrev or_else : Option F → F → F
  or_else none x = x
  or_else (some y) x = max (num 0) y

  -- `_cap_basis`
  unfoldable pub cap_basis : SizeInput F → F
  cap_basis inp =
      let cash = or_else inp.cash inp.equity in
      min (min inp.equity cash) (or_else inp.buying_power cash)

  unfoldable pub max_capital : Settings F → SizeInput F → F
  max_capital cfg inp =
      let spendable = num 1 -F cfg.cash_reserve_pct /F num 100 in
      min (min (inp.equity *F cfg.max_position_value_pct /F num 100) (cap_basis inp *F spendable))
        (max (num 0) (inp.equity *F spendable -F inp.open_notional))

  unfoldable pub max_qty : Settings F → SizeInput F → F
  max_qty cfg inp = if num 0 <F inp.entry then max_capital cfg inp /F inp.entry else num 0

  -- `max(1.0, float(cfg.sizing_risk_breach_tolerance or 1.01))`
  abbrev pub tolerance : Settings F → F
  tolerance cfg = max (num 1) (
      if cfg.sizing_risk_breach_tolerance =F num 0
      then ratio 101 100
      else cfg.sizing_risk_breach_tolerance)

  abbrev refused : SizingMethod → F → F → SizeResult F
  refused method risk_pct risk_rs = record {
    qty = num 0;
    method = method;
    risk_pct = risk_pct;
    risk_rs = risk_rs;
    capped = true;
  }

  abbrev pub risk_rs_of : SizeInput F → F → F
  risk_rs_of inp qty = qty *F per_share_risk inp

  abbrev pub risk_pct_of : SizeInput F → F → F
  risk_pct_of inp qty =
      if inp.equity =F num 0 then num 0 else risk_rs_of inp qty /F inp.equity *F num 100

  -- The result for a quantity that was made whole and capped.
  unfoldable pub final_size : Settings F → SizingMethod → SizeInput F → Bool → F → SizeResult F
  final_size cfg method inp capped qty =
      let risk_rs = risk_rs_of inp qty in
      let risk_pct = risk_pct_of inp qty in
      if qty <F num 1
      then refused method (num 0) (num 0)
      else if max_risk_pct cfg inp *F tolerance cfg <F risk_pct
      then refused method (o.round risk_pct 3) (o.round risk_rs 2)
      else record {
        qty = qty;
        method = method;
        risk_pct = o.round risk_pct 3;
        risk_rs = o.round risk_rs 2;
        capped = capped;
      }

  unfoldable pub compute : Settings F → SizingMethod → SizeInput F → Option (SizeResult F)
  compute cfg method inp =
      if (inp.entry ≤F inp.stop_loss) || (inp.equity ≤F num 0)
      then some (refused method (num 0) (num 0))
      else do
        asked ← method_qty cfg method inp
        afforded ← divided (loss_room cfg method inp) (per_share_risk inp +F costs cfg inp)
        shares ← whole (min asked afforded)
        cap ← whole (max_qty cfg inp)
        some (
            final_size cfg method inp (max_qty cfg inp <F min asked afforded)
              (max (num 0) (min shares cap)))

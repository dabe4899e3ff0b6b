-- ===== src/Sizing/Bounds.antt =====
-- services/sizing/engine.py: what is known of a quantity that `compute` gives. The numbers are floats,
-- with the two facts on their order that the proof uses as hypotheses.
use apex_trader.Base.{◌≡◌, ◌⊎◌, arith, true, false, some}
use apex_trader.Base.Floats.{FloatOps, ◌*F◌, ◌<F◌, ◌≤F◌, num, whole}
use apex_trader.Config.{Settings}
use apex_trader.Sizing.Engine.{
  SizingMethod, SizeInput, SizeResult, max_risk_pct, tolerance, risk_rs_of, risk_pct_of, max_qty,
  final_size, compute,
}

module _ {F : Type 0} ⦃o : FloatOps F⦄ where
  -- A size that is not refused.
  abbrev pub IsSized : Settings F → SizeInput F → SizeResult F → Type 0
  IsSized cfg inp r =
      ((inp.entry ≤F inp.stop_loss) ≡ false)
      × ((inp.equity ≤F num 0) ≡ false)
      × ((r.qty <F num 1) ≡ false)
      × ((o.trunc (max_qty cfg inp) <F r.qty) ≡ false)
      × ((max_risk_pct cfg inp *F tolerance cfg <F risk_pct_of inp r.qty) ≡ false)
      × (r.risk_pct ≡ o.round (risk_pct_of inp r.qty) 3)
      × (r.risk_rs ≡ o.round (risk_rs_of inp r.qty) 2)

  -- A size that `compute` gives is zero, or at least one share of a long trade, no more than the whole
  -- shares that the capital pays for, and its risk, which is reported, within the limit and its
  -- tolerance.
  pub compute-bounds :
      ((x : F) → (◌<F◌ {F = F} x x) ≡ false)
      → (◌<F◌ {F = F} (num 0) (num 1)) ≡ true
      → (cfg : Settings F) (method : SizingMethod) (inp : SizeInput F) (r : SizeResult F)
      → compute cfg method inp ≡ some r
      → (r.qty ≡ num 0) ⊎ IsSized cfg inp r
  unfolding compute final_size whole
  compute-bounds irrefl positive cfg method inp r h =
      ground (arith, irrefl (num 0), irrefl (o.trunc (max_qty cfg inp)))

-- ===== src/Execution/Watching.antt =====
-- services/execution/lifecycle.py: what the check of a position's stop in live mode rests on.
use apex_trader.Base.{◌≡◌, refl, String, Bool, true, false, not, ◌||◌, str_eq, arith}
use apex_trader.Base.Floats.{FloatOps, ◌-F◌, ◌<F◌, ◌≤F◌, num, ratio, abs}
use apex_trader.Base.CaseMap.{CaseMap}
use apex_trader.Config.{Settings}
use apex_trader.Cache.{Redis, RedisLaws}
use apex_trader.Control.Status.{ReadsAs, set_reconciliation_degraded-ReadsAs}
use apex_trader.Portfolio.Models.{PositionView}
use apex_trader.Execution.Protection.{
  StopProblem, IsProtecting, stop_problem, stop_identity_problem, stop_problem-fine_iff,
}
use apex_trader.Execution.World.{ok, World, Broker, Outside, Market, OrderReport}
use apex_trader.Execution.Run.{◌>>=◌, pure, modify}
use apex_trader.Execution.Rules.{
  Any, Holds, returned, Holds-bind, Holds-pure, Holds-if, Holds-call_at, Holds-any, Holds-keep_fact,
}
use apex_trader.Execution.Engine.Records.{degrade, flags_of}
use apex_trader.Execution.Engine.Submission.{is_fine, or_zero}
use apex_trader.Execution.Attaching.{fine_when}
use apex_trader.Execution.Lifecycle.{StopCheck, held_exposure, is_ambiguous, check_stop}

from_not : (t : Bool) → not t ≡ false → t ≡ true
from_not t h = ground (arith, h)

either_false : (a c : Bool) → (a || c) ≡ false → (a ≡ false) × (c ≡ false)
either_false a c h = ground (arith, h)

-- The broker's report of a position's stop order, from a state of the broker.
abbrev pub IsReport : {F B : Type 0} ⦃b : Broker F B⦄ → B → PositionView F → OrderReport F → Type 0
IsReport ⦃b⦄ st pos report = (b.fetch_order_status pos.stop_order_id st).0 ≡ ok report

module _ {F B W : Type 0} ⦃o : FloatOps F⦄ ⦃u : CaseMap⦄ ⦃b : Broker F B⦄ ⦃x : Outside W⦄
    ⦃r : Redis W⦄ ⦃k : Market F W⦄ where
  -- What each outcome of the check rests on.
  abbrev pub IsJustified :
      Settings F → PositionView F → String → B → StopCheck F → World F B W → Type 0
  IsJustified cfg pos symbol st StopCheck.degraded w = ReadsAs true (flags_of w)
  IsJustified cfg pos symbol st StopCheck.protected w =
      (report : OrderReport F) × (IsReport st pos report
        × IsProtecting report.stop (held_exposure cfg pos symbol))
  IsJustified cfg pos symbol st (StopCheck.stopped_out filled price) w =
      (report : OrderReport F) × (IsReport st pos report
        × (stop_identity_problem report.stop (held_exposure cfg pos symbol) ≡ StopProblem.fine)
        × (str_eq report.stop.status "COMPLETE" ≡ true)
        × (or_zero report.stop.filled_quantity ≡ filled)
        × (or_zero report.average_price ≡ price)
        × ((ratio 1 10000 <F abs (filled -F pos.qty)) ≡ false)
        × ((price ≤F num 0) ≡ false))

  degraded_check :
      (laws : RedisLaws r) (cfg : Settings F) (pos : PositionView F) (symbol : String) (st : B)
      → Holds {F = F} {B = B} {W = W} Any
          (modify degrade >>= λ _. pure StopCheck.degraded)
          (IsJustified cfg pos symbol st)
  unfolding modify degrade ◌>>=◌ pure
  degraded_check laws cfg pos symbol st = record {
    at = λ w p. set_reconciliation_degraded-ReadsAs laws (flags_of w);
  }

  check_stop-Justified :
      (laws : RedisLaws r) (cfg : Settings F) (pos : PositionView F) (symbol : String) (st : B)
      → Holds {F = F} {B = B} {W = W}
          (λ w. w.broker ≡ st)
          (check_stop cfg pos symbol)
          (IsJustified cfg pos symbol st)
  unfolding check_stop
  check_stop-Justified laws cfg pos symbol st =
      Holds-if (str_eq pos.stop_order_id "")
        (λ c. Holds-any (degraded_check laws cfg pos symbol st))
        λ c. Holds-bind (Holds-call_at st _) λ report. Holds-keep_fact λ asked.
          let stop = report.stop in
          let held = held_exposure cfg pos symbol in
          Holds-if (not (is_fine (stop_identity_problem stop held)))
            (λ d. degraded_check laws cfg pos symbol st)
            λ d.
              Holds-if (str_eq stop.status "COMPLETE")
                (λ e.
                  Holds-if (is_ambiguous pos report) (λ f. degraded_check laws cfg pos symbol st)
                    λ f.
                      let (whole_, priced) =
                        either_false
                          (ratio 1 10000 <F abs (or_zero stop.filled_quantity -F pos.qty)) _ f in
                      Holds-pure _ λ w p. (
                        report,
                        (asked, fine_when _ (from_not _ d), e, refl, refl, whole_, priced),
                      ))
                λ e.
                  Holds-if (not (is_fine (stop_problem stop held)))
                    (λ f. degraded_check laws cfg pos symbol st)
                    λ f. Holds-pure _ λ w p. (
                      report,
                      (asked, (stop_problem-fine_iff stop held).0 (fine_when _ (from_not _ f))),
                    )

  -- The check of a stop in live mode takes a position for protected only on the report that the broker gives
  -- of its stop order and by which that protects it, and for stopped out only on a report, of the right
  -- symbol, side, product and exchange, that it is complete, with the position's whole quantity and a price
  -- above zero, and the quantity and the price of the outcome are the report's. In every other case that returns, the reconciliation flag is
  -- set; where Redis keeps what it is given, the flag then also reads as degraded in
  -- `is_reconciliation_degraded`, which asks Redis first, unless Redis has refused this last write.
  pub check_stop-IsJustified :
      (laws : RedisLaws r) (cfg : Settings F) (pos : PositionView F) (symbol : String)
      (w : World F B W) (c : StopCheck F)
      → (check_stop cfg pos symbol w).0 ≡ ok c
      → IsJustified cfg pos symbol w.broker c (check_stop cfg pos symbol w).1
  check_stop-IsJustified laws cfg pos symbol w c h =
      returned (IsJustified cfg pos symbol w.broker) _ c h
        ((check_stop-Justified laws cfg pos symbol w.broker).at w refl)

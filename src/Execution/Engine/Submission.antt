-- ===== src/Execution/Engine/Submission.antt =====
-- services/execution/execution_engine.py: the orders that go to the broker, with their retries, their
-- protective stops and what is done about an unknown outcome. The waits between retries are not
-- modelled, nor is the cancellation of the task, which the retries outside of live mode let through
-- (`except Exception`). A quantity in a broker's report is a number or is missing.
use apex_trader.Base.{
  ℕ, zero, suc, String, Bool, true, false, ◌||◌, Option, none, some, if◌then◌else◌, str_eq,
}
use Prim.Native.String.{◌++◌ as ◌<>◌}
use apex_trader.Base.Floats.{FloatOps, ◌=F◌, num}
use apex_trader.Base.CaseMap.{CaseMap}
use apex_trader.Config.{Settings, is_live}
use apex_trader.Cache.{Redis}
use apex_trader.Execution.Orders.{
  OrderType, OrderStatus, OrderRequest, OrderResult, Message, is_failed,
}
use apex_trader.Execution.Protection.{StopProblem, Exposure}
use apex_trader.Execution.World.{Result, ok, raised, Broker, Outside, OrderReport}
use apex_trader.Execution.Run.{Run, ◌>>=◌, ◌>>◌, pure, outcome, try, call}
use apex_trader.Execution.Engine.Records.{note_failure, note_success, unknown}

-- `max_retries`
abbrev pub max_retries : ℕ
max_retries = 3

-- What `_attach_stop_loss` leaves of the entry, which it changes in place: also when it raises.
pub data Attached (F : Type 0) : Type 0 where
  done : OrderResult F → Attached F
  raised_at : OrderResult F → String → Attached F

-- `status in ("COMPLETE", "CANCELLED", "REJECTED")`
abbrev pub is_final : String → Bool
is_final s = str_eq s "COMPLETE" || str_eq s "CANCELLED" || str_eq s "REJECTED"

abbrev pub is_fine : StopProblem → Bool
is_fine StopProblem.fine = true
is_fine _ = false

abbrev pub given_or : Option String → String → String
given_or none d = d
given_or (some s) d = s

module _ {F : Type 0} ⦃o : FloatOps F⦄ where
  -- `x or 0`, and `x or default`
  abbrev pub or_zero : Option F → F
  or_zero none = num 0
  or_zero (some x) = x

  abbrev pub or_default : F → F → F
  or_default x d = if x =F num 0 then d else x

  -- A result without a fill.
  abbrev pub empty_result : String → String → OrderStatus → Message F → Bool → OrderResult F
  empty_result id broker_id status message is_unknown = record {
    client_order_id = id;
    broker_order_id = broker_id;
    status = status;
    filled_qty = num 0;
    avg_price = num 0;
    slippage_bps = num 0;
    message = message;
    stop_order_id = none;
    unknown = is_unknown;
    stop_fill = false;
  }

  abbrev pub failed_result : OrderRequest F → String → OrderResult F
  failed_result req e =
      empty_result req.client_order_id "" OrderStatus.failed (Message.text e) false

  abbrev pub unknown_result : OrderRequest F → OrderResult F
  unknown_result req =
      empty_result req.client_order_id "" OrderStatus.submitted
        (Message.text "Submission outcome unknown; reconciliation required") true

  -- In live mode a failure may be an order all the same.
  abbrev pub doubted : OrderResult F → OrderResult F
  doubted res =
      if is_failed res.status
      then record res { status = OrderStatus.submitted; unknown = true }
      else res

  -- The entry after the broker's last word on it.
  abbrev pub settled_entry : OrderResult F → OrderReport F → OrderResult F
  settled_entry entry report = record entry {
    filled_qty = or_zero report.stop.filled_quantity;
    avg_price = or_zero report.average_price;
    status =
        if or_zero report.stop.filled_quantity =F num 0
        then OrderStatus.rejected
        else OrderStatus.filled;
  }

  abbrev pub with_stop_id : OrderResult F → OrderResult F → OrderResult F
  with_stop_id entry sl =
      if str_eq sl.broker_order_id ""
      then entry
      else record entry { stop_order_id = some sl.broker_order_id }

  -- The stop after its check: a problem makes it a failed one.
  abbrev pub checked_stop : OrderResult F → StopProblem → OrderResult F
  checked_stop sl problem =
      if is_fine problem
      then sl
      else record sl { status = OrderStatus.failed; message = Message.stop_unconfirmed problem }

  abbrev pub unprotected_entry : OrderResult F → OrderResult F
  unprotected_entry entry = record entry {
    message = Message.text "UNPROTECTED FILL — halted; broker review / emergency exit required";
    unknown = true;
  }

  abbrev pub protected_entry : OrderResult F → OrderResult F → OrderResult F
  protected_entry entry sl = record entry {
    stop_order_id = some sl.broker_order_id;
    message = Message.with_stop entry.message sl.broker_order_id;
  }

  abbrev pub exposure_of : Settings F → OrderRequest F → F → Exposure F
  exposure_of cfg req qty = record {
    symbol = req.symbol;
    qty = qty;
    product = given_or req.product cfg.kite_product;
    exchange = given_or req.exchange cfg.kite_exchange;
  }

  abbrev pub stop_request : OrderRequest F → F → OrderRequest F
  stop_request req qty = record req {
    qty = qty;
    order_type = OrderType.stop;
    client_order_id = req.client_order_id <> "-sl";
  }

  -- `not req.stop_price`
  abbrev pub lacks_stop : OrderRequest F → Bool
  lacks_stop req = elim req.stop_price [ none ↦ true | some p ↦ p =F num 0 ]

  module _ {B W : Type 0} ⦃b : Broker F B⦄ ⦃x : Outside W⦄ where
    -- After one attempt: a result that did not fail is returned, and else `again` goes on with it.
    unfoldable pub after_attempt :
        OrderRequest F
        → (OrderResult F → Run F B W (OrderResult F))
        → Result (OrderResult F)
        → Run F B W (OrderResult F)
    after_attempt req again (ok res) =
        if is_failed res.status then (do note_failure; again res) else do note_success; pure res
    after_attempt req again (raised e) = do note_failure; again (failed_result req e)

    -- The loop, with the attempts that are left and the last result.
    unfoldable pub retry : ℕ → OrderRequest F → F → OrderResult F → Run F B W (OrderResult F)
    retry zero req price last = pure last
    retry (suc n) req price last = do
      answer ← outcome (call (b.place_order req price))
      after_attempt req (retry n req price) answer

    module _ ⦃u : CaseMap⦄ ⦃r : Redis W⦄ where
      unfoldable pub unknown_submission :
          Settings F → OrderRequest F → String → Run F B W (OrderResult F)
      unknown_submission cfg req e = do
        unknown cfg req (Message.unknown_outcome "Submission outcome unknown" e)
        pure (unknown_result req)

      -- A result of the one submission in live mode, inside its `try`.
      unfoldable pub accept :
          Settings F → OrderRequest F → OrderResult F → Run F B W (OrderResult F)
      accept cfg req res = do if res.unknown then unknown cfg req res.message else pure tt; pure res

      unfoldable pub submit_once : Settings F → OrderRequest F → F → Run F B W (OrderResult F)
      submit_once cfg req price =
          try (do res ← call (b.place_order req price); accept cfg req (doubted res))
            (unknown_submission cfg req)

      -- `_place_with_retry`
      unfoldable pub place_with_retry : Settings F → OrderRequest F → F → Run F B W (OrderResult F)
      place_with_retry cfg req price =
          if is_live cfg.trading_mode
          then submit_once cfg req price
          else retry max_retries req price (failed_result req "Max retries exceeded")

-- ===== src/Execution/Engine/Stops.antt =====
-- services/execution/execution_engine.py: the protective stops of entries, and what is done about an outcome
-- that is not known. A quantity in a broker's report is a number or is missing.
use apex_trader.Base.{
  String, true, false, not, ◌&&◌, ◌||◌, Option, none, some, if◌then◌else◌, str_eq,
}
use apex_trader.Base.Floats.{FloatOps, ◌<F◌, num, whole}
use apex_trader.Base.CaseMap.{CaseMap}
use apex_trader.Config.{Settings, is_live}
use apex_trader.Cache.{Redis}
use apex_trader.Execution.Orders.{
  OrderStatus, OrderRequest, OrderResult, Message, has_fill, is_refused, is_settled,
}
use apex_trader.Execution.Protection.{stop_problem}
use apex_trader.Execution.World.{Result, ok, raised, Broker, Outside, OrderReport}
use apex_trader.Execution.Run.{Run, ◌>>=◌, ◌>>◌, pure, raise, outcome, call}
use apex_trader.Execution.Engine.Records.{note_failure, note_success, unknown, record_result}
use apex_trader.Execution.Engine.Submission.{
  done, raised_at, Attached, checked_stop, empty_result, exposure_of, failed_result, is_final,
  lacks_stop, or_default, place_with_retry, protected_entry, settled_entry, stop_request,
  unprotected_entry, with_stop_id,
}

module _ {F : Type 0} ⦃o : FloatOps F⦄ where
  module _ {B W : Type 0} ⦃b : Broker F B⦄ ⦃x : Outside W⦄ where
    module _ ⦃u : CaseMap⦄ ⦃r : Redis W⦄ where
      -- The exception of `_unknown` inside `_attach_stop_loss` has the entry as it stands.
      unfoldable pub conclude :
          Settings F → OrderRequest F → OrderResult F → OrderResult F → Run F B W (Attached F)
      conclude cfg req entry sl =
          if is_refused sl.status || str_eq sl.broker_order_id ""
          then (do
            told ← outcome (unknown cfg req (Message.unprotected sl.message))
            pure (elim told [
              | ok _ ↦ done (unprotected_entry entry)
              | raised e ↦ raised_at entry e
            ]))
          else pure (done (protected_entry entry sl))

      abbrev pub looked_up :
          Settings F
          → OrderRequest F
          → F
          → OrderResult F
          → OrderResult F
          → Result (OrderReport F)
          → Run F B W (Attached F)
      looked_up cfg req qty entry sl (raised e) = pure (raised_at entry e)
      looked_up cfg req qty entry sl (ok report) =
          conclude cfg req entry
            (checked_stop sl (stop_problem report.stop (exposure_of cfg req qty)))

      -- In live mode the broker is asked whether the stop protects the quantity.
      unfoldable pub verify_stop :
          Settings F → OrderRequest F → F → OrderResult F → OrderResult F → Run F B W (Attached F)
      verify_stop cfg req qty entry sl =
          if is_live cfg.trading_mode && not (str_eq sl.broker_order_id "")
          then (do
            answer ← outcome (call (b.fetch_order_status sl.broker_order_id))
            looked_up cfg req qty entry sl answer)
          else conclude cfg req entry sl

      unfoldable pub placed_stop :
          OrderRequest F → Result (OrderResult F) → Run F B W (OrderResult F)
      placed_stop req (ok sl) = do note_success; pure sl
      placed_stop req (raised e) = do note_failure; pure (failed_result req e)

      unfoldable pub attach_for :
          Settings F → OrderRequest F → OrderResult F → F → F → Run F B W (Attached F)
      attach_for cfg req entry price qty = do
        answer ← outcome (call (b.place_stop_loss (stop_request req qty) price))
        sl ← placed_stop req answer
        verify_stop cfg req qty (with_stop_id entry sl) sl

      abbrev pub attach_units :
          Settings F → OrderRequest F → OrderResult F → F → Option F → Run F B W (Attached F)
      attach_units cfg req entry price none = pure (raised_at entry "quantity is not finite")
      attach_units cfg req entry price (some qty) = attach_for cfg req entry price qty

      -- `_attach_stop_loss`; `int` raises on a quantity that is not finite.
      unfoldable pub attach_stop_loss :
          Settings F → OrderRequest F → OrderResult F → F → Run F B W (Attached F)
      attach_stop_loss cfg req entry price =
          attach_units cfg req entry price (whole (or_default entry.filled_qty req.qty))

      unfoldable pub rethrown : Attached F → Run F B W (OrderResult F)
      rethrown (done entry) = pure entry
      rethrown (raised_at entry e) = raise e

      -- `_submit_with_stop`
      unfoldable pub submit_with_stop : Settings F → OrderRequest F → F → Run F B W (OrderResult F)
      submit_with_stop cfg req price = do
        entry ← place_with_retry cfg req price
        if not (has_fill entry.status)
            then pure entry
            else if lacks_stop req
            then pure (
                empty_result req.client_order_id entry.broker_order_id OrderStatus.rejected
                  (Message.text "Stop-loss price required") false)
            else do attached ← attach_stop_loss cfg req entry price; rethrown attached

      -- The handler in `_submit_live`, with the entry as it stands.
      unfoldable pub give_up :
          Settings F → OrderRequest F → OrderResult F → String → Run F B W (OrderResult F)
      give_up cfg req entry e = do
        unknown cfg req (Message.unknown_outcome "Fill/protection outcome unknown" e)
        pure (record entry { unknown = true; status = OrderStatus.submitted })

      -- A step of the `try`: its exception goes to the handler.
      unfoldable pub guarded :
          {A : Type 0}
          → Settings F
          → OrderRequest F
          → OrderResult F
          → Run F B W A
          → (A → Run F B W (OrderResult F))
          → Run F B W (OrderResult F)
      guarded cfg req entry m k = do
        answer ← outcome m
        elim answer [ ok a ↦ k a | raised e ↦ give_up cfg req entry e ]

      unfoldable pub protect_or_give_up :
          Settings F → OrderRequest F → Attached F → Run F B W (OrderResult F)
      protect_or_give_up cfg req (done entry) = pure entry
      protect_or_give_up cfg req (raised_at entry e) = give_up cfg req entry e

      -- A fill gets its stop.
      unfoldable pub protect_fill :
          Settings F → OrderRequest F → OrderResult F → F → Run F B W (OrderResult F)
      protect_fill cfg req entry price =
          if num 0 <F entry.filled_qty
          then (do
            attached ← attach_stop_loss cfg req entry price
            protect_or_give_up cfg req attached)
          else pure entry

      -- After the cancellation of an entry that was not settled.
      unfoldable pub after_cancel :
          Settings F
          → OrderRequest F
          → OrderResult F
          → F
          → OrderReport F
          → Run F B W (OrderResult F)
      after_cancel cfg req entry price report =
          if is_final report.stop.status
          then protect_fill cfg req (settled_entry entry report) price
          else guarded cfg req entry
              (unknown cfg req (Message.text "Entry cancellation/fill outcome unknown"))
              λ _. protect_fill cfg req (record entry { unknown = true }) price

      unfoldable pub reconcile_entry :
          Settings F → OrderRequest F → OrderResult F → F → Run F B W (OrderResult F)
      reconcile_entry cfg req placed price =
          guarded cfg req placed (call (b.reconcile_order placed.broker_order_id req)) λ entry.
            if is_settled entry.status
            then protect_fill cfg req entry price
            else guarded cfg req entry (call (b.cancel_order entry.broker_order_id)) λ _.
              guarded cfg req entry (call (b.fetch_order_status entry.broker_order_id))
                (after_cancel cfg req entry price)

      -- `_submit_live`
      unfoldable pub submit_live : Settings F → OrderRequest F → F → Run F B W (OrderResult F)
      submit_live cfg req price = do
        entry ← place_with_retry cfg req price
        record_result cfg req entry
        if is_refused entry.status || str_eq entry.broker_order_id ""
            then pure entry
            else reconcile_entry cfg req entry price

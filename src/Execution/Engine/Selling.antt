-- ===== src/Execution/Engine/Selling.antt =====
-- services/execution/execution_engine.py: the sell of an exit in live mode, its accounting, and `place_exit`.
-- The first fifteen digits of the fresh uuid are what the outside answers.
use apex_trader.Base.{String, true, ◌||◌, Option, none, some, any, if◌then◌else◌, str_eq}
use apex_trader.Base.Floats.{FloatOps, ◌-F◌, ◌<F◌, ◌≤F◌, num, whole}
use apex_trader.Base.CaseMap.{CaseMap}
use apex_trader.Config.{Settings, is_live, is_shadow}
use apex_trader.Cache.{Redis}
use apex_trader.Portfolio.Models.{PositionView}
use apex_trader.Portfolio.Manager.{find_position}
use apex_trader.Trades.Repository.{TradeStatus}
use apex_trader.Shadow.Engine.{simulate_exit}
use apex_trader.Execution.Orders.{
  OrderStatus, OrderRequest, OrderResult, Message, is_settled, is_submitted,
}
use apex_trader.Execution.World.{Broker, Outside}
use apex_trader.Execution.Run.{Run, ◌>>=◌, ◌>>◌, pure, modify, gets, ask, try, call}
use apex_trader.Execution.Engine.Records.{update_trade, unknown, record_result}
use apex_trader.Execution.Engine.Submission.{empty_result, is_final, place_with_retry}
use apex_trader.Execution.Engine.Stops.{attach_stop_loss, rethrown}
use apex_trader.Execution.Engine.Entry.{
  refusal, pending_row, found_rows, read_open_trades, write_pending,
}
use apex_trader.Execution.Engine.Exit.{
  residual_request, residual_fill, Step, blocks_exit, cancel_stop, exit_request, match_broker,
  no_exit, set_stop, settled_exit, stop_id_of, unknown_exit, unless_answered,
}

module _ {F : Type 0} ⦃o : FloatOps F⦄ ⦃u : CaseMap⦄ where
  module _ {B W : Type 0} ⦃b : Broker F B⦄ ⦃x : Outside W⦄ ⦃r : Redis W⦄ where
    -- What is left of the position gets a new stop.
    unfoldable pub protect_residual :
        Settings F → OrderRequest F → PositionView F → F → F → Run F B W (Unit {0})
    protect_residual cfg req pos residual price = do
      attached ←
          attach_stop_loss cfg (residual_request req pos residual) (residual_fill req pos residual)
            price
      protected ← rethrown attached
      set_stop pos (stop_id_of protected.stop_order_id)

    unfoldable pub account_exit :
        Settings F → OrderRequest F → PositionView F → F → OrderResult F → Run F B W (OrderResult F)
    account_exit cfg req pos price result =
        if result.unknown || is_submitted result.status
        then (do
          unknown cfg req
              (Message.text "Exit outcome unknown; manual broker reconciliation required")
          pure result)
        else (do
          update_trade cfg req.client_order_id (record {
            status = TradeStatus.closed;
            entry_price = none;
            exit_price = some result.avg_price;
            exit_reason = none;
            broker_order_id = none;
            stop_order_id = none;
            message = none;
          })
          if num 0 <F (pos.qty -F result.filled_qty)
              then protect_residual cfg req pos (pos.qty -F result.filled_qty) price
              else pure tt
          pure result)

    -- An exit that is not settled is cancelled.
    unfoldable pub settle_exit :
        Settings F → OrderRequest F → OrderResult F → Run F B W (Step F (OrderResult F))
    settle_exit cfg req result = if is_settled result.status then pure (Step.going result) else (do
      call (b.cancel_order result.broker_order_id)
      report ← call (b.fetch_order_status result.broker_order_id)
      if is_final report.stop.status then pure (Step.going (settled_exit result report)) else (do
        unknown cfg req (Message.text "Exit still pending; quantity cannot be accounted safely")
        pure (
            Step.answered (
              empty_result req.client_order_id result.broker_order_id OrderStatus.submitted
                (Message.text "Exit unresolved") true))))

    unfoldable pub reconcile_exit :
        Settings F → OrderRequest F → OrderResult F → Run F B W (Step F (OrderResult F))
    reconcile_exit cfg req result =
        if str_eq result.broker_order_id "" then pure (Step.going result) else (do
          reconciled ← call (b.reconcile_order result.broker_order_id req)
          settle_exit cfg req reconciled)

    unfoldable pub sell_live :
        Settings F → OrderRequest F → PositionView F → F → Run F B W (OrderResult F)
    sell_live cfg req pos price = do
      result ← place_with_retry cfg req price
      record_result cfg req result
      step ← reconcile_exit cfg req result
      unless_answered step (account_exit cfg req pos price)

    -- `_place_exit` in live mode, after the request is made.
    unfoldable pub exit_live :
        Settings F → OrderRequest F → PositionView F → F → Run F B W (OrderResult F)
    exit_live cfg req pos price = do
      rows ← read_open_trades
      if any (blocks_exit req.symbol) rows
          then pure (refusal req (Message.text "Unresolved exit; reconcile before retry"))
          else (do
            write_pending (pending_row cfg req)
            cancelled ← cancel_stop cfg req pos
            unless_answered cancelled λ _. match_broker cfg req pos >>= λ matched.
                unless_answered matched λ req'. sell_live cfg req' pos price)

    unfoldable pub exit_shadow : Settings F → OrderRequest F → F → Run F B W (OrderResult F)
    exit_shadow cfg req price = do
      now ← ask x.timestamp
      written ← ask x.shadow_write
      made ← gets (λ w. simulate_exit cfg now written req price w.shadow)
      modify (λ w. record w { shadow = made.1 })
      found_rows made.0

    unfoldable pub exit_position :
        Settings F → PositionView F → String → F → String → F → Run F B W (OrderResult F)
    exit_position cfg pos symbol qty strategy price = do
      id ← ask x.uuid
      units ← found_rows (whole qty)
      if is_shadow cfg.trading_mode
          then exit_shadow cfg (exit_request symbol units strategy id) price
          else if is_live cfg.trading_mode
          then exit_live cfg (exit_request symbol units strategy id) pos price
          else place_with_retry cfg (exit_request symbol units strategy id) price

    abbrev pub exit_held :
        Settings F → String → F → String → F → Option (PositionView F) → Run F B W (OrderResult F)
    exit_held cfg symbol qty strategy price none = pure no_exit
    exit_held cfg symbol qty strategy price (some pos) =
        if (qty ≤F num 0) || (pos.qty <F qty)
        then pure no_exit
        else exit_position cfg pos symbol qty strategy price

    -- `_place_exit`
    unfoldable pub place_exit_inner :
        Settings F → String → F → String → F → Run F B W (OrderResult F)
    place_exit_inner cfg symbol qty strategy price = do
      held ← gets (λ w. find_position (u.upper symbol) w.portfolio.state.positions)
      exit_held cfg symbol qty strategy price held

    -- `place_exit`
    unfoldable pub place_exit : Settings F → String → F → String → F → Run F B W (OrderResult F)
    place_exit cfg symbol qty strategy price =
        try (place_exit_inner cfg symbol qty strategy price) λ e. (do
          unknown cfg
              (record (exit_request symbol qty "" "") { symbol = symbol; client_order_id = "" })
              (Message.unknown_outcome "Exit outcome unknown" e)
          pure unknown_exit)

-- ===== src/Execution/Engine/Exit.antt =====
-- services/execution/execution_engine.py: the steps of a live exit before the sell: its stop is cancelled and
-- the broker position compared. A quantity in a report of the broker is a number or is missing.
use apex_trader.Base.{
  String, Bool, true, false, not, ◌&&◌, Option, none, some, List, [], ◌∷◌, if◌then◌else◌, str_eq,
}
use Prim.Native.String.{◌++◌ as ◌<>◌}
use apex_trader.Base.Floats.{FloatOps, ◌-F◌, ◌<F◌, ◌=F◌, num, ratio, abs, min}
use apex_trader.Base.CaseMap.{CaseMap}
use apex_trader.Config.{Settings}
use apex_trader.Cache.{Redis}
use apex_trader.Portfolio.Models.{PositionView}
use apex_trader.Portfolio.Manager.{replace_position, with_state}
use apex_trader.Trades.Repository.{TradeRecord}
use apex_trader.Execution.Orders.{
  OrderType, OrderStatus, Side, OrderRequest, OrderResult, Message, is_long,
}
use apex_trader.Execution.World.{Broker, Outside, BrokerPosition, OrderReport}
use apex_trader.Execution.Run.{Run, ◌>>=◌, ◌>>◌, pure, modify, call}
use apex_trader.Execution.Engine.Records.{persist_portfolio, unknown}
use apex_trader.Execution.Engine.Submission.{empty_result, or_zero, is_final}
use apex_trader.Execution.Engine.Entry.{is_unresolved, refusal}

-- What is left to do after a step: the exit was decided, or goes on with the value.
pub data Step (F A : Type 0) : Type 0 where
  answered : OrderResult F → Step F A
  going : A → Step F A

abbrev pub stop_id_of : Option String → String
stop_id_of none = ""
stop_id_of (some id) = id

module _ {F : Type 0} ⦃o : FloatOps F⦄ ⦃u : CaseMap⦄ where
  -- The broker has this position alone for the symbol, long, and of the ledger's quantity.
  unfoldable pub matching_positions : String → List (BrokerPosition F) → List (BrokerPosition F)
  matching_positions sym [] = []
  matching_positions sym (p ∷ ps) =
      let rest = matching_positions sym ps in
      if str_eq (u.upper p.symbol) sym then p ∷ rest else rest

  unfoldable pub sole_match : PositionView F → List (BrokerPosition F) → Option (BrokerPosition F)
  sole_match pos [] = none
  sole_match pos (p ∷ q ∷ ps) = none
  sole_match pos (p ∷ []) =
      if is_long p.side && not (ratio 1 10000 <F abs (p.qty -F pos.qty)) then some p else none

  abbrev pub exit_request : String → F → String → String → OrderRequest F
  exit_request symbol qty strategy id = record {
    symbol = u.upper symbol;
    side = Side.short;
    qty = qty;
    order_type = OrderType.market;
    stop_price = none;
    take_profit = none;
    strategy = strategy;
    client_order_id = "exit-" <> id;
    product = none;
    exchange = none;
  }

  -- The request and the result that stand for what an exit left open.
  abbrev pub residual_request : OrderRequest F → PositionView F → F → OrderRequest F
  residual_request req pos residual = record {
    symbol = req.symbol;
    side = Side.long;
    qty = residual;
    order_type = OrderType.market;
    stop_price = some pos.stop_loss;
    take_profit = none;
    strategy = "";
    client_order_id = req.client_order_id <> "-r";
    product = req.product;
    exchange = req.exchange;
  }

  abbrev pub residual_fill : OrderRequest F → PositionView F → F → OrderResult F
  residual_fill req pos residual =
      record (empty_result (req.client_order_id <> "-r") "" OrderStatus.filled
        (Message.text "Residual protection") false) { filled_qty = residual; avg_price = pos.entry }

  -- A sell that may still be filled.
  abbrev pub blocks_exit : String → TradeRecord F → Bool
  blocks_exit sym row = str_eq row.symbol sym && not (is_long row.side) && is_unresolved row.status

  -- The exit after the broker's last word on it.
  abbrev pub settled_exit : OrderResult F → OrderReport F → OrderResult F
  settled_exit result report = record result {
    filled_qty = or_zero report.stop.filled_quantity;
    avg_price = or_zero report.average_price;
    status =
        if or_zero report.stop.filled_quantity =F num 0
        then OrderStatus.rejected
        else OrderStatus.partial;
  }

  abbrev pub no_exit : OrderResult F
  no_exit =
      empty_result "" "" OrderStatus.rejected
        (Message.text "No matching position/valid exit quantity") false

  abbrev pub unknown_exit : OrderResult F
  unknown_exit =
      empty_result "" "" OrderStatus.submitted
        (Message.text "Exit unresolved; broker review required") true

  module _ {B W : Type 0} ⦃b : Broker F B⦄ ⦃x : Outside W⦄ ⦃r : Redis W⦄ where
    -- `pos.stop_order_id = id`, on the portfolio's own position.
    unfoldable pub set_stop : PositionView F → String → Run F B W (Unit {0})
    set_stop pos id = modify (λ w. record w {
      portfolio =
          with_state
            (record (w.portfolio.state) {
              positions =
                  replace_position (u.upper pos.symbol) (some (record pos { stop_order_id = id }))
                    w.portfolio.state.positions;
            })
            w.portfolio;
    })

    -- The stop was filled while it was cancelled: no second sell.
    unfoldable pub stop_filled :
        Settings F → OrderRequest F → PositionView F → OrderReport F → Run F B W (Step F (Unit {0}))
    stop_filled cfg req pos report = do
      set_stop pos ""
      persist_portfolio
      unknown cfg req
          (Message.text "Stop filled during exit cancellation; residual protection requires review")
      pure (
          Step.answered
            (record (empty_result req.client_order_id pos.stop_order_id OrderStatus.partial
              (Message.text "Stop filled during cancellation") false) {
                filled_qty = min (or_zero report.stop.filled_quantity) pos.qty;
                avg_price = or_zero report.average_price;
                stop_fill = true;
              }))

    -- The protective stop goes before the exit is sent.
    unfoldable pub cancel_stop :
        Settings F → OrderRequest F → PositionView F → Run F B W (Step F (Unit {0}))
    cancel_stop cfg req pos = if str_eq pos.stop_order_id "" then pure (Step.going tt) else (do
      call (b.cancel_order pos.stop_order_id)
      report ← call (b.fetch_order_status pos.stop_order_id)
      if not (is_final report.stop.status)
          then (do
            unknown cfg req (
                Message.text
                  "Cannot confirm stop cancellation; exit withheld to prevent double sell")
            pure (Step.answered (refusal req (Message.text "Stop cancellation unknown"))))
          else if num 0 <F or_zero report.stop.filled_quantity
          then stop_filled cfg req pos report
          else (do set_stop pos ""; pure (Step.going tt)))

    abbrev pub matched_by :
        Settings F
        → OrderRequest F
        → Option (BrokerPosition F)
        → Run F B W (Step F (OrderRequest F))
    matched_by cfg req none = do
      unknown cfg req (Message.text "Exit broker quantity mismatch; no sell submitted")
      pure (Step.answered (refusal req (Message.text "Exit quantity mismatch")))
    matched_by cfg req (some p) =
        pure (Step.going (record req { product = p.product; exchange = p.exchange }))

    -- The broker's positions have to agree with the ledger; the request takes over their details.
    unfoldable pub match_broker :
        Settings F → OrderRequest F → PositionView F → Run F B W (Step F (OrderRequest F))
    match_broker cfg req pos = do
      positions ← call b.fetch_open_positions
      matched_by cfg req (sole_match pos (matching_positions req.symbol positions))

    unfoldable pub unless_answered :
        {A : Type 0} → Step F A → (A → Run F B W (OrderResult F)) → Run F B W (OrderResult F)
    unless_answered (Step.answered result) k = pure result
    unless_answered (Step.going a) k = k a

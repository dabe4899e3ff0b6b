-- ===== src/Execution/Engine/Records.antt =====
-- services/execution/execution_engine.py: what the engine writes down: unknown outcomes, results, dead
-- letters (dead_letter.py), failures of the broker. Logs and compliance records are not modelled.
use apex_trader.Base.{
  String, Bool, false, not, ◌&&◌, ◌||◌, Option, none, some, List, [], ◌∷◌, ◌++◌, if◌then◌else◌,
  str_eq,
}
use apex_trader.Base.Floats.{FloatOps, ◌=F◌, num}
use apex_trader.Config.{Settings}
use apex_trader.Cache.{Redis}
use apex_trader.Control.Halt.{Flags, set_reconciliation_degraded}
use apex_trader.Portfolio.Manager.{emergency_shutdown, persist}
use apex_trader.Trades.Repository.{TradeRecord, TradeStatus, Update, update_status}
use apex_trader.Execution.CircuitBreaker.{record_success, record_failure}
use apex_trader.Execution.Orders.{OrderRequest, OrderResult, OrderStatus, Message, is_refused}
use apex_trader.Execution.World.{World, Outside, DeadLetter}
use apex_trader.Execution.Run.{Run, ◌>>=◌, ◌>>◌, pure, raise, modify, gets, ask}

-- `status_map`, with "submitted" for a status that it lacks
abbrev pub mapped_status : OrderStatus → TradeStatus
mapped_status OrderStatus.filled = TradeStatus.filled
mapped_status OrderStatus.partial = TradeStatus.filled
mapped_status OrderStatus.rejected = TradeStatus.rejected
mapped_status OrderStatus.failed = TradeStatus.failed
mapped_status OrderStatus.cancelled = TradeStatus.cancelled
mapped_status _ = TradeStatus.submitted

-- A text that is there and not empty.
abbrev pub is_given : Option String → Bool
is_given none = false
is_given (some s) = not (str_eq s "")

-- `s or None`
abbrev pub non_empty : String → Option String
non_empty s = if str_eq s "" then none else some s

-- The status that `_record_result` writes.
abbrev pub recorded_status : {F : Type 0} → OrderResult F → TradeStatus
recorded_status r =
    if r.unknown
    then TradeStatus.unknown
    else if is_given r.stop_order_id
    then TradeStatus.sl_placed
    else mapped_status r.status

module _ {F : Type 0} where
  unfoldable pub has_letter : String → List (DeadLetter F) → Bool
  has_letter id [] = false
  has_letter id (l ∷ ls) = str_eq l.client_order_id id || has_letter id ls

  -- `DeadLetterQueue.enqueue`: an exception is swallowed, and an order has one row.
  unfoldable pub enqueue : Bool → DeadLetter F → List (DeadLetter F) → List (DeadLetter F)
  enqueue session l letters =
      if session && not (has_letter l.client_order_id letters) then letters ++ (l ∷ []) else letters

  -- An update that only gives a status and a message.
  abbrev pub marked : TradeStatus → Message F → Update F
  marked status message = record {
    status = status;
    entry_price = none;
    exit_price = none;
    exit_reason = none;
    broker_order_id = none;
    stop_order_id = none;
    message = some message;
  }

module _ {F B W : Type 0} where
  abbrev pub flags_of : World F B W → Flags W
  flags_of w = record { cache = w.outside; halt = w.halt; degraded = w.degraded }

  abbrev pub with_flags : Flags W → World F B W → World F B W
  with_flags m w = record w { outside = m.cache; halt = m.halt; degraded = m.degraded }

  -- The rows that a write leaves; `none` is an exception.
  unfoldable pub store_rows : Option (List (TradeRecord F)) → Run F B W (Unit {0})
  store_rows none = raise "database"
  store_rows (some rows) = modify (λ w. record w { trades = rows })

  unfoldable pub shut_portfolio : World F B W → World F B W
  shut_portfolio w = record w { portfolio = emergency_shutdown w.portfolio }

  module _ ⦃x : Outside W⦄ where
    unfoldable pub update_trade : Settings F → String → Update F → Run F B W (Unit {0})
    update_trade cfg id u = do
      session ← ask x.session
      rows ← gets (λ w. w.trades)
      store_rows (update_status session cfg.trading_mode id u rows)

    unfoldable pub persist_portfolio : Run F B W (Unit {0})
    persist_portfolio = do
      saved ← ask x.saves
      modify (λ w. record w { portfolio = (persist saved w.portfolio).0 })

    unfoldable pub note_failure : Run F B W (Unit {0})
    note_failure = do
      now ← ask x.now
      modify (λ w. record w { circuit = (record_failure now w.circuit).1 })

    unfoldable pub note_success : Run F B W (Unit {0})
    note_success = modify (λ w. record w { circuit = record_success w.circuit })

    module _ ⦃r : Redis W⦄ where
      unfoldable pub degrade : World F B W → World F B W
      degrade w = with_flags (set_reconciliation_degraded (flags_of w)) w

      -- `_unknown`
      unfoldable pub unknown : Settings F → OrderRequest F → Message F → Run F B W (Unit {0})
      unknown cfg req reason = do
        modify degrade
        modify shut_portfolio
        persist_portfolio
        update_trade cfg req.client_order_id (marked TradeStatus.unknown reason)

    module _ ⦃o : FloatOps F⦄ where
      unfoldable pub bury : OrderRequest F → OrderResult F → Run F B W (Unit {0})
      bury req result = do
        session ← ask x.session
        modify (λ w. record w {
          dead_letters =
              enqueue session
                (record { client_order_id = req.client_order_id; failure_reason = result.message })
                w.dead_letters;
        })

      -- `_record_result`
      unfoldable pub record_result :
          Settings F → OrderRequest F → OrderResult F → Run F B W (Unit {0})
      record_result cfg req result = do
        if is_refused result.status then bury req result else pure tt
        update_trade cfg req.client_order_id (record {
          status = recorded_status result;
          entry_price = if result.avg_price =F num 0 then none else some result.avg_price;
          exit_price = none;
          exit_reason = none;
          broker_order_id = non_empty result.broker_order_id;
          stop_order_id = result.stop_order_id;
          message = some result.message;
        })

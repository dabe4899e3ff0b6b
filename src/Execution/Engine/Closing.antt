-- ===== src/Execution/Engine/Closing.antt =====
-- services/execution/execution_engine.py: `eod_square_off` and `activate_kill_switch`, and what is done when
-- the engine starts or reconciles again. The ledger's positions have symbols of their own, so that a
-- position is closed when the ledger has none of its symbol.
use apex_trader.Base.{
  ℕ, ◌+◌, String, Bool, true, false, ◌&&◌, Option, none, some, List, [], ◌∷◌, ◌++◌, any, length,
  if◌then◌else◌,
}
use apex_trader.Base.Floats.{FloatOps, ◌-F◌, ◌*F◌, ◌/F◌, ◌<F◌, num}
use apex_trader.Base.CaseMap.{CaseMap}
use apex_trader.Config.{Settings, is_live, is_shadow}
use apex_trader.Cache.{Redis}
use apex_trader.Control.Halt.{is_reconciliation_degraded}
use apex_trader.Portfolio.Models.{PositionView}
use apex_trader.Portfolio.Manager.{Manager, ExitResult, find_position, record_exit}
use apex_trader.Trades.Repository.{TradeRecord, TradeStatus, get_open_by_symbol}
use apex_trader.Execution.IdempotencyStore.{ClaimServer, seed_order_id}
use apex_trader.Execution.Orders.{OrderResult, Message, has_fill}
use apex_trader.Execution.World.{Result, ok, raised, Broker, Outside, Market, BrokerPosition}
use apex_trader.Execution.Run.{Run, ◌>>=◌, ◌>>◌, pure, raise, modify, gets, ask, call, outcome}
use apex_trader.Execution.Reconciliation.{Reconciled, reconcile_on_startup}
use apex_trader.Execution.Engine.Records.{flags_of, shut_portfolio, persist_portfolio, update_trade}
use apex_trader.Execution.Engine.Entry.{
  is_unresolved, found_rows, read_open_trades, claims_of, with_claims,
}
use apex_trader.Execution.Engine.Selling.{place_exit}

pub data Trouble (F : Type 0) : Type 0 where
  not_exited : String → Message F → Trouble F
  failed : String → String → Trouble F
  unresolved_orders : Trouble F
  unverified : String → Trouble F

pub record SquareOff (F : Type 0) : Type 0 where
  pub is_ok : Bool
  pub accounted : ℕ
  pub remaining : List (BrokerPosition F)
  pub errors : List (Trouble F)

-- What the broker is left with, and the errors of asking it.
pub record Closure (F : Type 0) : Type 0 where
  pub remaining : List (BrokerPosition F)
  pub errors : List (Trouble F)

abbrev pub is_empty : {A : Type 0} → List A → Bool
is_empty [] = true
is_empty (x ∷ xs) = false

module _ {F : Type 0} where
  abbrev pub troubles : String → Result (List (Trouble F)) → List (Trouble F)
  troubles symbol (ok ts) = ts
  troubles symbol (raised e) = Trouble.failed symbol e ∷ []

  abbrev pub closure_of : List (Trouble F) → Result (List (BrokerPosition F)) → Closure F
  closure_of errors (ok positions) = record { remaining = positions; errors = errors }
  closure_of errors (raised e) = record {
    remaining = [];
    errors = errors ++ Trouble.unverified e ∷ [];
  }

  abbrev pub unresolved_trouble : List (TradeRecord F) → List (Trouble F)
  unresolved_trouble rows =
      if any (λ row. is_unresolved row.status) rows then Trouble.unresolved_orders ∷ [] else []

module _ {F : Type 0} ⦃o : FloatOps F⦄ where
  -- The profit of a part of a position, its costs taken off.
  abbrev pub net_pnl : Settings F → F → F → F → F
  net_pnl cfg price entry qty =
      (price -F entry) *F qty -F entry *F qty *F cfg.estimated_round_trip_cost_bps /F num 10000

  abbrev pub price_or : Option F → F → F
  price_or none d = d
  price_or (some p) d = p

  -- An exit that can be booked.
  abbrev pub is_bookable : OrderResult F → Bool
  is_bookable r = has_fill r.status && (num 0 <F r.filled_qty) && (num 0 <F r.avg_price)

module _ {F B W : Type 0} ⦃o : FloatOps F⦄ ⦃u : CaseMap⦄ ⦃x : Outside W⦄ where
  abbrev pub booked : Manager F × ExitResult → Run F B W (Unit {0})
  booked (m, ExitResult.bad_quantity) =
      raise "Exit quantity must be positive and no larger than position"
  booked (m, ExitResult.returned r) = modify (λ w. record w { portfolio = m })

  -- The portfolio's `record_exit`, with the answers of its repository.
  unfoldable pub book_exit_of : String → F → F → F → Run F B W (Unit {0})
  book_exit_of symbol price pnl qty = do
    closed ← ask x.closes
    saved ← ask x.saves
    m ← gets (λ w. w.portfolio)
    booked (record_exit symbol price pnl (some qty) closed saved m)

  unfoldable pub read_open_by_symbol : String → Run F B W (Option (TradeRecord F))
  read_open_by_symbol symbol = do
    session ← ask x.session
    rows ← gets (λ w. w.trades)
    found_rows (get_open_by_symbol session symbol rows)

  abbrev pub closed_row :
      Settings F → F → String → Option (Message F) → Option (TradeRecord F) → Run F B W (Unit {0})
  closed_row cfg price reason message none = pure tt
  closed_row cfg price reason message (some row) = update_trade cfg row.client_order_id (record {
    status = TradeStatus.closed;
    entry_price = none;
    exit_price = some price;
    exit_reason = some reason;
    broker_order_id = none;
    stop_order_id = none;
    message = message;
  })

  -- The row is closed if the position is.
  abbrev pub close_rows :
      Settings F → String → String → F → Option (PositionView F) → Run F B W (Unit {0})
  close_rows cfg reason symbol price (some p) = pure tt
  close_rows cfg reason symbol price none = do
    row ← read_open_by_symbol symbol
    closed_row cfg price reason none row

  -- An exit's fill in the ledger and in the trades.
  unfoldable pub account_fill :
      Settings F → String → PositionView F → OrderResult F → Run F B W (Unit {0})
  account_fill cfg reason pos result = do
    book_exit_of pos.symbol result.avg_price
        (net_pnl cfg result.avg_price pos.entry result.filled_qty) result.filled_qty
    left ← gets (λ w. find_position (u.upper pos.symbol) w.portfolio.state.positions)
    close_rows cfg reason pos.symbol result.avg_price left

  module _ ⦃b : Broker F B⦄ ⦃r : Redis W⦄ ⦃k : Market F W⦄ where
    unfoldable pub fetch_price : String → Run F B W (Option F)
    fetch_price symbol w = (
      (k.last_price symbol w.outside).0,
      record w { outside = (k.last_price symbol w.outside).1 },
    )

    -- One position: no trouble means that its exit is accounted for.
    unfoldable pub square_off_one :
        Settings F → String → PositionView F → Run F B W (List (Trouble F))
    square_off_one cfg reason pos = do
      price ← fetch_price pos.symbol
      result ← place_exit cfg pos.symbol pos.qty "exit" (price_or price pos.entry)
      if is_bookable result
          then (do account_fill cfg reason pos result; pure [])
          else pure (Trouble.not_exited pos.symbol result.message ∷ [])

    -- The loop over the positions, with what is accounted for.
    unfoldable pub square_off_all :
        Settings F → String → List (PositionView F) → Run F B W (ℕ × List (Trouble F))
    square_off_all cfg reason [] = pure (0, [])
    square_off_all cfg reason (p ∷ ps) = do
      answer ← outcome (square_off_one cfg reason p)
      rest ← square_off_all cfg reason ps
      let here = troubles p.symbol answer
      pure ((if is_empty here then 1 else 0) + rest.0, here ++ rest.1)

    -- In live mode the broker has to confirm.
    unfoldable pub verify_closure : Settings F → Run F B W (Closure F)
    verify_closure cfg =
        if is_live cfg.trading_mode
        then (do
          rows ← read_open_trades
          answer ← outcome (call b.fetch_open_positions)
          pure (closure_of (unresolved_trouble rows) answer))
        else pure (record { remaining = []; errors = [] })

    unfoldable pub verdict : ℕ → List (Trouble F) → Closure F → Run F B W (SquareOff F)
    verdict accounted errors closure = do
      held ← gets (λ w. w.portfolio.state.positions)
      if is_empty (errors ++ closure.errors) && is_empty closure.remaining && is_empty held
          then pure (record {
            is_ok = true;
            accounted = accounted;
            remaining = closure.remaining;
            errors = errors ++ closure.errors;
          })
          else (do
            modify shut_portfolio
            persist_portfolio
            pure (record {
              is_ok = false;
              accounted = accounted;
              remaining = closure.remaining;
              errors = errors ++ closure.errors;
            }))

    -- `eod_square_off`
    unfoldable pub eod_square_off : Settings F → String → Run F B W (SquareOff F)
    eod_square_off cfg reason = do
      held ← gets (λ w. w.portfolio.state.positions)
      done ← square_off_all cfg reason held
      closure ← verify_closure cfg
      verdict done.0 done.1 closure

    -- `activate_kill_switch`
    unfoldable pub activate_kill_switch : Settings F → Run F B W (SquareOff F)
    activate_kill_switch cfg = do
      modify shut_portfolio
      persist_portfolio
      eod_square_off cfg "kill_switch_flatten"

    module _ ⦃s : ClaimServer W⦄ where
      unfoldable pub seed_rows : Settings F → List (TradeRecord F) → Run F B W (Unit {0})
      seed_rows cfg [] = pure tt
      seed_rows cfg (row ∷ rows) = do
        modify (λ w.
            with_claims
              (seed_order_id cfg.idempotency_bucket_minutes row.client_order_id (claims_of w)) w)
        seed_rows cfg rows

      -- `connect` of the engine.
      unfoldable pub connect : Settings F → Run F B W Bool
      connect cfg = if is_shadow cfg.trading_mode then pure true else call b.connect

      -- `recover`, with the report less the mode.
      unfoldable pub recover : Settings F → Run F B W (ℕ × Bool × Reconciled)
      recover cfg = do
        rows ← read_open_trades
        seed_rows cfg rows
        connected ← connect cfg
        report ← reconcile_on_startup cfg
        pure (length rows, connected, report)

    -- `retry_reconciliation`; nothing is reported where it is skipped.
    unfoldable pub retry_reconciliation : Settings F → Run F B W (Option Reconciled)
    retry_reconciliation cfg = do
      degraded ← gets (λ w. is_reconciliation_degraded (flags_of w))
      if degraded then (do report ← reconcile_on_startup cfg; pure (some report)) else pure none

-- ===== src/Execution/Engine/Entry.antt =====
-- services/execution/execution_engine.py: `place_order`, with the blocks before it. Of the operator's
-- pause, services/autonomous/state.py, the row is what the outside answers.
use apex_trader.Base.{
  String, Bool, true, false, not, ◌&&◌, Option, none, some, List, [], ◌∷◌, any, if◌then◌else◌,
  str_eq,
}
use apex_trader.Base.Floats.{FloatOps, ◌≤F◌, ◌=F◌, num}
use apex_trader.Base.CaseMap.{CaseMap}
use apex_trader.Config.{Settings, TradingMode, is_live}
use apex_trader.Cache.{Redis}
use apex_trader.Control.Halt.{is_emergency_halt, is_reconciliation_degraded}
use apex_trader.Portfolio.Manager.{is_trading_halted}
use apex_trader.Trades.Repository.{
  TradeRecord, TradeStatus, is_open, create_pending, get_by_client_id, open_trades,
}
use apex_trader.Shadow.Engine.{simulate, weekly_report}
use apex_trader.Execution.CircuitBreaker.{is_open as circuit_open, pause_remaining_sec}
use apex_trader.Execution.IdempotencyStore.{ClaimServer, Claims, claim_order_id, release_order_id}
use apex_trader.Execution.LiveGate.{check}
use apex_trader.Execution.Orders.{
  Blocker, OrderStatus, OrderRequest, OrderResult, Message, is_refused,
}
use apex_trader.Execution.World.{World, Broker, Outside}
use apex_trader.Execution.Run.{Run, ◌>>=◌, ◌>>◌, pure, raise, modify, gets, ask}
use apex_trader.Execution.Engine.Records.{flags_of, store_rows, record_result}
use apex_trader.Execution.Engine.Submission.{given_or, empty_result, place_with_retry}
use apex_trader.Execution.Engine.Stops.{submit_with_stop, submit_live}

-- `status in ("pending", "submitted", "unknown")`
abbrev pub is_unresolved : TradeStatus → Bool
is_unresolved TradeStatus.pending = true
is_unresolved TradeStatus.submitted = true
is_unresolved TradeStatus.unknown = true
is_unresolved _ = false

-- `operator_paused`: a row that cannot be read counts as a pause.
abbrev pub is_paused : Option Bool → Bool
is_paused none = true
is_paused (some enabled) = enabled

-- `existing.broker_order_id or ""`
abbrev pub broker_id_of : {F : Type 0} → Option (TradeRecord F) → String
broker_id_of none = ""
broker_id_of (some row) = given_or row.broker_order_id ""

-- `blockers[:3]`
abbrev pub first_three : List Blocker → List Blocker
first_three (c ∷ d ∷ e ∷ cs) = c ∷ d ∷ e ∷ []
first_three cs = cs

-- `existing and existing.status in (...)`
abbrev pub blocks_again : {F : Type 0} → Option (TradeRecord F) → Bool
blocks_again none = false
blocks_again (some row) = is_open row.status

module _ {F : Type 0} ⦃o : FloatOps F⦄ where
  abbrev pub refusal : OrderRequest F → Message F → OrderResult F
  refusal req why = empty_result req.client_order_id "" OrderStatus.rejected why false

  -- The refusal of a second order names the broker's id of the first.
  abbrev pub duplicate_refusal : OrderRequest F → Option (TradeRecord F) → OrderResult F
  duplicate_refusal req existing =
      empty_result req.client_order_id (broker_id_of existing) OrderStatus.rejected
        (Message.text "Duplicate order blocked (idempotent)") false

  -- The first guard: a stop below the price, and a quantity.
  unfoldable pub is_protectable : OrderRequest F → F → Bool
  is_protectable req market_price = elim req.stop_price [
    | none ↦ false
    | some stop ↦
        not (stop =F num 0)
        && not (stop ≤F num 0)
        && not (market_price ≤F stop)
        && not (req.qty ≤F num 0)
  ]

  abbrev pub pending_row : Settings F → OrderRequest F → TradeRecord F
  pending_row cfg req = record {
    client_order_id = req.client_order_id;
    symbol = req.symbol;
    strategy = req.strategy;
    side = req.side;
    qty = req.qty;
    entry_price = none;
    stop_loss = req.stop_price;
    take_profit = req.take_profit;
    exit_price = none;
    exit_reason = none;
    status = TradeStatus.pending;
    trading_mode = cfg.trading_mode;
    broker_order_id = none;
    stop_order_id = none;
    message = none;
  }

  module _ {B W : Type 0} ⦃x : Outside W⦄ where
    unfoldable pub found_rows : {A : Type 0} → Option A → Run F B W A
    found_rows none = raise "database"
    found_rows (some a) = pure a

    unfoldable pub read_open_trades : Run F B W (List (TradeRecord F))
    read_open_trades = do
      session ← ask x.session
      rows ← gets (λ w. w.trades)
      found_rows (open_trades session rows)

    unfoldable pub read_by_client_id : String → Run F B W (Option (TradeRecord F))
    read_by_client_id id = do
      session ← ask x.session
      rows ← gets (λ w. w.trades)
      found_rows (get_by_client_id session id rows)

    unfoldable pub write_pending : TradeRecord F → Run F B W (Unit {0})
    write_pending row = do
      session ← ask x.session
      rows ← gets (λ w. w.trades)
      store_rows (create_pending session row rows)

    -- The breaker's two queries.
    unfoldable pub circuit_block : OrderRequest F → Run F B W (Option (OrderResult F))
    circuit_block req = do
      now ← ask x.now
      opened ← gets (λ w. circuit_open now w.circuit)
      modify (λ w. record w { circuit = opened.1 })
      if opened.0
          then (do
            second ← ask x.now
            third ← ask x.now
            paused ← gets (λ w. pause_remaining_sec second third w.circuit)
            modify (λ w. record w { circuit = paused.1 })
            pure (some (refusal req (Message.paused_for paused.0))))
          else pure none

    -- In live mode an order without a known outcome blocks new entries.
    unfoldable pub unresolved_block :
        Settings F → OrderRequest F → Run F B W (Option (OrderResult F))
    unresolved_block cfg req =
        if is_live cfg.trading_mode
        then (do
          rows ← read_open_trades
          if any (λ row. is_unresolved row.status) rows
              then pure
                  (some (refusal req (Message.text "Unresolved broker order; new entries blocked")))
              else circuit_block req)
        else circuit_block req

    module _ ⦃r : Redis W⦄ where
      -- `_pre_execution_block`
      unfoldable pub pre_execution_block :
          Settings F → OrderRequest F → Run F B W (Option (OrderResult F))
      pre_execution_block cfg req = do
        row ← ask x.paused_row
        w ← gets (λ w. w)
        if is_paused row
            then pure (
                some (
                  refusal req
                    (Message.text "New entries paused by operator or pause state unavailable")))
            else if is_reconciliation_degraded (flags_of w)
            then pure (
                some (
                  refusal req (
                    Message.text
                      "Reconciliation degraded — trading paused until broker sync recovers")))
            else if is_emergency_halt (flags_of w)
            then pure
                (some (refusal req (Message.text "EMERGENCY_HALT active — execution blocked")))
            else if is_trading_halted w.portfolio.state
            then pure (some (refusal req (Message.text "Kill switch active — execution blocked")))
            else unresolved_block cfg req

      module _ ⦃s : ClaimServer W⦄ where
        abbrev pub claims_of : World F B W → Claims W
        claims_of w = record { server = w.outside; memory = w.claims }

        abbrev pub with_claims : Claims W → World F B W → World F B W
        with_claims m w = record w { outside = m.server; claims = m.memory }

        unfoldable pub claim : Settings F → String → Run F B W Bool
        claim cfg id = do
          claimed ← gets (λ w. claim_order_id cfg.idempotency_bucket_minutes id (claims_of w))
          modify (with_claims claimed.1)
          pure claimed.0

        unfoldable pub release : String → Run F B W (Unit {0})
        release id = modify (λ w. with_claims (release_order_id id (claims_of w)) w)

        -- The two tests against a second order of one id; `none` lets the order through.
        unfoldable pub duplicate_block :
            Settings F → OrderRequest F → Run F B W (Option (OrderResult F))
        duplicate_block cfg req = if str_eq req.client_order_id "" then pure none else (do
          existing ← read_by_client_id req.client_order_id
          if blocks_again existing then pure (some (duplicate_refusal req existing)) else (do
            acquired ← claim cfg req.client_order_id
            pure (
                if acquired
                then none
                else some (refusal req (Message.text "Duplicate order blocked")))))

        -- A result is recorded, and a refused order may be tried again.
        unfoldable pub finish :
            Settings F → OrderRequest F → OrderResult F → Run F B W (OrderResult F)
        finish cfg req result = do
          record_result cfg req result
          if is_refused result.status then release req.client_order_id else pure tt
          pure result

        unfoldable pub simulate_entry : Settings F → OrderRequest F → F → Run F B W (OrderResult F)
        simulate_entry cfg req market_price = do
          now ← ask x.timestamp
          written ← ask x.shadow_write
          made ← gets (λ w. simulate cfg now written req market_price w.shadow)
          modify (λ w. record w { shadow = made.1 })
          result ← found_rows made.0
          record_result cfg req result
          pure result

        module _ ⦃b : Broker F B⦄ ⦃u : CaseMap⦄ where
          -- `_live_allowed`
          unfoldable pub live_blockers : Settings F → Run F B W (List Blocker)
          live_blockers cfg = do
            answers ← ask x.live_answers
            gets (λ w. check cfg answers (weekly_report w.shadow) w.portfolio)

          abbrev pub unless_listed :
              List Blocker → Settings F → OrderRequest F → F → Run F B W (OrderResult F)
          unless_listed [] cfg req market_price =
              submit_live cfg req market_price >>= finish cfg req
          unless_listed (c ∷ cs) cfg req market_price =
              finish cfg req (refusal req (Message.live_blocked (first_three (c ∷ cs))))

          unfoldable pub live_entry : Settings F → OrderRequest F → F → Run F B W (OrderResult F)
          live_entry cfg req market_price = do
            blockers ← live_blockers cfg
            unless_listed blockers cfg req market_price

          -- The order in a mode.
          abbrev pub in_mode :
              TradingMode → Settings F → OrderRequest F → F → Run F B W (OrderResult F)
          in_mode TradingMode.shadow cfg req market_price = simulate_entry cfg req market_price
          in_mode TradingMode.paper cfg req market_price =
              submit_with_stop cfg req market_price >>= finish cfg req
          in_mode TradingMode.live cfg req market_price = live_entry cfg req market_price
          in_mode (TradingMode.other _) cfg req market_price =
              place_with_retry cfg req market_price >>= finish cfg req

          unfoldable pub dispatch : Settings F → OrderRequest F → F → Run F B W (OrderResult F)
          dispatch cfg req market_price = in_mode cfg.trading_mode cfg req market_price

          unfoldable pub unless_blocked :
              Option (OrderResult F) → Run F B W (OrderResult F) → Run F B W (OrderResult F)
          unless_blocked none k = k
          unless_blocked (some refused) k = pure refused

          -- `place_order`
          unfoldable pub place_order : Settings F → OrderRequest F → F → Run F B W (OrderResult F)
          place_order cfg req market_price =
              if not (is_protectable req market_price)
              then pure (
                  refusal req
                    (Message.text "Valid protective stop and quantity required before entry"))
              else (do
                blocked ← pre_execution_block cfg req
                unless_blocked blocked (do
                  duplicate ← duplicate_block cfg req
                  unless_blocked duplicate
                      (do write_pending (pending_row cfg req); dispatch cfg req market_price)))

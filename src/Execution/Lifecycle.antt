-- ===== src/Execution/Lifecycle.antt =====
-- services/execution/lifecycle.py: PositionLifecycleService. The journal, the strategy's counters and the
-- control brain are not part of this model: the brain's answer is an argument of `tick`. The ledger's
-- positions have symbols of their own, so that an object of the ledger is the position of its symbol.
use apex_trader.Base.{
  ℕ, suc, String, Bool, true, false, not, ◌&&◌, ◌||◌, Option, none, some, List, [], ◌∷◌, any,
  length, if◌then◌else◌, str_eq,
}
use Prim.Native.String.{◌++◌ as ◌<>◌}
use apex_trader.Base.Floats.{FloatOps, ◌-F◌, ◌<F◌, ◌≤F◌, num, ratio, abs, min}
use apex_trader.Base.CaseMap.{CaseMap}
use apex_trader.Config.{Settings, is_live, is_shadow, is_paper}
use apex_trader.Cache.{Redis}
use apex_trader.Portfolio.Models.{PositionView}
use apex_trader.Portfolio.Manager.{find_position}
use apex_trader.Trades.Repository.{TradeRecord}
use apex_trader.Execution.Orders.{Message, has_fill}
use apex_trader.Execution.Protection.{Exposure, stop_problem, stop_identity_problem}
use apex_trader.Execution.World.{
  Result, ok, raised, Broker, Outside, Market, BrokerPosition, OrderReport,
}
use apex_trader.Execution.Run.{Run, ◌>>=◌, ◌>>◌, pure, modify, gets, call, outcome}
use apex_trader.Execution.Engine.Records.{degrade}
use apex_trader.Execution.Engine.Submission.{is_fine, or_zero}
use apex_trader.Execution.Engine.Selling.{place_exit}
use apex_trader.Execution.Engine.Closing.{
  net_pnl, price_or, book_exit_of, read_open_by_symbol, closed_row, fetch_price,
}

pub record Ticked : Type 0 where
  pub checked : ℕ
  pub exits : ℕ

module _ {F : Type 0} ⦃o : FloatOps F⦄ where
  abbrev pub held_exposure : Settings F → PositionView F → String → Exposure F
  held_exposure cfg pos symbol = record {
    symbol = symbol;
    qty = pos.qty;
    product = cfg.kite_product;
    exchange = cfg.kite_exchange;
  }

  -- A fill of the stop that is not the whole position, or has no price.
  abbrev pub is_ambiguous : PositionView F → OrderReport F → Bool
  is_ambiguous pos report =
      (ratio 1 10000 <F abs (or_zero report.stop.filled_quantity -F pos.qty))
      || (or_zero report.average_price ≤F num 0)

  -- `pos.stop_loss > 0 and ltp <= pos.stop_loss and mode in ("paper", "shadow")`
  abbrev pub stop_hit : Settings F → PositionView F → F → Bool
  stop_hit cfg pos ltp =
      (num 0 <F pos.stop_loss)
      && (ltp ≤F pos.stop_loss)
      && (is_paper cfg.trading_mode || is_shadow cfg.trading_mode)

  abbrev pub target_hit : PositionView F → F → Bool
  target_hit pos ltp = (num 0 <F pos.take_profit) && (pos.take_profit ≤F ltp)

module _ {F : Type 0} ⦃o : FloatOps F⦄ ⦃u : CaseMap⦄ where
  -- The broker holds the symbol of a position.
  abbrev pub is_held_in : List (BrokerPosition F) → PositionView F → Bool
  is_held_in positions p =
      any (λ q. str_eq (u.upper q.symbol) (u.upper p.symbol) && (num 0 <F q.qty)) positions

-- What the check of a live stop comes to.
pub data StopCheck (F : Type 0) : Type 0 where
  degraded protected : StopCheck F
  stopped_out : F → F → StopCheck F

module _ {F B W : Type 0} ⦃o : FloatOps F⦄ ⦃u : CaseMap⦄ ⦃b : Broker F B⦄ ⦃x : Outside W⦄
    ⦃r : Redis W⦄ ⦃k : Market F W⦄ where
  abbrev pub closed_if_gone :
      Settings F
      → F
      → String
      → Option (TradeRecord F)
      → Option (PositionView F)
      → Run F B W (Unit {0})
  closed_if_gone cfg price reason row (some left) = pure tt
  closed_if_gone cfg price reason row none =
      closed_row cfg price reason (some (Message.text ("Closed: " <> reason))) row

  abbrev pub close_held :
      Settings F → String → F → String → F → Option (PositionView F) → Run F B W (Unit {0})
  close_held cfg symbol price reason qty none = pure tt
  close_held cfg symbol price reason qty (some pos) =
      if (qty ≤F num 0) || (price ≤F num 0) then pure tt else do
        book_exit_of symbol price (net_pnl cfg price pos.entry (min qty pos.qty)) (min qty pos.qty)
        row ← read_open_by_symbol symbol
        left ← gets (λ w. find_position (u.upper symbol) w.portfolio.state.positions)
        closed_if_gone cfg price reason row left

  -- `_close_position`
  unfoldable pub close_position : Settings F → String → F → String → F → Run F B W (Unit {0})
  close_position cfg symbol price reason qty = do
    held ← gets (λ w. find_position (u.upper symbol) w.portfolio.state.positions)
    close_held cfg symbol price reason qty held

  -- `_ltps([symbol]).get(symbol, 0.0)`
  unfoldable pub read_ltp : Settings F → String → Run F B W F
  read_ltp cfg symbol = do
    real ← gets (λ w. k.has_real_data w.outside)
    if real
        then (do price ← fetch_price symbol; pure (price_or price (num 0)))
        else if is_live cfg.trading_mode || is_shadow cfg.trading_mode
        then pure (num 0)
        else λ w. (
          (k.last_close symbol w.outside).0,
          record w { outside = (k.last_close symbol w.outside).1 },
        )

  -- The stop of a position in live mode.
  unfoldable pub check_stop : Settings F → PositionView F → String → Run F B W (StopCheck F)
  check_stop cfg pos symbol =
      if str_eq pos.stop_order_id "" then (do modify degrade; pure StopCheck.degraded) else do
        report ← call (b.fetch_order_status pos.stop_order_id)
        if not (is_fine (stop_identity_problem report.stop (held_exposure cfg pos symbol)))
            then (do modify degrade; pure StopCheck.degraded)
            else if str_eq report.stop.status "COMPLETE"
            then (if is_ambiguous pos report
                then (do modify degrade; pure StopCheck.degraded)
                else pure (
                    StopCheck.stopped_out (or_zero report.stop.filled_quantity)
                      (or_zero report.average_price)))
            else if not (is_fine (stop_problem report.stop (held_exposure cfg pos symbol)))
            then (do modify degrade; pure StopCheck.degraded)
            else pure StopCheck.protected

  unfoldable pub exit_at : Settings F → PositionView F → String → String → F → Run F B W Bool
  exit_at cfg pos symbol reason ltp = do
    result ← place_exit cfg symbol pos.qty "exit" ltp
    if has_fill result.status
        then (do close_position cfg symbol result.avg_price reason result.filled_qty; pure true)
        else pure false

  unfoldable pub check_price : Settings F → PositionView F → String → Run F B W Bool
  check_price cfg pos symbol = do
    ltp ← read_ltp cfg symbol
    if ltp ≤F num 0
        then pure false
        else if stop_hit cfg pos ltp
        then exit_at cfg pos symbol "stop_loss" ltp
        else if target_hit pos ltp
        then exit_at cfg pos symbol "take_profit" ltp
        else pure false

  abbrev pub after_stop : Settings F → PositionView F → String → StopCheck F → Run F B W Bool
  after_stop cfg pos symbol StopCheck.degraded = pure false
  after_stop cfg pos symbol StopCheck.protected = check_price cfg pos symbol
  after_stop cfg pos symbol (StopCheck.stopped_out filled price) = do
    close_position cfg symbol price "stop_loss" filled
    pure true

  -- `_check_position`; was the position's exit booked?
  unfoldable pub check_position : Settings F → PositionView F → Run F B W Bool
  check_position cfg pos =
      if is_live cfg.trading_mode
      then (do
        stop ← check_stop cfg pos (u.upper pos.symbol)
        after_stop cfg pos (u.upper pos.symbol) stop)
      else check_price cfg pos (u.upper pos.symbol)

  abbrev pub check_held : Settings F → Option (PositionView F) → Run F B W Bool
  check_held cfg none = pure false
  check_held cfg (some pos) = check_position cfg pos

  -- The loop over the positions; the count is of the exits.
  unfoldable pub check_all : Settings F → List (PositionView F) → Run F B W ℕ
  check_all cfg [] = pure 0
  check_all cfg (p ∷ ps) = do
    held ← gets (λ w. find_position (u.upper p.symbol) w.portfolio.state.positions)
    closed ← check_held cfg held
    rest ← check_all cfg ps
    pure (if closed then suc rest else rest)

  abbrev pub compare_symbols : Settings F → Result (List (BrokerPosition F)) → Run F B W (Unit {0})
  compare_symbols cfg (raised e) = modify degrade
  compare_symbols cfg (ok positions) = do
    held ← gets (λ w. w.portfolio.state.positions)
    if is_live cfg.trading_mode && any (λ p. not (is_held_in positions p)) held
        then modify degrade
        else pure tt

  -- `_sync_missing_broker_positions`
  unfoldable pub sync_missing : Settings F → Run F B W (Unit {0})
  sync_missing cfg =
      if is_live cfg.trading_mode || is_paper cfg.trading_mode
      then (do answer ← outcome (call b.fetch_open_positions); compare_symbols cfg answer)
      else pure tt

  -- The checks of a tick, after the brain's answer.
  unfoldable pub check_ledger : Settings F → List (PositionView F) → Run F B W Ticked
  check_ledger cfg held = do
    connected ← if is_shadow cfg.trading_mode then pure true else call b.connect
    exits ← check_all cfg held
    sync_missing cfg
    pure (record { checked = length held; exits = exits })

  abbrev pub tick_on : Settings F → List (PositionView F) → Run F B W Ticked
  tick_on cfg [] = pure (record { checked = 0; exits = 0 })
  tick_on cfg (p ∷ ps) = check_ledger cfg (p ∷ ps)

  -- `tick`: without positions nothing is done, whatever the brain answered.
  unfoldable pub tick : Settings F → Run F B W Ticked
  tick cfg = do held ← gets (λ w. w.portfolio.state.positions); tick_on cfg held

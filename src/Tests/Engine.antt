-- ===== src/Tests/Engine.antt =====
-- services/execution/execution_engine.py with a broker that fills every order, on an account that holds
-- two symbols.
use apex_trader.Base.{
  ◌≡◌, refl, ◌⊎◌, ◌+◌, ℕ, String, Bool, true, false, none, some, [], ◌∷◌, arith, if◌then◌else◌,
  ◌||◌, not, ◌==◌, str_eq,
}
use apex_trader.Base.Floats.{num, ◌<F◌}
use apex_trader.Config.{Settings, TradingMode}
use apex_trader.Execution.IdempotencyStore.{ClaimServer}
use apex_trader.Execution.CircuitBreaker.{new_breaker}
use apex_trader.Execution.Orders.{
  OrderType, OrderStatus, Side, OrderRequest, OrderResult, Message, is_refused,
}
use apex_trader.Execution.World.{
  Result, ok, raised, World, Broker, Outside, OrderReport, BrokerPosition,
}
use apex_trader.Shadow.Engine.{Event, Text, Written}
use apex_trader.Control.Halt.{is_reconciliation_degraded}
use apex_trader.Trades.Repository.{find_row}
use apex_trader.Execution.Engine.Entry.{place_order, pending_row}
use apex_trader.Execution.Blocked.{IsUntouched, place_order-duplicate}
use apex_trader.Execution.Barred.{IsRefusal, place_order-barred}
use apex_trader.Execution.Attempts.{Attempts, place_with_retry-Attempts}
use apex_trader.Execution.Engine.Submission.{place_with_retry, failed_result}
use apex_trader.Execution.Engine.Selling.{exit_live}
use apex_trader.Execution.Withheld.{IsWithheld, exit_live-IsWithheld}
use apex_trader.Execution.Stopping.{IsStopped}
use apex_trader.Execution.Attaching.{IsProtected}
use apex_trader.Execution.Protecting.{place_order-IsProtected}
use apex_trader.Portfolio.Models.{PositionView}
use apex_trader.Execution.Run.{try, ◌>>=◌, pure, modify, gets, outcome, call, ask}
use apex_trader.Execution.Engine.Records.{store_rows, update_trade, note_success, record_result}
use apex_trader.Execution.Engine.Submission.{after_attempt, accept, submit_once}
use apex_trader.Execution.Engine.Stops.{
  conclude, verify_stop, placed_stop, attach_for, attach_stop_loss, guarded, protect_or_give_up,
  protect_fill, reconcile_entry, submit_live,
}
use apex_trader.Execution.Engine.Entry.{
  is_protectable, found_rows, read_open_trades, read_by_client_id, write_pending, circuit_block,
  unresolved_block, pre_execution_block, claim, duplicate_block, finish, live_blockers, live_entry,
  dispatch, unless_blocked,
}
use apex_trader.Trades.Repository.{
  update_row, create_pending, update_status, get_by_client_id, open_rows, open_trades,
}
use apex_trader.Control.Halt.{is_emergency_halt, set_reconciliation_degraded}
use apex_trader.Execution.CircuitBreaker.{is_open, record_success}
use apex_trader.Execution.IdempotencyStore.{claim_order_id}
use apex_trader.Execution.LiveGate.{exceeds_backing, lacks_history, check}
use apex_trader.Shadow.Engine.{days_of, entries_of, exits_of, pnl_from, wins_of, weekly_report}
use apex_trader.Execution.Protection.{stop_identity_problem, number_problem, stop_problem}
use apex_trader.Portfolio.Manager.{is_trading_halted}
use apex_trader.Portfolio.Models.{sum_from}
use apex_trader.Base.Floats.{whole}
use apex_trader.Tests.Samples.{milli, capitals, settings, Server, server, up_server}
use apex_trader.Tests.Portfolio.{manager, position}

-- A broker that counts the orders and fills them. Its stops work until they are cancelled, unless it is
-- stubborn; it has a position until an order is sent.
pub record Desk : Type 0 where
  pub sent : ℕ
  pub cancelled : Bool
  pub stubborn : Bool

abbrev pub filled_result : OrderRequest ℕ → ℕ → String → OrderResult ℕ
filled_result req price id = record {
  client_order_id = req.client_order_id;
  broker_order_id = id;
  status = OrderStatus.filled;
  filled_qty = req.qty;
  avg_price = price;
  slippage_bps = num 0;
  message = Message.text "Filled";
  stop_order_id = none;
  unknown = false;
  stop_fill = false;
}

abbrev pub working_stop : Desk → OrderReport ℕ
working_stop desk = record {
  stop = record {
    status = if desk.cancelled then "CANCELLED" else "TRIGGER PENDING";
    pending_quantity = some (num 3);
    filled_quantity = some (num 0);
    trigger_price = some (num 95);
    tradingsymbol = "WIPRO";
    transaction_type = "SELL";
    product = "MIS";
    exchange = "NSE";
    order_type = "SL";
  };
  average_price = none;
}

abbrev pub at_broker : BrokerPosition ℕ
at_broker = record {
  symbol = "WIPRO";
  qty = num 3;
  side = Side.long;
  product = some "MIS";
  exchange = none;
}

instance abbrev pub desk_broker : Broker ℕ Desk
desk_broker = record {
  place_order = λ req price d. (ok (filled_result req price "B1"), record d { sent = d.sent + 1 });
  place_stop_loss = λ req price d. (ok (filled_result req price "S1"), d);
  reconcile_order = λ id req d. (ok (filled_result req (num 100) id), d);
  cancel_order = λ id d. (ok true, record d { cancelled = not d.stubborn });
  fetch_order_status = λ id d. (ok (working_stop d), d);
  fetch_open_positions = λ d. (ok (if d.sent == 0 then at_broker ∷ [] else []), d);
  connect = λ d. (ok true, d);
  restore_positions = λ ps d. d;
}

instance abbrev pub claim_server : ClaimServer Server
claim_server = record {
  set_nx = λ k ttl c. (some true, c);
  set_key = λ k ttl c. (true, c);
  delete = λ k c. (true, c);
  elapse = λ d c. c;
}

instance abbrev pub outside : Outside Server
outside = record {
  session = λ c. (c.writable, c);
  saves = λ c. (c.writable, c);
  closes = λ c. (c.writable, c);
  paused_row = λ c. (some false, c);
  now = λ c. (0, c);
  timestamp = λ c. (record { day = "2026-01-05"; time = "09:20:00" }, c);
  uuid = λ c. ("0123456789abcde", c);
  shadow_write = λ c. (Written.taken, c);
  live_answers = λ c. (
    record {
      owner_active = true;
      real_data = true;
      repo_healthy = true;
      live_ready = true;
      connected = true;
      live_capital_blockers = [];
      validation_blockers = [];
    },
    c,
  );
}

abbrev pub live_settings : Settings ℕ
live_settings = record settings {
  trading_mode = TradingMode.live;
  enable_live_execution = true;
  golive_min_shadow_days = 1;
  golive_min_completed_trades = 1;
}

abbrev pub request : OrderRequest ℕ
request = record {
  symbol = "WIPRO";
  side = Side.long;
  qty = num 3;
  order_type = OrderType.market;
  stop_price = some (num 95);
  take_profit = some (num 120);
  strategy = "momentum";
  client_order_id = "order-1";
  product = none;
  exchange = none;
}

abbrev closed_trade : Event ℕ
closed_trade = Event.exit (record {
  symbol = "SBIN";
  qty = num 2;
  exit = num 820;
  pnl = num 40;
  strategy = "momentum";
  entry_timestamp = record { day = "2026-01-02"; time = "10:00:00" };
  timestamp = record { day = "2026-01-02"; time = "11:00:00" };
})

abbrev pub world : World ℕ Desk Server
world = record {
  broker = record { sent = 0; cancelled = false; stubborn = false };
  outside = up_server;
  portfolio = record manager {
    state = record (manager.state) { equity = num 80000; peak_equity = num 80000 };
  };
  trades = [];
  dead_letters = [];
  circuit = new_breaker settings;
  shadow = record {
    file = record { lines = (Text.json closed_trade ∷ []) ∷ []; unended = [] };
    events = closed_trade ∷ [];
    positions = [];
  };
  halt = false;
  degraded = none;
  claims = [];
}

abbrev pub sold : PositionView ℕ
sold = record (position "WIPRO" 3 100) { stop_order_id = "S1" }

abbrev pub held_world : World ℕ Desk Server
held_world = record world { trades = pending_row settings request ∷ [] }

place_order-duplicate_example :
    IsUntouched held_world.broker held_world.trades
      (place_order settings request (num 100) held_world).1
unfolding find_row
place_order-duplicate_example =
    place_order-duplicate settings request (num 100) held_world refl refl

abbrev pub stopped_world : World ℕ Desk Server
stopped_world = record world {
  degraded = some true;
  outside = record up_server { readable = false };
}

place_order-barred_example :
    IsRefusal request stopped_world (place_order live_settings request (num 100) stopped_world)
unfolding is_reconciliation_degraded
place_order-barred_example = place_order-barred live_settings request (num 100) stopped_world refl

place_with_retry-Attempts_example :
    (res : OrderResult ℕ) × (((place_with_retry settings request (num 100) world).0 ≡ ok res)
      × Attempts request
          (num 100)
          3
          world.broker
          (failed_result request "Max retries exceeded")
          res
          (place_with_retry settings request (num 100) world).1.broker)
place_with_retry-Attempts_example = place_with_retry-Attempts settings request (num 100) world refl

abbrev pub stubborn_world : World ℕ Desk Server
stubborn_world = record world { broker = record { sent = 0; cancelled = false; stubborn = true } }

exit_live-IsWithheld_example :
    IsWithheld "S1" stubborn_world.broker
      (exit_live live_settings request sold (num 100) stubborn_world).1
exit_live-IsWithheld_example =
    exit_live-IsWithheld live_settings request sold (num 100) stubborn_world refl
      (true, (working_stop stubborn_world.broker, (refl, refl, refl)))

-- What the run of an entry gives.
abbrev pub result_or : OrderResult ℕ → Result (OrderResult ℕ) → OrderResult ℕ
result_or d (ok res) = res
result_or d (raised e) = d

abbrev pub has_answer : Result (OrderResult ℕ) → Bool
has_answer (ok res) = true
has_answer (raised e) = false

pub answer_lem :
    (d : OrderResult ℕ) (x : Result (OrderResult ℕ)) → has_answer x ≡ true → x ≡ ok (result_or d x)
answer_lem d (ok res) h = refl
answer_lem d (raised e) h = ground (arith, h)

abbrev bought : OrderResult ℕ
bought =
    result_or (filled_result request 0 "") (place_order live_settings request (num 100) world).0

bought_answers : has_answer (place_order live_settings request (num 100) world).0 ≡ true
unfolding ◌>>=◌ pure modify gets outcome call ask try store_rows update_trade note_success
    record_result after_attempt accept submit_once place_with_retry conclude verify_stop placed_stop
    attach_for attach_stop_loss guarded protect_or_give_up protect_fill reconcile_entry submit_live
    is_protectable found_rows read_open_trades read_by_client_id write_pending circuit_block
    unresolved_block pre_execution_block claim duplicate_block finish live_blockers live_entry
    dispatch unless_blocked place_order find_row update_row create_pending update_status
    get_by_client_id open_rows open_trades is_emergency_halt set_reconciliation_degraded
    is_reconciliation_degraded is_open record_success claim_order_id exceeds_backing lacks_history
    check days_of entries_of exits_of pnl_from wins_of weekly_report stop_identity_problem
    number_problem stop_problem is_trading_halted sum_from whole
bought_answers = refl

place_order-IsProtected_example :
    ((is_refused bought.status || str_eq bought.broker_order_id "") ≡ true)
    ⊎ (IsStopped (place_order live_settings request (num 100) world).1
        ⊎ (((num 0 <F bought.filled_qty) ≡ false) ⊎ IsProtected Desk live_settings request bought))
place_order-IsProtected_example =
    place_order-IsProtected live_settings request (num 100) world bought refl
      (answer_lem (filled_result request 0 "") _ bought_answers)

-- The ledger has what the broker has.
abbrev pub agreed_world : World ℕ Desk Server
agreed_world = record world {
  portfolio = record manager { state = record (manager.state) { positions = sold ∷ [] } };
}

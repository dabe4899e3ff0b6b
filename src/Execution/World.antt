-- ===== src/Execution/World.antt =====
-- services/execution/execution_engine.py: what the engine works on. The broker is an implementation of
-- the abstract class BrokerAdapter of services/brokers/base.py, with a state of its own; what else is
-- outside the process, Redis, the database and the clocks, is one state that answers.
use apex_trader.Base.{ℕ, String, Bool, Option, List}
use apex_trader.Portfolio.Models.{PositionView}
use apex_trader.Portfolio.Manager.{Manager}
use apex_trader.Trades.Repository.{TradeRecord}
use apex_trader.Shadow.Engine.{ShadowEngine, Timestamp, Written}
use apex_trader.Execution.CircuitBreaker.{ApiCircuitBreaker}
use apex_trader.Execution.Orders.{OrderRequest, OrderResult, Side, Message}
use apex_trader.Execution.Protection.{StopStatus}
use apex_trader.Execution.LiveGate.{LiveAnswers}

-- What a call gives: its value, or an exception (a Python `Exception`, not the cancellation of the task) with its text.
pub data Result {ℓ} (A : Type ℓ) : Type ℓ where
  ok : A → Result A
  raised : String → Result A

-- A position as the broker reports it; the product and the exchange where it has them.
pub record BrokerPosition (F : Type 0) : Type 0 where
  pub symbol : String
  pub qty : F
  pub side : Side
  pub product : Option String
  pub exchange : Option String

-- The answer about an order: what the check of a stop reads, with the average price.
pub record OrderReport (F : Type 0) : Type 0 where
  pub stop : StopStatus F
  pub average_price : Option F

-- `BrokerAdapter`, on the broker's state; a call that is too late counts as one that raised. The
-- reconciliation gives the ledger's positions to a broker that simulates (`restore_positions`); another
-- broker has no such variable and stays as it is.
pub record Broker (F B : Type 0) : Type 0 where
  pub place_order : OrderRequest F → F → B → Result (OrderResult F) × B
  pub place_stop_loss : OrderRequest F → F → B → Result (OrderResult F) × B
  pub reconcile_order : String → OrderRequest F → B → Result (OrderResult F) × B
  pub cancel_order : String → B → Result Bool × B
  pub fetch_order_status : String → B → Result (OrderReport F) × B
  pub fetch_open_positions : B → Result (List (BrokerPosition F)) × B
  pub connect : B → Result Bool × B
  pub restore_positions : List (PositionView F) → B → B

-- The rest of the outside: does a session of the database do its work, does the portfolio's
-- repository save or close a position, what the operator's row holds (`none` if it cannot be read), the clocks, a fresh
-- uuid, what a write of the shadow engine's file comes to, and the answers for the live gate.
pub record Outside (W : Type 0) : Type 0 where
  pub session : W → Bool × W
  pub saves : W → Bool × W
  pub closes : W → Bool × W
  pub paused_row : W → Option Bool × W
  pub now : W → ℕ × W
  pub timestamp : W → Timestamp × W
  pub uuid : W → String × W
  pub shadow_write : W → Written × W
  pub live_answers : W → LiveAnswers × W

-- A row of the dead letter queue, less what it repeats of the order.
pub record DeadLetter (F : Type 0) : Type 0 where
  pub client_order_id : String
  pub failure_reason : Message F

-- The engine, the portfolio it is bound to, the tables and variables that it shares, and the outside.
pub record World (F B W : Type 0) : Type 0 where
  pub broker : B
  pub outside : W
  pub portfolio : Manager F
  pub trades : List (TradeRecord F)
  pub dead_letters : List (DeadLetter F)
  pub circuit : ApiCircuitBreaker
  pub shadow : ShadowEngine F
  pub halt : Bool
  pub degraded : Option Bool
  pub claims : List String

-- Market data: is a feed configured, `fetch_ltps` of one symbol, which may raise and may lack the symbol,
-- and the last close of a synthetic series.
pub record Market (F W : Type 0) : Type 0 where
  pub has_real_data : W → Bool
  pub last_close : String → W → Result F × W
  pub last_price : String → W → Result (Option F) × W

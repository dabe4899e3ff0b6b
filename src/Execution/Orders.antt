-- ===== src/Execution/Orders.antt =====
-- services/brokers/base.py: orders and their results. A side that is not "long" is taken for "short",
-- the only other one that the code passes.
use apex_trader.Base.{ℕ, String, Bool, true, false, Option, List}
use apex_trader.Execution.Protection.{StopProblem}

-- The blockers of services/execution/live_gate.py; a report of another gate is its text.
pub data Blocker : Type 0 where
  no_ownership no_real_data database_down portfolio_not_loaded not_kite broker_not_ready : Blocker
  not_connected autoslice_on live_disabled capital_exceeds_backing not_approved : Blocker
  halted ip_not_confirmed short_history : Blocker
  reported : String → Blocker

pub data OrderType : Type 0 where
  market limit stop stop_limit bracket trailing_stop : OrderType

pub data OrderStatus : Type 0 where
  pending submitted partial filled rejected cancelled failed : OrderStatus

pub data Side : Type 0 where
  long short : Side

abbrev pub is_long : Side → Bool
is_long Side.long = true
is_long Side.short = false

-- A message, with the values that the source formats into it; `text` has the words of a broker, of an
-- exception and of the messages that have no values.
pub data Message (F : Type 0) : Type 0 where
  text : String → Message F
  paused_for : ℕ → Message F
  live_blocked : List Blocker → Message F
  with_stop : Message F → String → Message F
  stop_unconfirmed : StopProblem → Message F
  unprotected : Message F → Message F
  unknown_outcome : String → String → Message F

pub record OrderRequest (F : Type 0) : Type 0 where
  pub symbol : String
  pub side : Side
  pub qty : F
  pub order_type : OrderType
  pub stop_price : Option F
  pub take_profit : Option F
  pub strategy : String
  pub client_order_id : String
  pub product : Option String
  pub exchange : Option String

-- The keys of `raw` that the engine reads and writes are fields: `unknown` and `stop_fill` are false
-- where the key is missing.
pub record OrderResult (F : Type 0) : Type 0 where
  pub client_order_id : String
  pub broker_order_id : String
  pub status : OrderStatus
  pub filled_qty : F
  pub avg_price : F
  pub slippage_bps : F
  pub message : Message F
  pub stop_order_id : Option String
  pub unknown : Bool
  pub stop_fill : Bool

abbrev pub is_filled : OrderStatus → Bool
is_filled OrderStatus.filled = true
is_filled _ = false

-- `status in (FILLED, PARTIAL)`
abbrev pub has_fill : OrderStatus → Bool
has_fill OrderStatus.filled = true
has_fill OrderStatus.partial = true
has_fill _ = false

-- `status in (FAILED, REJECTED)`
abbrev pub is_refused : OrderStatus → Bool
is_refused OrderStatus.rejected = true
is_refused OrderStatus.failed = true
is_refused _ = false

abbrev pub is_failed : OrderStatus → Bool
is_failed OrderStatus.failed = true
is_failed _ = false

-- `status in (FILLED, REJECTED)`
abbrev pub is_settled : OrderStatus → Bool
is_settled OrderStatus.filled = true
is_settled OrderStatus.rejected = true
is_settled _ = false

abbrev pub is_submitted : OrderStatus → Bool
is_submitted OrderStatus.submitted = true
is_submitted _ = false

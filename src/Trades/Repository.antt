-- ===== src/Trades/Repository.antt =====
-- services/trades/repository.py: the table of orders, as a list of rows from the oldest to the newest.
-- The database's answer to a session, which it gives or not, is an argument. `none` is an exception.
use apex_trader.Base.{
  String, Bool, true, false, ◌&&◌, Option, none, some, List, [], ◌∷◌, ◌++◌, if◌then◌else◌, str_eq,
}
use apex_trader.Base.CaseMap.{CaseMap}
use apex_trader.Config.{TradingMode, is_live}
use apex_trader.Execution.Orders.{Side, Message, is_long}

pub data TradeStatus : Type 0 where
  pending submitted unknown filled sl_placed rejected failed cancelled closed : TradeStatus

-- `status in open_status`
abbrev pub is_open : TradeStatus → Bool
is_open TradeStatus.pending = true
is_open TradeStatus.submitted = true
is_open TradeStatus.unknown = true
is_open TradeStatus.filled = true
is_open TradeStatus.sl_placed = true
is_open _ = false

-- The row of `TradeRecord` in shared/models.py, less its ids and times.
pub record TradeRecord (F : Type 0) : Type 0 where
  pub client_order_id : String
  pub symbol : String
  pub strategy : String
  pub side : Side
  pub qty : F
  pub entry_price : Option F
  pub stop_loss : Option F
  pub take_profit : Option F
  pub exit_price : Option F
  pub exit_reason : Option String
  pub status : TradeStatus
  pub trading_mode : TradingMode
  pub broker_order_id : Option String
  pub stop_order_id : Option String
  pub message : Option (Message F)

-- The keyword arguments of `update_status`.
pub record Update (F : Type 0) : Type 0 where
  pub status : TradeStatus
  pub entry_price : Option F
  pub exit_price : Option F
  pub exit_reason : Option String
  pub broker_order_id : Option String
  pub stop_order_id : Option String
  pub message : Option (Message F)

-- A field that is given replaces the old one.
abbrev pub given {ℓ} : {A : Type ℓ} → Option A → Option A → Option A
given none old = old
given (some a) old = some a

module _ {F : Type 0} where
  abbrev pub updated : Update F → TradeRecord F → TradeRecord F
  updated u r = record r {
    status = u.status;
    entry_price = given u.entry_price r.entry_price;
    exit_price = given u.exit_price r.exit_price;
    exit_reason = given u.exit_reason r.exit_reason;
    broker_order_id = given u.broker_order_id r.broker_order_id;
    stop_order_id = given u.stop_order_id r.stop_order_id;
    message = given u.message r.message;
  }

  -- `select(TradeRecord).where(client_order_id == ...)`
  unfoldable pub find_row : String → List (TradeRecord F) → Option (TradeRecord F)
  find_row id [] = none
  find_row id (r ∷ rs) = if str_eq r.client_order_id id then some r else find_row id rs

  unfoldable pub update_row : String → Update F → List (TradeRecord F) → List (TradeRecord F)
  update_row id u [] = []
  update_row id u (r ∷ rs) =
      if str_eq r.client_order_id id then updated u r ∷ rs else r ∷ update_row id u rs

  -- What is done on an exception: in live mode it goes on to the caller.
  abbrev swallowed : TradingMode → List (TradeRecord F) → Option (List (TradeRecord F))
  swallowed mode rows = if is_live mode then none else some rows

  abbrev inserted :
      Option (TradeRecord F) → TradeRecord F → List (TradeRecord F) → List (TradeRecord F)
  inserted none row rows = rows ++ (row ∷ [])
  inserted (some old) row rows = rows

  -- `create_pending`, of a row that is pending; a row of the same id is kept as it is.
  unfoldable pub create_pending :
      Bool → TradeRecord F → List (TradeRecord F) → Option (List (TradeRecord F))
  create_pending session row rows =
      if session
      then some (inserted (find_row row.client_order_id rows) row rows)
      else swallowed row.trading_mode rows

  -- `update_status`, where `mode` is the trading mode of the settings.
  unfoldable pub update_status :
      Bool → TradingMode → String → Update F → List (TradeRecord F) → Option (List (TradeRecord F))
  update_status session mode id u rows =
      if session then some (update_row id u rows) else swallowed mode rows

  unfoldable pub get_by_client_id :
      Bool → String → List (TradeRecord F) → Option (Option (TradeRecord F))
  get_by_client_id session id rows = if session then some (find_row id rows) else none

  unfoldable pub open_rows : List (TradeRecord F) → List (TradeRecord F)
  open_rows [] = []
  open_rows (r ∷ rs) = let rest = open_rows rs in if is_open r.status then r ∷ rest else rest

  unfoldable pub open_trades : Bool → List (TradeRecord F) → Option (List (TradeRecord F))
  open_trades session rows = if session then some (open_rows rows) else none

  module _ ⦃u : CaseMap⦄ where
    abbrev matches_open : String → TradeRecord F → Bool
    matches_open symbol r = str_eq r.symbol (u.upper symbol) && is_long r.side && is_open r.status

    -- The newest of the rows, `limit(1)` after `order_by(created_at.desc())`.
    unfoldable pub last_open :
        String → Option (TradeRecord F) → List (TradeRecord F) → Option (TradeRecord F)
    last_open symbol found [] = found
    last_open symbol found (r ∷ rs) =
        last_open symbol (if matches_open symbol r then some r else found) rs

    unfoldable pub get_open_by_symbol :
        Bool → String → List (TradeRecord F) → Option (Option (TradeRecord F))
    get_open_by_symbol session symbol rows =
        if session then some (last_open symbol none rows) else none

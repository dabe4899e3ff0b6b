-- ===== src/Shadow/Engine.antt =====
-- services/shadow/engine.py: ShadowEngine, with its history's file beside it. JSON is a parameter where a
-- line is read; what is written is the text of an event, whole or in part, and JSON refuses an event with
-- a number that is not finite. A timestamp is its day and the rest of its text.
use apex_trader.Base.{
  ℕ, suc, String, Bool, true, false, not, ◌&&◌, Option, none, some, List, [], ◌∷◌, ◌++◌, map,
  length, if◌then◌else◌, ◌==◌,
}
use Prim.Native.String.{◌++◌ as ◌<>◌}
use apex_trader.Base.Floats.{FloatOps, ◌+F◌, ◌-F◌, ◌*F◌, ◌/F◌, ◌<F◌, ◌=F◌, num}
use apex_trader.Base.Dict.{contains, lookup, insert, remove}
use apex_trader.Config.{Settings}
use apex_trader.Execution.Orders.{OrderRequest, OrderResult, OrderStatus, Message}

pub record Timestamp : Type 0 where
  pub day : String
  pub time : String

pub record ShadowEntry (F : Type 0) : Type 0 where
  pub symbol : String
  pub qty : F
  pub entry : F
  pub strategy : String
  pub stop_loss : Option F
  pub take_profit : Option F
  pub client_order_id : String
  pub timestamp : Timestamp

pub record ShadowExit (F : Type 0) : Type 0 where
  pub symbol : String
  pub qty : F
  pub exit : F
  pub pnl : F
  pub strategy : String
  pub entry_timestamp : Timestamp
  pub timestamp : Timestamp

pub data Event (F : Type 0) : Type 0 where
  entry : ShadowEntry F → Event F
  exit : ShadowExit F → Event F
  missed : String → String → Timestamp → Event F

-- What is written by one write: `json.dumps` of an event, or an initial part of it with no end of line.
pub data Text (F : Type 0) : Type 0 where
  json part : Event F → Text F

-- The lines of `lifecycle-v2.jsonl`, each of the texts written on it, and those after the last end of line.
pub record ShadowFile (F : Type 0) : Type 0 where
  pub lines : List (List (Text F))
  pub unended : List (Text F)

-- What opening the file and writing a line comes to: the line is there, or the call raises and has
-- written nothing, or raises and has written a part of the line.
pub data Written : Type 0 where
  taken refused torn : Written

pub record ShadowEngine (F : Type 0) : Type 0 where
  pub file : ShadowFile F
  pub events : List (Event F)
  pub positions : List (String × ShadowEntry F)

-- `weekly_report`, less the numbers that only repeat a setting.
pub record WeeklyReport (F : Type 0) : Type 0 where
  pub simulated_fills : ℕ
  pub completed_trades : ℕ
  pub open_positions : ℕ
  pub active_days : ℕ
  pub missed_opportunities : ℕ
  pub total_shadow_pnl : F
  pub win_rate : F

-- The elements of a set of days, each once.
unfoldable pub days_of : List String → List String
days_of [] = []
days_of (d ∷ ds) = let rest = days_of ds in if contains rest d then rest else d ∷ rest

module _ {F : Type 0} where
  -- `_apply`
  unfoldable pub apply : Event F → List (String × ShadowEntry F) → List (String × ShadowEntry F)
  apply (Event.entry e) positions = insert e.symbol e positions
  apply (Event.exit e) positions = remove e.symbol positions
  apply (Event.missed _ _ _) positions = positions

  unfoldable pub apply_all :
      List (Event F) → List (String × ShadowEntry F) → List (String × ShadowEntry F)
  apply_all [] positions = positions
  apply_all (e ∷ es) positions = apply_all es (apply e positions)

  -- `path.read_text().splitlines()`
  abbrev pub lines_of : ShadowFile F → List (List (Text F))
  lines_of f = elim f.unended [ [] ↦ f.lines | t ∷ ts ↦ f.lines ++ ((t ∷ ts) ∷ []) ]

  -- `json.loads` of every line; `none` is the exception of a line that is no JSON.
  unfoldable pub load_lines :
      (List (Text F) → Option (Event F)) → List (List (Text F)) → Option (List (Event F))
  load_lines loads [] = some []
  load_lines loads (l ∷ ls) =
      let rest = load_lines loads ls in
      elim (loads l) [ none ↦ none | some e ↦ elim rest [ none ↦ none | some es ↦ some (e ∷ es) ] ]

  -- `ShadowEngine()`, with `json.loads` as the first argument.
  unfoldable pub new_engine :
      (List (Text F) → Option (Event F)) → ShadowFile F → Option (ShadowEngine F)
  new_engine loads f = elim (load_lines loads (lines_of f)) [
    | none ↦ none
    | some es ↦ some (record { file = f; events = es; positions = apply_all es [] })
  ]

  unfoldable pub entries_of : List (Event F) → List (ShadowEntry F)
  entries_of [] = []
  entries_of (Event.entry e ∷ es) = e ∷ entries_of es
  entries_of (_ ∷ es) = entries_of es

  unfoldable pub exits_of : List (Event F) → List (ShadowExit F)
  exits_of [] = []
  exits_of (Event.exit e ∷ es) = e ∷ exits_of es
  exits_of (_ ∷ es) = exits_of es

  unfoldable pub missed_count : List (Event F) → ℕ
  missed_count [] = 0
  missed_count (Event.missed _ _ _ ∷ es) = suc (missed_count es)
  missed_count (_ ∷ es) = missed_count es

  -- The append to the file.
  unfoldable pub write_line : Event F → Written → ShadowFile F → ShadowFile F
  write_line e Written.taken f = record {
    lines = f.lines ++ ((f.unended ++ (Text.json e ∷ [])) ∷ []);
    unended = [];
  }
  write_line e Written.refused f = f
  write_line e Written.torn f = record f { unended = f.unended ++ (Text.part e ∷ []) }

module _ {F : Type 0} ⦃o : FloatOps F⦄ where
  abbrev finite_or_none : Option F → Bool
  finite_or_none none = true
  finite_or_none (some x) = o.is_finite x

  -- `json.dumps(event, allow_nan=False)` does not raise.
  unfoldable pub is_storable : Event F → Bool
  is_storable (Event.entry e) =
      o.is_finite e.qty
      && o.is_finite e.entry
      && finite_or_none e.stop_loss
      && finite_or_none e.take_profit
  is_storable (Event.exit e) = o.is_finite e.qty && o.is_finite e.exit && o.is_finite e.pnl
  is_storable (Event.missed _ _ _) = true

  abbrev rejected : String → String → OrderResult F
  rejected id why = record {
    client_order_id = id;
    broker_order_id = "";
    status = OrderStatus.rejected;
    filled_qty = num 0;
    avg_price = num 0;
    slippage_bps = num 0;
    message = Message.text why;
    stop_order_id = none;
    unknown = false;
    stop_fill = false;
  }

  abbrev filled : Settings F → String → String → F → F → String → OrderResult F
  filled cfg id broker_id qty fill why = record {
    client_order_id = id;
    broker_order_id = broker_id;
    status = OrderStatus.filled;
    filled_qty = qty;
    avg_price = fill;
    slippage_bps = cfg.shadow_slippage_bps;
    message = Message.text why;
    stop_order_id = none;
    unknown = false;
    stop_fill = false;
  }

  -- `self._record`: the file, then the list, then the positions. `false` is an exception, of the event that JSON
  -- refuses or of the file, after which neither the list nor the positions have the event.
  unfoldable pub record_event : Event F → Written → ShadowEngine F → Bool × ShadowEngine F
  record_event e written s = if not (is_storable e) then (false, s) else elim written [
    | Written.taken ↦ (
      true,
      record {
        file = write_line e Written.taken s.file;
        events = s.events ++ (e ∷ []);
        positions = apply e s.positions;
      },
    )
    | Written.refused ↦ (false, record s { file = write_line e Written.refused s.file })
    | Written.torn ↦ (false, record s { file = write_line e Written.torn s.file })
  ]

  -- A result once the event is recorded, with the engine after it; `none` is the exception.
  abbrev pub stored : {A : Type 0} → A → Bool × ShadowEngine F → Option A × ShadowEngine F
  stored r (true, s) = (some r, s)
  stored r (false, s) = (none, s)

  unfoldable pub simulate :
      Settings F
      → Timestamp
      → Written
      → OrderRequest F
      → F
      → ShadowEngine F
      → Option (OrderResult F) × ShadowEngine F
  simulate cfg now written req market_price s =
      let fill = market_price *F (num 1 +F cfg.shadow_slippage_bps /F num 10000) in
      elim (lookup req.symbol s.positions) [
        | some held ↦ (some (rejected req.client_order_id "Shadow position already open"), s)
        | none ↦
            stored
              (filled cfg req.client_order_id ("SHADOW-" <> req.client_order_id) req.qty fill
                "Shadow entry; outcome pending")
              (record_event
                (Event.entry (record {
                  symbol = req.symbol;
                  qty = req.qty;
                  entry = fill;
                  strategy = req.strategy;
                  stop_loss = req.stop_price;
                  take_profit = req.take_profit;
                  client_order_id = req.client_order_id;
                  timestamp = now;
                }))
                written s)
      ]

  -- The profit of an exit, its costs taken off.
  abbrev pub exit_pnl : Settings F → F → F → ShadowEntry F → F
  exit_pnl cfg fill qty p =
      (fill -F p.entry) *F qty -F p.entry *F qty *F cfg.estimated_round_trip_cost_bps /F num 10000

  unfoldable pub simulate_exit :
      Settings F
      → Timestamp
      → Written
      → OrderRequest F
      → F
      → ShadowEngine F
      → Option (OrderResult F) × ShadowEngine F
  simulate_exit cfg now written req market_price s =
      let fill = market_price *F (num 1 -F cfg.shadow_slippage_bps /F num 10000) in
      let mismatch : Option (OrderResult F) × ShadowEngine F =
        (some (rejected req.client_order_id "Shadow position mismatch"), s) in
      elim (lookup req.symbol s.positions) [
        | none ↦ mismatch
        | some p ↦
            if not (req.qty =F p.qty)
            then mismatch
            else stored
                (filled cfg req.client_order_id ("SHADOW-EXIT-" <> req.client_order_id) req.qty fill
                  "Shadow exit")
                (record_event
                  (Event.exit (record {
                    symbol = req.symbol;
                    qty = req.qty;
                    exit = fill;
                    pnl = exit_pnl cfg fill req.qty p;
                    strategy = p.strategy;
                    entry_timestamp = p.timestamp;
                    timestamp = now;
                  }))
                  written s)
      ]

  unfoldable pub record_missed :
      Timestamp → Written → String → String → ShadowEngine F → Bool × ShadowEngine F
  record_missed now written symbol reason s =
      record_event (Event.missed symbol reason now) written s

  unfoldable pub pnl_from : F → List (ShadowExit F) → F
  pnl_from acc [] = acc
  pnl_from acc (e ∷ es) = pnl_from (acc +F e.pnl) es

  unfoldable pub wins_of : List (ShadowExit F) → ℕ
  wins_of [] = 0
  wins_of (e ∷ es) = let rest = wins_of es in if num 0 <F e.pnl then suc rest else rest

  unfoldable pub weekly_report : ShadowEngine F → WeeklyReport F
  weekly_report s =
      let exits = exits_of s.events in
      let entries = entries_of s.events in
      record {
        simulated_fills = length entries;
        completed_trades = length exits;
        open_positions = length s.positions;
        active_days =
            length
              (days_of (map (λ e. e.timestamp.day) entries ++ map (λ e. e.timestamp.day) exits));
        missed_opportunities = missed_count s.events;
        total_shadow_pnl = o.round (pnl_from (num 0) exits) 2;
        win_rate =
            if length exits == 0
            then num 0
            else num 100 *F num (wins_of exits) /F num (length exits);
      }

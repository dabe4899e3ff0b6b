-- ===== src/Tests/Shadow.antt =====
-- services/shadow and services/golive: a history that is continued, and the gate before live trading.
use apex_trader.Base.{refl, Option, ◌≡◌, ◌↔◌, ℕ, true, none, some, List, [], ◌∷◌, leb}
use apex_trader.Base.Floats.{num, ratio, ◌<F◌, ◌≤F◌}
use apex_trader.Base.Dict.{lookup}
use apex_trader.Shadow.Engine.{
  Event, Text, Written, ShadowFile, ShadowEngine, Timestamp, WeeklyReport, apply_all, load_lines,
  new_engine, record_missed, record_event, write_line, is_storable,
}
use apex_trader.Shadow.History.{Call, Loads, held_by, perform, perform_all, restart_lem}
use apex_trader.Golive.Gate.{Backtest, evaluate}
use apex_trader.Golive.Readiness.{evaluate-live_allowed_iff}
use apex_trader.Tests.Samples.{milli, settings}
use apex_trader.Tests.Engine.{request}

abbrev morning : Timestamp
morning = record { day = "2026-01-05"; time = "09:20:00" }

abbrev bought : Event ℕ
bought = Event.entry (record {
  symbol = "SBIN";
  qty = num 2;
  entry = num 800;
  strategy = "momentum";
  stop_loss = some (num 780);
  take_profit = none;
  client_order_id = "order-0";
  timestamp = morning;
})

-- A file of one line.
abbrev history : ShadowFile ℕ
history = record { lines = (Text.json bought ∷ []) ∷ []; unended = [] }

-- Two of the writes are refused.
abbrev calls : List (Call ℕ)
calls =
    Call.entering morning Written.refused request (num 100)
    ∷ Call.entering morning Written.taken request (num 100)
    ∷ Call.missing morning Written.refused "TCS" "score"
    ∷ Call.exiting morning Written.taken request (num 110)
    ∷ Call.missing morning Written.taken "TCS" "score"
    ∷ []

-- `json.loads`, of a line that is the text of one event.
abbrev loads_one : List (Text ℕ) → Option (Event ℕ)
loads_one (Text.json e ∷ []) = some e
loads_one _ = none

loads_one_lem : Loads loads_one
loads_one_lem e h = refl

abbrev started : ShadowEngine ℕ
started = record { file = history; events = bought ∷ []; positions = apply_all (bought ∷ []) [] }

history_loads : new_engine loads_one history ≡ some started
unfolding new_engine load_lines
history_loads = refl

restart_lem_example :
    let s = perform_all settings calls started in
    (new_engine loads_one s.file ≡ some s) × (lookup "SBIN" s.positions ≡ held_by "SBIN" s.events)
restart_lem_example =
    restart_lem loads_one loads_one_lem settings history calls started "SBIN" refl refl
      history_loads

-- After a write that left a part of its line, a restart finds a line that is no JSON.
torn_restart :
    let s = perform_all settings (Call.missing morning Written.torn "TCS" "score" ∷ []) started in
    new_engine loads_one s.file ≡ none
unfolding new_engine load_lines perform_all perform record_missed record_event write_line
    is_storable
torn_restart = refl

abbrev backtest : Backtest ℕ
backtest = record {
  sharpe = some (num 2);
  win_rate = some (num 50);
  profit_factor = some (num 2);
  max_drawdown = some (num 5);
  passed_validation = some true;
}

abbrev week : WeeklyReport ℕ
week = record {
  simulated_fills = 35;
  completed_trades = 31;
  open_positions = 4;
  active_days = 15;
  missed_opportunities = 2;
  total_shadow_pnl = num 900;
  win_rate = num 55;
}

evaluate-live_allowed_iff_example :
    ((evaluate settings backtest week true (ratio 9 10) true (num 80 ∷ [])).live_allowed ≡ true) ↔ (
      (settings.enable_live_execution ≡ true)
      × ((◌≤F◌ {F = ℕ} (num 1) (num 2)) ≡ true)
      × ((◌≤F◌ {F = ℕ} (num 45) (num 50)) ≡ true)
      × ((◌≤F◌ {F = ℕ} (ratio 12 10) (num 2)) ≡ true)
      × ((◌≤F◌ {F = ℕ} (num 5) (num 8)) ≡ true)
      × (true ≡ true)
      × (leb 30 31 ≡ true)
      × (leb 14 15 ≡ true)
      × ((◌<F◌ {F = ℕ} (num 0) (num 900)) ≡ true)
      × (true ≡ true)
      × (true ≡ true)
      × ((◌≤F◌ {F = ℕ} (ratio 85 100) (ratio 9 10)) ≡ true))
evaluate-live_allowed_iff_example =
    evaluate-live_allowed_iff settings backtest week true (ratio 9 10) true (num 80 ∷ [])

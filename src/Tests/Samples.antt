-- ===== src/Tests/Samples.antt =====
-- A number type, a server, a case mapping, settings and records to run the models on.
use apex_trader.Base.{
  ℕ, ◌+◌, ◌-◌, ◌*◌, ◌/◌, ◌≡◌, ◌≢◌, ◌⊎◌, String, Bool, true, false, Option, none, some, List, [],
  ◌∷◌, if◌then◌else◌, ltb, leb, ◌==◌, eq_iff, eq_refl, arith,
}
use apex_trader.Base.Floats.{FloatOps, num, ratio}
use apex_trader.Base.Dict.{lookup, insert, lookup-insert}
use apex_trader.Base.CaseMap.{CaseMap}
use apex_trader.Cache.{Redis, RedisLaws}
use apex_trader.Config.{Settings, paper}

-- Thousandths of a number that is not negative.
instance abbrev pub milli : FloatOps ℕ
milli = record {
  of_ℕ = λ n. n * 1000;
  add = λ a b. a + b;
  sub = λ a b. a - b;
  mul = λ a b. a * b / 1000;
  div = λ a b. a * 1000 / b;
  lt = ltb;
  le = leb;
  eq = ◌==◌;
  is_finite = λ x. true;
  trunc = λ x. x / 1000 * 1000;
  round = λ x n. x;
}

-- Texts that are as they should be already.
instance abbrev pub capitals : CaseMap
capitals = record { upper = λ s. s; lower = λ s. s }

pub record Server : Type 0 where
  pub readable : Bool
  pub writable : Bool
  pub entries : List (String × String)

abbrev server_get : String → Server → Option (Option String)
server_get k s = if s.readable then some (lookup k s.entries) else none

abbrev server_set : String → String → Server → Server × Bool
server_set k v s =
    if s.writable then (record s { entries = insert k v s.entries }, true) else (s, false)

instance abbrev pub server : Redis Server
server = record { get = server_get; set = server_set }

server_get-set :
    (k v : String) (s : Server)
    → (server_set k v s).1 ≡ true
    → (server_get k (server_set k v s).0 ≡ none)
      ⊎ (server_get k (server_set k v s).0 ≡ some (some v))
server_get-set k v s h = ground (arith, lookup-insert k k v s.entries, eq_refl k)

server_get-set_ne :
    (k j v : String) (s : Server)
    → k ≢ j
    → (server_get j (server_set k v s).0 ≡ none)
      ⊎ (server_get j (server_set k v s).0 ≡ server_get j s)
server_get-set_ne k j v s ne = ground (arith, lookup-insert k j v s.entries, eq_iff k j)

pub server_laws : RedisLaws server
server_laws = record { get-set = server_get-set; get-set_ne = server_get-set_ne }

abbrev pub up_server : Server
up_server = record { readable = true; writable = true; entries = [] }

-- A server that answers reads and refuses writes, with the latch's key written as "false" before.
abbrev pub read_only_server : Server
read_only_server = record {
  readable = true;
  writable = false;
  entries = ("apex:kill_switch_latched", "false") ∷ [];
}

abbrev pub settings : Settings ℕ
settings = record {
  initial_capital = num 1000000;
  max_risk_per_trade_pct = ratio 5 10;
  max_position_value_pct = num 25;
  cash_reserve_pct = num 10;
  min_net_reward_risk = ratio 15 10;
  estimated_round_trip_cost_bps = num 10;
  estimated_exit_slippage_bps = num 5;
  golive_min_completed_trades = 30;
  max_daily_loss_pct = ratio 15 10;
  max_weekly_loss_pct = num 3;
  max_monthly_loss_pct = num 5;
  max_monthly_drawdown_pct = num 5;
  max_portfolio_heat_pct = num 4;
  max_correlated_exposure_pct = num 15;
  max_sector_concentration_pct = num 20;
  min_confidence_score = num 72;
  max_open_positions = 8;
  consecutive_loss_reduce = 3;
  consecutive_loss_halt = 5;
  high_vol_size_multiplier = ratio 5 10;
  vol_threshold_reduce = num 35;
  kelly_cap_fraction = ratio 25 100;
  trading_mode = paper;
  enable_live_execution = false;
  shadow_slippage_bps = num 3;
  golive_min_sharpe = num 1;
  golive_min_win_rate = num 45;
  golive_max_drawdown = num 8;
  golive_min_shadow_days = 14;
  golive_min_profit_factor = ratio 12 10;
  min_data_quality_score = ratio 85 100;
  strategy_disable_win_rate = num 35;
  strategy_disable_min_trades = 20;
  api_failure_threshold = 5;
  api_circuit_pause_minutes = 10;
  enforce_market_hours = true;
  max_entry_deviation_pct = num 2;
  sizing_risk_breach_tolerance = ratio 101 100;
  enforce_sector_correlation_limits = false;
  icb_drift_restrict_threshold = 1;
  default_broker = "kite";
  kite_exchange = "NSE";
  kite_product = "MIS";
  kite_autoslice = false;
  kite_static_ip_confirmed = true;
  golive_approved = true;
  chaos_report_max_age_hours = 168;
  idempotency_bucket_minutes = 5;
}

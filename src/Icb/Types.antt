-- ===== src/Icb/Types.antt =====
-- services/icb/actions.py, decisions.py and signals.py, and `_market_open` of engine.py: what is asked
-- of the brain, what it answers, and what it reads. A message that carries values is a constructor.
use apex_trader.Base.{
  ℕ, ◌*◌, ◌+◌, String, Bool, true, false, not, ◌&&◌, ◌||◌, Option, none, some, if◌then◌else◌, leb,
}
use apex_trader.Base.Floats.{FloatOps, ◌-F◌, ◌<F◌, num}
use apex_trader.Icb.SystemState.{SystemState}

pub data Action : Type 0 where
  analyze_symbol place_order place_exit autonomous_tick start_autonomous : Action
  stop_autonomous strategy_scan kill_switch resume reconciliation : Action
  lifecycle_tick admin_reset run_chaos : Action

-- `action.value in TRADING_ACTIONS`
unfoldable pub is_trading : Action → Bool
is_trading Action.analyze_symbol = true
is_trading Action.place_order = true
is_trading Action.place_exit = true
is_trading Action.autonomous_tick = true
is_trading Action.start_autonomous = true
is_trading Action.strategy_scan = true
is_trading _ = false

-- The actions that open exposure: they are stopped while PAUSED and by execution drift.
unfoldable pub is_entry : Action → Bool
is_entry Action.place_order = true
is_entry Action.autonomous_tick = true
is_entry Action.start_autonomous = true
is_entry _ = false

-- The actions that wait for the market to be open.
unfoldable pub needs_market : Action → Bool
needs_market Action.analyze_symbol = true
needs_market Action.place_order = true
needs_market Action.start_autonomous = true
needs_market _ = false

-- The actions that go on in EMERGENCY_LOCK.
unfoldable pub survives_lock : Action → Bool
survives_lock Action.reconciliation = true
survives_lock Action.admin_reset = true
survives_lock Action.stop_autonomous = true
survives_lock _ = false

abbrev pub is_exit : Action → Bool
is_exit Action.place_exit = true
is_exit _ = false

abbrev pub is_place_order : Action → Bool
is_place_order Action.place_order = true
is_place_order _ = false

abbrev pub is_chaos : Action → Bool
is_chaos Action.run_chaos = true
is_chaos _ = false

pub data Decision : Type 0 where
  allow deny pause_system lock : Decision

pub data Reason : Type 0 where
  text : String → Reason
  drift_detected : ℕ → ℕ → Reason
  risk_status : String → Reason
  timed_out : Reason
  failed : String → Reason

pub data Integrity : Type 0 where
  ok drift failed unknown : Integrity

abbrev pub is_ok : Integrity → Bool
is_ok Integrity.ok = true
is_ok _ = false

-- `ICBResult`, less its latency.
pub record IcbResult : Type 0 where
  pub decision : Decision
  pub reason : Reason
  pub system_state : SystemState
  pub crce_integrity : Integrity

unfoldable pub allowed : IcbResult → Bool
allowed r = elim r.decision [ Decision.allow ↦ true | _ ↦ false ]

-- `SystemSignals`, less the list of issues.
pub record Signals : Type 0 where
  pub crce_integrity : Integrity
  pub drift_count : ℕ
  pub reconciliation_degraded : Bool

-- What `_collect_signals_inner` reads: the reconciliation status; the verdict on the chain and the
-- number of drifts, `none` where the check raised.
pub record Probes : Type 0 where
  pub degraded : Bool
  pub chain_valid : Option Bool
  pub drifts : Option ℕ

unfoldable pub collect_signals_inner : Probes → Signals
collect_signals_inner p = record {
  crce_integrity = elim p.chain_valid [
    | none ↦ Integrity.failed
    | some valid ↦ if valid then Integrity.ok else Integrity.drift
  ];
  drift_count = elim p.drifts [ none ↦ 0 | some n ↦ n ];
  reconciliation_degraded = p.degraded;
}

-- `collect_signals`: what was read less than a minute ago is used again.
module _ {F : Type 0} ⦃o : FloatOps F⦄ where
  abbrev cached_signals : F → Option (F × Signals) → Option Signals
  cached_signals now none = none
  cached_signals now (some (t, s)) = if (now -F t) <F num 60 then some s else none

  unfoldable pub collect_signals :
      F → Probes → Option (F × Signals) → Signals × Option (F × Signals)
  unfolding collect_signals_inner
  collect_signals now p cache = elim (cached_signals now cache) [
    | some s ↦ (s, cache)
    | none ↦ (collect_signals_inner p, some (now, collect_signals_inner p))
  ]

-- The halting flags of a portfolio.
pub record Halts : Type 0 where
  pub emergency_halt : Bool
  pub circuit_breaker : Bool
  pub black_swan_mode : Bool

-- `portfolio.is_trading_halted()`
abbrev pub is_trading_halted : Halts → Bool
is_trading_halted h = h.emergency_halt || h.circuit_breaker || h.black_swan_mode

abbrev pub halted_portfolio : Option Halts → Bool
halted_portfolio none = false
halted_portfolio (some h) = is_trading_halted h

abbrev pub black_swan_portfolio : Option Halts → Bool
black_swan_portfolio none = false
black_swan_portfolio (some h) = h.black_swan_mode

-- The wall clock in India: `weekday()`, and the time of day in microseconds.
pub record Clock : Type 0 where
  pub weekday : ℕ
  pub time : ℕ

abbrev minute : ℕ
minute = 60 * 1000000

abbrev pub session_open : ℕ
session_open = (9 * 60 + 15) * minute

abbrev pub session_close : ℕ
session_close = (15 * 60 + 30) * minute

-- `_market_open`, less its message.
unfoldable pub market_open : Bool → Clock → Bool
market_open enforced c =
    if not enforced
    then true
    else if leb 5 c.weekday
    then false
    else leb session_open c.time && leb c.time session_close

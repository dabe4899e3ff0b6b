-- ===== src/Governance/Engine.antt =====
-- services/governance/engine.py: the lifecycle of the strategies. The clock is an argument, `now`;
-- the audit records that the methods also write are not modelled.
use apex_trader.Base.{
  ◌+◌, String, Bool, true, false, not, ◌&&◌, Option, none, some, List, [], ◌∷◌, if◌then◌else◌, leb,
  ◌==◌, is_some,
}
use apex_trader.Base.Floats.{FloatOps, ◌+F◌, ◌*F◌, ◌/F◌, ◌<F◌, ◌≤F◌, num}
use apex_trader.Base.Dict.{contains, lookup, insert, get_or}
use apex_trader.Config.{Settings}
use apex_trader.Governance.Models.{
  StrategyState, active, throttled, disabled, killed, Reason, StrategyRecord, GovernanceDecision,
  is_tradeable_state, reason_or, default_throttle_factor, new_record,
}
use apex_trader.Governance.Policy.{evaluate_strategy, factor_of}
use apex_trader.Governance.Store.{Records, Store, load, save}

-- The names of `STRATEGY_REGISTRY` in services/strategies/engine.py.
abbrev pub strategy_registry : List String
strategy_registry =
    "trend_following" ∷ "momentum" ∷ "mean_reversion" ∷ "breakout" ∷ "volatility_expansion" ∷ []

-- `strategy in STRATEGY_REGISTRY`
unfoldable pub is_registered : String → Bool
is_registered n = contains strategy_registry n

pub record Engine (F : Type 0) : Type 0 where
  pub records : Records F
  pub loaded : Bool
  pub store : Store F

-- What `set_state` returns.
pub data SetResult (F : Type 0) : Type 0 where
  unknown_strategy : SetResult F
  killed_is_final : SetResult F
  updated : StrategyRecord F → SetResult F

abbrev pub is_killed : StrategyState → Bool
is_killed killed = true
is_killed _ = false

abbrev pub is_active : StrategyState → Bool
is_active active = true
is_active _ = false

abbrev pub is_throttled : StrategyState → Bool
is_throttled throttled = true
is_throttled _ = false

-- An empty or missing list of lab strategies stands for all that are registered.
abbrev pub lab_set : List String → List String
lab_set [] = strategy_registry
lab_set (n ∷ ns) = n ∷ ns

module _ {F : Type 0} ⦃o : FloatOps F⦄ where
  -- The two loops of `ensure_loaded`.
  pub add_registered : String → Records F → List String → Records F → Records F
  add_registered now stored [] records = records
  add_registered now stored (n ∷ ns) records =
      add_registered now stored ns (insert n (get_or n stored (new_record now n)) records)

  pub add_stored : Records F → Records F → Records F
  add_stored [] records = records
  add_stored ((n, r) ∷ rest) records =
      add_stored rest (if is_some (lookup n records) then records else insert n r records)

  unfoldable pub ensure_loaded : String → Option (Records F) → Engine F → Engine F
  unfolding add_registered add_stored
  ensure_loaded now cached e =
      let (store, stored) = load cached e.store in
      if e.loaded then e else record {
        records = add_stored stored (add_registered now stored strategy_registry e.records);
        loaded = true;
        store = store;
      }

  -- `self._records.setdefault(strategy, StrategyRecord(name=strategy))`
  abbrev pub record_of : String → String → Engine F → StrategyRecord F
  record_of now strategy e = get_or strategy e.records (new_record now strategy)

  abbrev with_record : String → StrategyRecord F → Engine F → Engine F
  with_record strategy r e = record e { records = insert strategy r e.records }

  abbrev persist : Engine F → Engine F
  persist e = record e { store = save e.records e.store }

  -- The throttle factor that `set_state` leaves.
  abbrev new_factor : StrategyState → Option F → F → F
  new_factor state (some f) old = f
  new_factor state none old =
      if is_throttled state && (old ≤F num 0) then default_throttle_factor else old

  abbrev pub updated_record :
      String → StrategyState → Reason F → String → Option F → StrategyRecord F → StrategyRecord F
  updated_record now state reason actor factor r = record r {
    state = state;
    reason = reason_or reason (Reason.set_to state actor);
    updated_at = now;
    updated_by = actor;
    throttle_factor = new_factor state factor r.throttle_factor;
  }

  -- `set_state`, after `ensure_loaded`.
  unfoldable pub set_state :
      String
      → String
      → StrategyState
      → Reason F
      → String
      → Option F
      → Engine F
      → Engine F × SetResult F
  set_state now strategy state reason actor factor e =
      let r = record_of now strategy e in
      let r' = updated_record now state reason actor factor r in
      if not (is_some (lookup strategy e.records)) && not (is_registered strategy)
      then (e, SetResult.unknown_strategy)
      else if is_killed r.state && not (is_killed state)
      then (with_record strategy r e, SetResult.killed_is_final)
      else (persist (with_record strategy r' e), SetResult.updated r')

  -- The counters and the win rate after one more trade.
  abbrev pub counted : String → F → StrategyRecord F → StrategyRecord F
  counted now pnl r =
      let trades = r.trades + 1 in
      let wins = if num 0 <F pnl then r.wins + 1 else r.wins in
      record r {
        trades = trades;
        wins = wins;
        total_pnl = r.total_pnl +F pnl;
        win_rate = if trades == 0 then num 0 else num wins /F num trades *F num 100;
        updated_at = now;
        updated_by = "performance";
      }

  -- Is the strategy to be disabled after this trade?
  abbrev pub underperforms : Settings F → StrategyRecord F → Bool
  underperforms cfg r =
      leb cfg.strategy_disable_min_trades r.trades
      && (r.win_rate <F cfg.strategy_disable_win_rate)
      && is_active r.state

  abbrev pub judged : Settings F → StrategyRecord F → StrategyRecord F
  judged cfg r =
      if underperforms cfg r
      then record r {
        state = disabled;
        reason = Reason.auto_disabled r.win_rate cfg.strategy_disable_win_rate;
      }
      else r

  -- `record_outcome`, after `ensure_loaded`.
  unfoldable pub record_outcome : Settings F → String → String → F → Engine F → Engine F
  record_outcome cfg now strategy pnl e =
      let r = record_of now strategy e in
      if is_killed r.state
      then with_record strategy r e
      else persist (with_record strategy (judged cfg (counted now pnl r)) e)

  -- The loop of `resolve_allowed`: the allowed names, and each strategy's decision.
  unfoldable pub resolve_records :
      String
      → List String
      → List String
      → Records F
      → List String × List (String × GovernanceDecision F)
  resolve_records regime recommended lab [] = ([], [])
  resolve_records regime recommended lab ((n, r) ∷ rest) =
      let d = evaluate_strategy r regime recommended (contains lab n) in
      let (allowed, decisions) = resolve_records regime recommended lab rest in
      (if d.allowed then n ∷ allowed else allowed, (n, d) ∷ decisions)

  unfoldable pub resolve_allowed :
      String
      → List String
      → List String
      → Engine F
      → List String × List (String × GovernanceDecision F)
  unfolding resolve_records
  resolve_allowed regime recommended lab e =
      resolve_records regime recommended (lab_set lab) e.records

  unfoldable pub check_trade :
      String → String → String → List String → Bool → Engine F → GovernanceDecision F
  check_trade now strategy regime recommended lab_enabled e =
      evaluate_strategy (record_of now strategy e) regime recommended lab_enabled

  unfoldable pub size_multiplier : String → Engine F → F
  size_multiplier strategy e = elim (lookup strategy e.records) [
    | none ↦ num 1
    | some r ↦ if is_throttled r.state then factor_of r else num 1
  ]

  -- The names that the risk layer blocks.
  unfoldable pub disabled_records : Records F → List String
  disabled_records [] = []
  disabled_records ((n, r) ∷ rest) =
      if is_tradeable_state r.state then disabled_records rest else n ∷ disabled_records rest

  unfoldable pub disabled_for_risk : Engine F → List String
  unfolding disabled_records
  disabled_for_risk e = disabled_records e.records

-- ===== src/Tests/Governance.antt =====
-- services/governance on five strategies, of which two no longer trade.
use apex_trader.Base.{
  ◌≡◌, refl, ◌↔◌, ℕ, ◌+◌, String, Bool, true, false, none, some, List, [], ◌∷◌, if◌then◌else◌, leb,
  ◌&&◌,
}
use apex_trader.Base.Floats.{◌+F◌, ◌*F◌, ◌/F◌, num, ◌<F◌}
use apex_trader.Base.Dict.{contains, lookup}
use apex_trader.Governance.Models.{
  StrategyState, active, throttled, paused, disabled, killed, Reason, StrategyRecord,
  is_tradeable_state,
}
use apex_trader.Governance.Policy.{evaluate_strategy, evaluate_strategy-allowed_iff}
use apex_trader.Governance.Engine.{
  Engine, is_active, record_of, record_outcome, resolve_allowed, check_trade, disabled_for_risk,
}
use apex_trader.Governance.Killed.{Call, perform_all, IsKilled, perform_all-IsKilled}
use apex_trader.Governance.Counters.{record_outcome_lem}
use apex_trader.Governance.Resolution.{allowed_at, resolve_allowed_lem, allowed_not_disabled}
use apex_trader.Tests.Samples.{milli, settings}

abbrev strategy : String → StrategyState → ℕ → ℕ → StrategyRecord ℕ
strategy name state trades wins = record {
  name = name;
  state = state;
  reason = Reason.text "";
  throttle_factor = num 0;
  trades = trades;
  wins = wins;
  total_pnl = num 0;
  win_rate = num 50;
  updated_at = "";
  updated_by = "system";
}

abbrev engine : Engine ℕ
engine = record {
  records =
      ("momentum", strategy "momentum" killed 4 1)
      ∷ ("breakout", strategy "breakout" active 19 2)
      ∷ ("trend_following", strategy "trend_following" throttled 3 3)
      ∷ ("mean_reversion", strategy "mean_reversion" paused 0 0)
      ∷ [];
  loaded = true;
  store = record { memory = []; file = none };
}

abbrev names : List String
names = "momentum" ∷ "breakout" ∷ "trend_following" ∷ "mean_reversion" ∷ []

resolve-names : (resolve_allowed "trending" names [] engine).0 ≡ "breakout" ∷ "trend_following" ∷ []
unfolding resolve_allowed evaluate_strategy
resolve-names = refl

evaluate_strategy-allowed_iff_example :
    ((evaluate_strategy (strategy "breakout" active 1 1) "trending" names true).allowed ≡ true) ↔ (
      (is_tradeable_state active ≡ true)
      × (◌≡◌ {A = Bool} true true)
      × (contains names "breakout" ≡ true))
evaluate_strategy-allowed_iff_example =
    evaluate_strategy-allowed_iff (strategy "breakout" active 1 1) "trending" names true

-- Attempts to revive a killed strategy, and trades of it and of another.
abbrev calls : List (Call ℕ)
calls =
    Call.setting "t1" "momentum" active (Reason.text "retry") "admin" none
    ∷ Call.outcome settings "t2" "momentum" (num 5)
    ∷ Call.outcome settings "t3" "breakout" (num 5)
    ∷ Call.loading "t4" (some [])
    ∷ []

perform_all-IsKilled_example :
    IsKilled "momentum" (perform_all calls engine)
    × ((check_trade "t5" "momentum" "trending" names true (perform_all calls engine)).allowed
        ≡ false)
perform_all-IsKilled_example =
    perform_all-IsKilled "momentum" calls engine "t5" "trending" names true (refl, refl)

record_outcome_lem_example :
    let rate : ℕ = num 2 /F num (19 + 1) *F num 100 in
    let r' = record_of "t" "breakout" (record_outcome settings "t" "breakout" (num 0) engine) in
    (r'.trades ≡ 19 + 1)
    × (r'.wins ≡ 2)
    × (r'.total_pnl ≡ (record_of "t" "breakout" engine).total_pnl +F num 0)
    × (r'.win_rate ≡ rate)
    × (r'.state
        ≡ (if leb 20 (19 + 1) && (rate <F num 35) && is_active active then disabled else active))
    × (◌≡◌ {A = Bool} false false
        → lookup "momentum" (record_outcome settings "t" "breakout" (num 0) engine).records
          ≡ some (strategy "momentum" killed 4 1))
record_outcome_lem_example =
    record_outcome_lem settings "t" "breakout" "momentum" (num 0) engine refl

-- The twentieth trade, a loss, disables the strategy.
breakout_disabled :
    (record_of "t" "breakout" (record_outcome settings "t" "breakout" (num 0) engine)).state
    ≡ disabled
unfolding record_outcome
breakout_disabled = refl

resolve_allowed_lem_example :
    contains (resolve_allowed "trending" names [] engine).0 "breakout"
    ≡ allowed_at (some (strategy "breakout" active 19 2)) "trending" names true
resolve_allowed_lem_example =
    resolve_allowed_lem "breakout" "trending" names [] engine (refl, (refl, (refl, (refl, tt))))

allowed_not_disabled_example : contains (disabled_for_risk engine) "breakout" ≡ false
unfolding resolve_allowed evaluate_strategy
allowed_not_disabled_example =
    allowed_not_disabled "breakout" "trending" names [] engine (refl, (refl, (refl, (refl, tt))))
      refl

-- ===== src/Execution/Reconciliation.antt =====
-- services/execution/reconciliation.py: `reconcile_on_startup`. The issues carry what their texts say.
use apex_trader.Base.{
  ℕ, String, Bool, true, false, not, ◌||◌, Option, none, some, List, [], ◌∷◌, ◌++◌, any, length,
  if◌then◌else◌, str_eq,
}
use apex_trader.Base.Floats.{FloatOps, ◌-F◌, ◌<F◌, ratio, abs}
use apex_trader.Base.Dict.{contains, lookup, insert}
use apex_trader.Base.CaseMap.{CaseMap}
use apex_trader.Config.{Settings, is_shadow, is_paper}
use apex_trader.Cache.{Redis}
use apex_trader.Control.Halt.{clear_reconciliation_degraded}
use apex_trader.Portfolio.Models.{PositionView}
use apex_trader.Execution.Orders.{is_long}
use apex_trader.Execution.Protection.{StopProblem, Exposure, stop_problem}
use apex_trader.Execution.World.{Result, ok, raised, World, Broker, Outside, BrokerPosition}
use apex_trader.Execution.Run.{Run, ◌>>=◌, ◌>>◌, pure, modify, gets, call, outcome}
use apex_trader.Execution.Engine.Records.{flags_of, with_flags, degrade}
use apex_trader.Execution.Engine.Submission.{given_or, is_fine}
use apex_trader.Execution.Engine.Entry.{is_unresolved, read_open_trades}

pub data Issue : Type 0 where
  unresolved_orders : Issue
  ambiguous quantity_mismatch missing_stop absent : String → Issue
  unconfirmed_stop : String → StopProblem → Issue

-- The report, less the counts that are always zero.
pub record Reconciled : Type 0 where
  pub open_trades_db : ℕ
  pub broker_positions : ℕ
  pub is_ok : Bool

abbrev pub noted : Bool → Issue → List Issue
noted true i = i ∷ []
noted false i = []

-- The first issue stands for the rows without a known outcome.
abbrev pub with_unresolved : Bool → Result (List Issue) → Result (List Issue)
with_unresolved unresolved (raised e) = raised e
with_unresolved unresolved (ok issues) = ok (noted unresolved Issue.unresolved_orders ++ issues)

abbrev pub stop_issue : String → StopProblem → List Issue
stop_issue symbol problem = noted (not (is_fine problem)) (Issue.unconfirmed_stop symbol problem)

module _ {F : Type 0} where
  -- `{p.symbol: p for p in positions}`
  unfoldable pub by_symbol :
      List (PositionView F) → List (String × PositionView F) → List (String × PositionView F)
  by_symbol [] found = found
  by_symbol (p ∷ ps) found = by_symbol ps (insert p.symbol p found)

  -- `internal.keys() - seen`
  unfoldable pub absences : List String → List (String × PositionView F) → List Issue
  absences seen [] = []
  absences seen ((symbol, p) ∷ ps) =
      noted (not (contains seen symbol)) (Issue.absent symbol) ++ absences seen ps

  abbrev pub ambiguity : List String → BrokerPosition F → List Issue
  ambiguity seen bp =
      noted (contains seen bp.symbol || not (is_long bp.side)) (Issue.ambiguous bp.symbol)

  abbrev pub exposure_at : Settings F → BrokerPosition F → PositionView F → Exposure F
  exposure_at cfg bp p = record {
    symbol = bp.symbol;
    qty = p.qty;
    product = given_or bp.product cfg.kite_product;
    exchange = given_or bp.exchange cfg.kite_exchange;
  }

module _ {F B W : Type 0} ⦃o : FloatOps F⦄ ⦃u : CaseMap⦄ ⦃b : Broker F B⦄ where
  -- What is wrong with a position of the broker, by the ledger's.
  unfoldable pub position_issues :
      Settings F → BrokerPosition F → Option (PositionView F) → Run F B W (List Issue)
  position_issues cfg bp none = pure (Issue.quantity_mismatch bp.symbol ∷ [])
  position_issues cfg bp (some p) =
      if ratio 1 10000 <F abs (p.qty -F bp.qty)
      then pure (Issue.quantity_mismatch bp.symbol ∷ [])
      else if str_eq p.stop_order_id ""
      then pure (Issue.missing_stop bp.symbol ∷ [])
      else do
        report ← call (b.fetch_order_status p.stop_order_id)
        pure (stop_issue bp.symbol (stop_problem report.stop (exposure_at cfg bp p)))

  -- The loop over the broker's positions, with the symbols seen and then those that the ledger has alone.
  unfoldable pub all_issues :
      Settings F
      → List (String × PositionView F)
      → List String
      → List (BrokerPosition F)
      → Run F B W (List Issue)
  all_issues cfg internal seen [] = pure (absences seen internal)
  all_issues cfg internal seen (bp ∷ bps) = do
    found ← position_issues cfg bp (lookup bp.symbol internal)
    rest ← all_issues cfg internal (bp.symbol ∷ seen) bps
    pure (ambiguity seen bp ++ found ++ rest)

  module _ ⦃x : Outside W⦄ ⦃r : Redis W⦄ where
    abbrev pub cleared : World F B W → World F B W
    cleared w = with_flags (clear_reconciliation_degraded (flags_of w)) w

    -- An exception, `issues` among them, is a degraded reconciliation.
    abbrev pub concluded : ℕ → ℕ → Result (List Issue) → Run F B W Reconciled
    concluded rows positions (ok []) = do
      modify cleared
      pure (record { open_trades_db = rows; broker_positions = positions; is_ok = true })
    concluded rows positions _ = do
      modify degrade
      pure (record { open_trades_db = rows; broker_positions = positions; is_ok = false })

    abbrev pub compared :
        Settings F → Bool → ℕ → Result (List (BrokerPosition F)) → Run F B W Reconciled
    compared cfg unresolved rows (raised e) = concluded rows 0 (raised e)
    compared cfg unresolved rows (ok positions) = do
      held ← gets (λ w. w.portfolio.state.positions)
      issues ← outcome (all_issues cfg (by_symbol held []) [] positions)
      concluded rows (length positions) (with_unresolved unresolved issues)

    unfoldable pub reconcile_on_startup : Settings F → Run F B W Reconciled
    reconcile_on_startup cfg = do
      rows ← read_open_trades
      if is_paper cfg.trading_mode || is_shadow cfg.trading_mode
          then (do
            held ← gets (λ w. w.portfolio.state.positions)
            modify (λ w. record w { broker = b.restore_positions held w.broker })
            modify cleared
            pure (record {
              open_trades_db = length rows;
              broker_positions = length held;
              is_ok = true;
            }))
          else (do
            answer ← outcome (call b.fetch_open_positions)
            compared cfg (any (λ row. is_unresolved row.status) rows) (length rows) answer)

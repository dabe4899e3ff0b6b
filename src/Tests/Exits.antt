-- ===== src/Tests/Exits.antt =====
-- services/execution: exits and the reconciliation on a ledger that the broker confirms.
use apex_trader.Base.{◌≡◌, refl, ◌⊎◌, ℕ, true, false}
use apex_trader.Base.Floats.{num}
use apex_trader.Execution.Orders.{OrderResult}
use apex_trader.Execution.World.{ok, raised, World}
use apex_trader.Trades.Repository.{find_row}
use apex_trader.Execution.Engine.Submission.{place_with_retry}
use apex_trader.Execution.Engine.Selling.{exit_live, place_exit}
use apex_trader.Execution.Stopping.{IsStopped}
use apex_trader.Execution.Run.{try, ◌>>=◌, pure, modify, gets, outcome, call, ask}
use apex_trader.Execution.Engine.Records.{store_rows, update_trade, record_result}
use apex_trader.Execution.Engine.Submission.{accept, submit_once}
use apex_trader.Execution.Engine.Entry.{found_rows, read_open_trades, write_pending}
use apex_trader.Trades.Repository.{
  update_row, create_pending, update_status, open_rows, open_trades,
}
use apex_trader.Control.Halt.{set_reconciliation_degraded}
use apex_trader.Execution.Protection.{stop_identity_problem, number_problem, stop_problem}
use apex_trader.Base.Floats.{whole}
use apex_trader.Execution.Engine.Exit.{
  set_stop, match_broker, matching_positions, sole_match, cancel_stop, unless_answered,
}
use apex_trader.Execution.Engine.Selling.{
  sell_live, reconcile_exit, settle_exit, account_exit, place_exit_inner, exit_position,
}
use apex_trader.Execution.Run.{raise}
use apex_trader.Execution.Engine.Records.{unknown, degrade, shut_portfolio, persist_portfolio}
use apex_trader.Portfolio.Manager.{replace_position, find_position, emergency_shutdown, persist}
use apex_trader.Execution.Exits.{place_exit-Known, place_exit-raised}
use apex_trader.Execution.Reconciliation.{
  Reconciled, reconcile_on_startup, all_issues, position_issues, absences, by_symbol,
}
use apex_trader.Execution.Agreement.{IsReconciled, reconcile_on_startup-IsReconciled}
use apex_trader.Control.Halt.{clear_reconciliation_degraded}
use apex_trader.Tests.Samples.{milli, capitals, Server, server, up_server, server_laws}
use apex_trader.Tests.Engine.{
  Desk, agreed_world, answer_lem, claim_server, desk_broker, filled_result, has_answer,
  live_settings, outside, request, result_or, world,
}

abbrev left : OrderResult ℕ
left =
    result_or (filled_result request 0 "")
      (place_exit live_settings "WIPRO" (num 3) "exit" (num 100) agreed_world).0

left_answers :
    has_answer (place_exit live_settings "WIPRO" (num 3) "exit" (num 100) agreed_world).0 ≡ true
unfolding place_exit place_exit_inner exit_position exit_live cancel_stop unless_answered ◌>>=◌ pure
    raise modify gets call ask try unknown degrade shut_portfolio persist_portfolio update_trade
    store_rows update_status update_row write_pending create_pending find_row found_rows
    read_open_trades open_trades open_rows find_position whole set_reconciliation_degraded
    emergency_shutdown persist set_stop replace_position match_broker matching_positions sole_match
    sell_live reconcile_exit settle_exit account_exit place_with_retry submit_once accept
    record_result outcome
left_answers = refl

place_exit-Known_example :
    (left.unknown ≡ false)
    ⊎ IsStopped (place_exit live_settings "WIPRO" (num 3) "exit" (num 100) agreed_world).1
place_exit-Known_example =
    place_exit-Known live_settings "WIPRO" (num 3) "exit" (num 100) agreed_world left refl
      (answer_lem (filled_result request 0 "") _ left_answers)

-- A database that is down.
abbrev dark_world : World ℕ Desk Server
dark_world = record world { outside = record up_server { writable = false } }

dark_raises :
    (place_exit live_settings "INFY" (num 10) "momentum" (num 1500) dark_world).0
    ≡ raised "database"
unfolding place_exit place_exit_inner exit_position exit_live cancel_stop unless_answered ◌>>=◌ pure
    raise modify gets call ask try unknown degrade shut_portfolio persist_portfolio update_trade
    store_rows update_status update_row write_pending create_pending find_row found_rows
    read_open_trades open_trades open_rows find_position whole set_reconciliation_degraded
    emergency_shutdown persist
dark_raises = refl

place_exit-raised_example :
    IsStopped (place_exit live_settings "INFY" (num 10) "momentum" (num 1500) dark_world).1
place_exit-raised_example =
    place_exit-raised live_settings "INFY" (num 10) "momentum" (num 1500) dark_world "database"
      dark_raises

abbrev good_report : Reconciled
good_report = record { open_trades_db = 0; broker_positions = 1; is_ok = true }

agreed_reconciles : (reconcile_on_startup live_settings agreed_world).0 ≡ ok good_report
unfolding reconcile_on_startup all_issues position_issues absences by_symbol ◌>>=◌ pure modify gets
    call outcome ask found_rows read_open_trades open_trades open_rows stop_problem number_problem
    stop_identity_problem clear_reconciliation_degraded
agreed_reconciles = refl

reconcile_on_startup-IsReconciled_example :
    IsReconciled live_settings agreed_world good_report
      (reconcile_on_startup live_settings agreed_world).1
reconcile_on_startup-IsReconciled_example =
    reconcile_on_startup-IsReconciled server_laws live_settings agreed_world good_report refl
      agreed_reconciles

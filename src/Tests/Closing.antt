-- ===== src/Tests/Closing.antt =====
-- services/execution: the end of a day, and the check of a stop, on a ledger that the broker confirms; the gate
-- before live trading.
use apex_trader.Base.{◌≡◌, refl, ℕ, true, some, []}
use apex_trader.Base.Floats.{num}
use apex_trader.Execution.World.{ok, Market}
use apex_trader.Execution.Engine.Closing.{SquareOff, eod_square_off}
use apex_trader.Execution.Flat.{IsFlat, eod_square_off-IsFlat}
use apex_trader.Execution.Lifecycle.{StopCheck, check_stop}
use apex_trader.Execution.Watching.{IsJustified, check_stop-IsJustified}
use apex_trader.Execution.Engine.Closing.{
  account_fill, book_exit_of, fetch_price, read_open_by_symbol, square_off_all, square_off_one,
  verdict, verify_closure,
}
use apex_trader.Execution.Engine.Exit.{
  cancel_stop, match_broker, matching_positions, set_stop, sole_match, unless_answered,
}
use apex_trader.Execution.Engine.Selling.{
  account_exit, exit_live, exit_position, place_exit, place_exit_inner, reconcile_exit, sell_live,
  settle_exit,
}
use apex_trader.Execution.Run.{ask, call, gets, modify, outcome, pure, try, ◌>>=◌}
use apex_trader.Execution.Engine.Records.{record_result, store_rows, update_trade}
use apex_trader.Trades.Repository.{
  create_pending, find_row, get_open_by_symbol, last_open, open_rows, open_trades, update_row,
  update_status,
}
use apex_trader.Execution.Engine.Entry.{found_rows, read_open_trades, write_pending}
use apex_trader.Portfolio.Manager.{
  after_write, book_exit, exit_state, find_position, record_exit, reduce_position, replace_position,
}
use apex_trader.Base.Floats.{whole}
use apex_trader.Execution.Engine.Submission.{accept, place_with_retry, submit_once}
use apex_trader.Execution.Protection.{number_problem, stop_identity_problem, stop_problem}
use apex_trader.Tests.Samples.{milli, capitals, Server, server, server_laws}
use apex_trader.Tests.Engine.{desk_broker, claim_server, outside, live_settings, agreed_world, sold}

instance abbrev market : Market ℕ Server
market = record {
  has_real_data = λ c. true;
  last_close = λ symbol c. (ok (num 101), c);
  last_price = λ symbol c. (ok (some (num 101)), c);
}

abbrev flat_report : SquareOff ℕ
flat_report = record { is_ok = true; accounted = 1; remaining = []; errors = [] }

agreed_flattens : (eod_square_off live_settings "close" agreed_world).0 ≡ ok flat_report
unfolding eod_square_off square_off_all square_off_one fetch_price account_fill book_exit_of
    read_open_by_symbol verify_closure verdict place_exit place_exit_inner exit_position exit_live
    cancel_stop unless_answered ◌>>=◌ pure modify gets call ask try outcome update_trade store_rows
    update_status update_row write_pending create_pending find_row found_rows read_open_trades
    open_trades open_rows find_position whole set_stop replace_position match_broker
    matching_positions sole_match sell_live reconcile_exit settle_exit account_exit place_with_retry
    submit_once accept record_result get_open_by_symbol last_open record_exit exit_state book_exit
    reduce_position after_write
agreed_flattens = refl

eod_square_off-IsFlat_example :
    IsFlat flat_report (eod_square_off live_settings "close" agreed_world).1
eod_square_off-IsFlat_example =
    eod_square_off-IsFlat live_settings "close" agreed_world flat_report refl agreed_flattens

sold_checks : (check_stop live_settings sold "WIPRO" agreed_world).0 ≡ ok StopCheck.protected
unfolding check_stop ◌>>=◌ pure modify call stop_identity_problem stop_problem number_problem
sold_checks = refl

check_stop-IsJustified_example :
    IsJustified live_settings sold "WIPRO" agreed_world.broker StopCheck.protected
      (check_stop live_settings sold "WIPRO" agreed_world).1
check_stop-IsJustified_example =
    check_stop-IsJustified server_laws live_settings sold "WIPRO" agreed_world StopCheck.protected
      sold_checks

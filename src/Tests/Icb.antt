-- ===== src/Tests/Icb.antt =====
-- services/icb on a healthy brain, a halted portfolio and two servers.
use apex_trader.Base.{◌≡◌, refl, inr, ℕ, true, false, none, [], ◌∷◌, if◌then◌else◌, ◌*◌}
use apex_trader.Icb.SystemState.{active, get_kill_switch_latched}
use apex_trader.Icb.Types.{
  Action, Integrity, allowed, is_trading, is_chaos, needs_market, market_open,
}
use apex_trader.Icb.Authority.{
  Context, authorize_inner, chaos_gate, state_gate, signal_gate, context_gate, risk_blocks,
}
use apex_trader.Icb.Engine.{
  Brain, Attempt, authorize, activate_emergency_lock, admin_reset_emergency,
}
use apex_trader.Icb.Gates.{permitted, authorize_inner-allowed}
use apex_trader.Icb.Latch.{activate-latches, activate_unlatched}
use apex_trader.Icb.Safety.{Call, perform_all, exit_no_harder, blocked_refuses, raise_stops_trading}
use apex_trader.Tests.Samples.{Server, server, server_laws, up_server, read_only_server, settings}

-- A Tuesday at ten, with nothing wrong.
abbrev calm : Context
calm = record {
  portfolio = none;
  watchdog_safe_mode = false;
  risk_status = "OK";
  autonomous_running = false;
  signals = record {
    crce_integrity = Integrity.ok;
    drift_count = 0;
    reconciliation_degraded = false;
  };
  chaos_approved = false;
  chaos_blockers = [];
  clock = record { weekday = 1; time = 10 * 3600 * 1000000 };
}

abbrev brain : Server → Brain Server
brain s = record {
  memory = record { cache = s; state = "ACTIVE"; reason = ""; kill_latched = false };
  healthy = true;
  safe_mode_reason = "";
}

calm_order : allowed (authorize_inner settings active "" "" Action.place_order calm) ≡ true
unfolding authorize_inner allowed chaos_gate state_gate signal_gate context_gate is_trading
    risk_blocks needs_market market_open
calm_order = refl

authorize_inner-allowed_example :
    allowed (authorize_inner settings active "" "" Action.place_order calm) ≡ (
      if is_chaos Action.place_order
      then true
      else permitted settings active Action.place_order calm)
authorize_inner-allowed_example =
    authorize_inner-allowed settings active "" "" Action.place_order calm

exit_no_harder_example :
    allowed (authorize_inner settings active "" "" Action.place_exit calm) ≡ true
exit_no_harder_example = exit_no_harder settings active "" "" calm calm_order

blocked_refuses_example :
    allowed
      (authorize settings Attempt.in_time Action.place_exit
        (record calm { watchdog_safe_mode = true })
        (brain up_server)).1
    ≡ false
unfolding is_trading
blocked_refuses_example =
    blocked_refuses settings Attempt.in_time Action.place_exit
      (record calm { watchdog_safe_mode = true }) (brain up_server) refl (inr (inr (inr refl)))

raise_stops_trading_example :
    let b =
      (authorize settings (Attempt.raised "lost") Action.place_order calm (brain up_server)).0 in
    allowed
      (authorize settings Attempt.in_time Action.place_order calm
        (perform_all {F = ℕ} (Call.paused_by "lunch" ∷ []) b)).1
    ≡ false
unfolding is_trading
raise_stops_trading_example =
    raise_stops_trading settings "lost" Action.place_order calm (brain up_server)
      (Call.paused_by "lunch" ∷ []) Attempt.in_time Action.place_order calm refl

activate-latches_example :
    get_kill_switch_latched (activate_emergency_lock "panic" (brain up_server)).memory ≡ true
activate-latches_example = activate-latches server_laws "panic" (brain up_server) refl

activate_unlatched_example :
    (get_kill_switch_latched (activate_emergency_lock "panic" (brain read_only_server)).memory
      ≡ false)
    × ((activate_emergency_lock "panic" (brain read_only_server)).memory.kill_latched ≡ true)
activate_unlatched_example = activate_unlatched "panic" (brain read_only_server) (λ k v. refl) refl

-- After the lock a reset by an operator puts the system back to ACTIVE.
reset_after_lock :
    let b = (admin_reset_emergency (activate_emergency_lock "panic" (brain up_server))).0 in
    get_kill_switch_latched b.memory ≡ false
unfolding admin_reset_emergency activate_emergency_lock
reset_after_lock = refl

-- ===== src/Icb/Engine.antt =====
-- services/icb/engine.py: the control brain with its memory. The flag of the autonomous engine is the
-- cache's key of services/autonomous/state.py. The audit records of each decision are not modelled.
use apex_trader.Base.{String, Bool, true, false, not, ◌&&◌, if◌then◌else◌}
use apex_trader.Cache.{Redis}
use apex_trader.Config.{Settings}
use apex_trader.Icb.SystemState.{
  SystemState, safe_mode, active, paused, emergency_lock, Memory, get_kill_switch_latched,
  get_system_state, get_state_reason, persist_system_state, set_kill_switch_latched, bool_text,
}
use apex_trader.Icb.Types.{
  Action, Decision, Reason, Integrity, IcbResult, halted_portfolio, black_swan_portfolio,
}
use apex_trader.Icb.Authority.{Context, authorize_inner}

pub record Brain (C : Type 0) : Type 0 where
  pub memory : Memory C
  pub healthy : Bool
  pub safe_mode_reason : String

-- How `_authorize_inner` ends: within the time limit, too late, or by an exception.
pub data Attempt : Type 0 where
  in_time : Attempt
  too_late : Attempt
  raised : String → Attempt

abbrev enabled_key : String
enabled_key = "apex:autonomous:enabled"

module _ {C : Type 0} ⦃r : Redis C⦄ where
  -- `_resolve_state`
  unfoldable pub resolve_state : Brain C → Context → SystemState
  unfolding get_kill_switch_latched
  resolve_state b ctx =
      if not b.healthy
      then safe_mode
      else if get_kill_switch_latched b.memory
      then emergency_lock
      else if black_swan_portfolio ctx.portfolio
      then emergency_lock
      else if halted_portfolio ctx.portfolio && get_kill_switch_latched b.memory
      then emergency_lock
      else if ctx.watchdog_safe_mode
      then safe_mode
      else get_system_state b.memory

  -- The write of `set_autonomous_running(False)`; an exception is swallowed.
  abbrev stop_autonomous : Memory C → Memory C
  stop_autonomous m = record m { cache = (r.set enabled_key (bool_text false) m.cache).0 }

  unfoldable pub enter_safe_mode : String → Brain C → Brain C
  unfolding persist_system_state
  enter_safe_mode reason b = record {
    healthy = false;
    safe_mode_reason = reason;
    memory = stop_autonomous (persist_system_state safe_mode reason b.memory);
  }

  unfoldable pub recover_safe_mode : Brain C → Brain C
  unfolding get_kill_switch_latched persist_system_state
  recover_safe_mode b = record {
    healthy = true;
    safe_mode_reason = "";
    memory =
        if get_kill_switch_latched b.memory
        then b.memory
        else persist_system_state active "" b.memory;
  }

  unfoldable pub pause_system : String → Brain C → Brain C
  unfolding persist_system_state
  pause_system reason b = record b { memory = persist_system_state paused reason b.memory }

  unfoldable pub activate_emergency_lock : String → Brain C → Brain C
  unfolding set_kill_switch_latched persist_system_state
  activate_emergency_lock reason b = record b {
    memory = persist_system_state emergency_lock reason (set_kill_switch_latched true b.memory);
  }

  -- The new brain, and whether the reset was made.
  unfoldable pub admin_reset_emergency : Brain C → Brain C × Bool
  unfolding get_kill_switch_latched set_kill_switch_latched recover_safe_mode
  admin_reset_emergency b =
      if get_kill_switch_latched b.memory
      then (recover_safe_mode (record b { memory = set_kill_switch_latched false b.memory }), true)
      else (b, false)

  module _ {F : Type 0} where
    -- `authorize`: no answer in time is a refusal, and an exception puts the brain in safe mode.
    unfoldable pub authorize :
        Settings F → Attempt → Action → Context → Brain C → Brain C × IcbResult
    unfolding resolve_state authorize_inner get_system_state get_state_reason enter_safe_mode
    authorize cfg Attempt.in_time action ctx b =
        let s = resolve_state b ctx in
        let why = get_state_reason b.memory in
        (b, authorize_inner cfg s why b.safe_mode_reason action ctx)
    authorize cfg Attempt.too_late action ctx b = (
      b,
      record {
        decision = Decision.deny;
        reason = Reason.timed_out;
        system_state = get_system_state b.memory;
        crce_integrity = Integrity.unknown;
      },
    )
    authorize cfg (Attempt.raised error) action ctx b = (
      enter_safe_mode error b,
      record {
        decision = Decision.deny;
        reason = Reason.failed error;
        system_state = safe_mode;
        crce_integrity = Integrity.failed;
      },
    )

  -- `status`: the state, whether trading and whether analysis is allowed.
  unfoldable pub status : Brain C → Context → SystemState × Bool × Bool
  unfolding resolve_state
  status b ctx =
      let s = resolve_state b ctx in
      (
        s,
        elim s [ active ↦ true | _ ↦ false ],
        elim s [ active ↦ true | paused ↦ true | _ ↦ false ],
      )

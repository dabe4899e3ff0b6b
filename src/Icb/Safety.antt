-- ===== src/Icb/Safety.antt =====
-- services/icb/engine.py: what the brain refuses, request by request and over sequences of calls.
use apex_trader.Base.{◌≡◌, ◌⊎◌, inl, refl, String, true, false, List, [], ◌∷◌, arith}
use apex_trader.Cache.{Redis}
use apex_trader.Config.{Settings}
use apex_trader.Icb.SystemState.{
  SystemState, safe_mode, emergency_lock, get_kill_switch_latched, get_state_reason,
}
use apex_trader.Icb.Types.{
  Action, place_order, place_exit, is_trading, is_entry, needs_market, survives_lock,
  black_swan_portfolio, allowed,
}
use apex_trader.Icb.Authority.{Context, authorize_inner}
use apex_trader.Icb.Engine.{
  Brain, Attempt, resolve_state, authorize, enter_safe_mode, pause_system, activate_emergency_lock,
}
use apex_trader.Icb.Gates.{authorize_inner-allowed}

-- A trading action is refused while the state is SAFE_MODE or EMERGENCY_LOCK.
abbrev IsStopped : SystemState → Type 0
IsStopped s = (s ≡ safe_mode) ⊎ (s ≡ emergency_lock)

module _ {F : Type 0} where
  -- Whatever the circumstances, if an entry order is allowed then so is an exit order: reducing
  -- exposure never needs more than taking it.
  pub exit_no_harder :
      (cfg : Settings F) (s : SystemState) (why safe_why : String) (ctx : Context)
      → allowed (authorize_inner cfg s why safe_why place_order ctx) ≡ true
      → allowed (authorize_inner cfg s why safe_why place_exit ctx) ≡ true
  unfolding is_trading is_entry needs_market survives_lock
  exit_no_harder cfg s why safe_why ctx h = ground (
    arith,
    authorize_inner-allowed cfg s why safe_why place_order ctx,
    authorize_inner-allowed cfg s why safe_why place_exit ctx,
  )

  stopped_refuses :
      (cfg : Settings F) (s : SystemState) (why safe_why : String) (action : Action) (ctx : Context)
      → IsStopped s
      → is_trading action ≡ true
      → allowed (authorize_inner cfg s why safe_why action ctx) ≡ false
  unfolding is_trading survives_lock
  stopped_refuses cfg s why safe_why action ctx h t =
      ground (arith, authorize_inner-allowed cfg s why safe_why action ctx)

module _ {C : Type 0} ⦃r : Redis C⦄ where
  -- An unhealthy brain, a latched kill switch, a portfolio in black-swan mode or a watchdog in safe
  -- mode.
  abbrev pub IsBlocked : Brain C → Context → Type 0
  IsBlocked b ctx =
      (b.healthy ≡ false)
      ⊎ (get_kill_switch_latched b.memory ≡ true)
      ⊎ (black_swan_portfolio ctx.portfolio ≡ true)
      ⊎ (ctx.watchdog_safe_mode ≡ true)

  blocked-IsStopped :
      (b : Brain C) (ctx : Context) → IsBlocked b ctx → IsStopped (resolve_state b ctx)
  unfolding resolve_state
  blocked-IsStopped b ctx h = ground arith

-- The calls that do not clear safe mode.
pub data Call (F : Type 0) : Type 0 where
  asking : Settings F → Attempt → Action → Context → Call F
  safe_mode_entered paused_by locked_by : String → Call F

module _ {F C : Type 0} ⦃r : Redis C⦄ where
  -- While the brain is unhealthy, the kill switch latched, the portfolio in black-swan mode or the
  -- watchdog in safe mode, every request for a trading action is refused, however it ends: in time, too
  -- late or by an exception.
  pub blocked_refuses :
      (cfg : Settings F) (attempt : Attempt) (action : Action) (ctx : Context) (b : Brain C)
      → is_trading action ≡ true
      → IsBlocked b ctx
      → allowed (authorize cfg attempt action ctx b).1 ≡ false
  unfolding authorize allowed
  blocked_refuses cfg Attempt.in_time action ctx b t h =
      stopped_refuses cfg (resolve_state b ctx) (get_state_reason b.memory) b.safe_mode_reason
        action ctx (blocked-IsStopped b ctx h) t
  blocked_refuses cfg Attempt.too_late action ctx b t h = refl
  blocked_refuses cfg (Attempt.raised e) action ctx b t h = refl

  unfoldable pub perform : Call F → Brain C → Brain C
  unfolding authorize enter_safe_mode pause_system activate_emergency_lock
  perform (Call.asking cfg attempt action ctx) b = (authorize cfg attempt action ctx b).0
  perform (Call.safe_mode_entered why) b = enter_safe_mode why b
  perform (Call.paused_by why) b = pause_system why b
  perform (Call.locked_by why) b = activate_emergency_lock why b

  unfoldable pub perform_all : List (Call F) → Brain C → Brain C
  unfolding perform
  perform_all [] b = b
  perform_all (c ∷ cs) b = perform_all cs (perform c b)

  perform-unhealthy : (c : Call F) (b : Brain C) → b.healthy ≡ false → (perform c b).healthy ≡ false
  unfolding perform
  perform-unhealthy (Call.asking cfg Attempt.in_time action ctx) b h = h
  perform-unhealthy (Call.asking cfg Attempt.too_late action ctx) b h = h
  perform-unhealthy (Call.asking cfg (Attempt.raised e) action ctx) b h = refl
  perform-unhealthy (Call.safe_mode_entered why) b h = refl
  perform-unhealthy (Call.paused_by why) b h = h
  perform-unhealthy (Call.locked_by why) b h = h

  perform_all-unhealthy :
      (cs : List (Call F)) (b : Brain C) → b.healthy ≡ false → (perform_all cs b).healthy ≡ false
  unfolding perform_all
  perform_all-unhealthy [] b h = h
  perform_all-unhealthy (c ∷ cs) b h =
      perform_all-unhealthy cs (perform c b) (perform-unhealthy c b h)

  -- Once a request has ended by an exception, no trading action is allowed after any sequence of
  -- further requests, safe-mode entries, pauses and emergency locks: only a recovery clears safe mode.
  pub raise_stops_trading :
      (cfg : Settings F) (error : String) (action : Action) (ctx : Context) (b : Brain C)
      (cs : List (Call F)) (attempt : Attempt) (action' : Action) (ctx' : Context)
      → is_trading action' ≡ true
      → let after = perform_all cs (authorize cfg (Attempt.raised error) action ctx b).0 in
        allowed (authorize cfg attempt action' ctx' after).1 ≡ false
  unfolding authorize enter_safe_mode
  raise_stops_trading cfg error action ctx b cs attempt action' ctx' t =
      blocked_refuses cfg attempt action' ctx'
        (perform_all cs (authorize cfg (Attempt.raised error) action ctx b).0) t
        (inl (perform_all-unhealthy cs (authorize cfg (Attempt.raised error) action ctx b).0 refl))

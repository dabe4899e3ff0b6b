-- ===== src/Icb/SystemState.antt =====
-- services/icb/system_state.py: the state of the system and the latch of the kill switch, in Redis
-- with a copy in the process. Audit records are not modelled.
use apex_trader.Base.{String, Bool, true, false, Option, none, some, if◌then◌else◌, str_eq}
use apex_trader.Cache.{Redis, truthy, set_two}

pub data SystemState : Type 0 where
  safe_mode active paused emergency_lock : SystemState

abbrev pub state_key : String
state_key = "apex:system_state"

abbrev pub kill_latch_key : String
kill_latch_key = "apex:kill_switch_latched"

abbrev pub reason_key : String
reason_key = "apex:system_state_reason"

-- `state.value`
unfoldable pub value : SystemState → String
value safe_mode = "SAFE_MODE"
value active = "ACTIVE"
value paused = "PAUSED"
value emergency_lock = "EMERGENCY_LOCK"

-- `SystemState(raw)`; `none` is its `ValueError`.
unfoldable pub parse : String → Option SystemState
parse raw =
    if str_eq raw "SAFE_MODE"
    then some safe_mode
    else if str_eq raw "ACTIVE"
    then some active
    else if str_eq raw "PAUSED"
    then some paused
    else if str_eq raw "EMERGENCY_LOCK"
    then some emergency_lock
    else none

abbrev pub bool_text : Bool → String
bool_text true = "true"
bool_text false = "false"

-- The module's variables, with Redis as the process sees it.
pub record Memory (C : Type 0) : Type 0 where
  pub cache : C
  pub state : String
  pub reason : String
  pub kill_latched : Bool

-- An answer that is there decides, also one that is no longer what this process wrote.
abbrev pub latched_from : Option (Option String) → Bool → Bool
latched_from none fallback = fallback
latched_from (some none) fallback = fallback
latched_from (some (some v)) fallback = str_eq v "true"

abbrev or_active : Option SystemState → SystemState
or_active none = active
or_active (some s) = s

abbrev parsed_or : Option SystemState → SystemState → SystemState
parsed_or none s = s
parsed_or (some t) s = t

abbrev stored_state : Option String → String → SystemState
stored_state none fallback = or_active (parse fallback)
stored_state (some raw) fallback = parsed_or (parse raw) (or_active (parse fallback))

module _ {C : Type 0} ⦃r : Redis C⦄ where
  unfoldable pub get_kill_switch_latched : Memory C → Bool
  get_kill_switch_latched m = latched_from (r.get kill_latch_key m.cache) m.kill_latched

  unfoldable pub get_system_state : Memory C → SystemState
  unfolding get_kill_switch_latched
  get_system_state m =
      if get_kill_switch_latched m
      then emergency_lock
      else stored_state (truthy (r.get state_key m.cache)) m.state

  unfoldable pub get_state_reason : Memory C → String
  get_state_reason m = elim (truthy (r.get reason_key m.cache)) [ none ↦ m.reason | some t ↦ t ]

  unfoldable pub persist_system_state : SystemState → String → Memory C → Memory C
  unfolding set_two value
  persist_system_state s reason m = record m {
    state = value s;
    reason = reason;
    cache = set_two state_key (value s) reason_key reason m.cache;
  }

  unfoldable pub set_kill_switch_latched : Bool → Memory C → Memory C
  unfolding persist_system_state
  set_kill_switch_latched on m =
      let m' = record m {
        kill_latched = on;
        cache = (r.set kill_latch_key (bool_text on) m.cache).0;
      } in
      if on then persist_system_state emergency_lock "Kill switch latched" m' else m'

  unfoldable pub clear_system_state : Memory C → Memory C
  clear_system_state m = record {
    state = "ACTIVE";
    reason = "";
    kill_latched = false;
    cache =
        let (c, ok) = r.set state_key "ACTIVE" m.cache in
        let (c', ok') = r.set reason_key "" c in
        if ok then if ok' then (r.set kill_latch_key "false" c').0 else c' else c;
  }

-- ===== src/Control/Halt.antt =====
-- services/control/halt.py and reconciliation_state.py: two flags in Redis with a copy in the process.
-- A status is kept as JSON, which gives back what it was given; a text that is no JSON, which another
-- program would have to write, is not modelled, nor are the snapshots of halt.py, the messages to
-- subscribers and audit records.
use apex_trader.Base.{String, Bool, true, false, Option, none, some, str_eq}
use apex_trader.Cache.{Redis, truthy}
use apex_trader.Icb.SystemState.{bool_text, latched_from}

abbrev pub halt_key : String
halt_key = "apex:EMERGENCY_HALT"

abbrev pub status_key : String
status_key = "apex:reconciliation:status"

-- The module variables, with Redis as the process sees it; `none` is the reconciliation status that was
-- not set yet.
pub record Flags (C : Type 0) : Type 0 where
  pub cache : C
  pub halt : Bool
  pub degraded : Option Bool

-- `json.dumps` of a status, less the reason.
abbrev pub status_text : Bool → String
status_text true = "DEGRADED"
status_text false = "OK"

abbrev or_ok : Option Bool → Bool
or_ok none = false
or_ok (some d) = d

abbrev degraded_from : Option String → Option Bool → Bool
degraded_from none memory = or_ok memory
degraded_from (some s) memory = str_eq s "DEGRADED"

module _ {C : Type 0} ⦃r : Redis C⦄ where
  unfoldable pub set_emergency_halt : Bool → Flags C → Flags C
  set_emergency_halt active m = record m {
    halt = active;
    cache = (r.set halt_key (bool_text active) m.cache).0;
  }

  unfoldable pub is_emergency_halt : Flags C → Bool
  is_emergency_halt m = latched_from (r.get halt_key m.cache) m.halt

  unfoldable pub set_reconciliation_degraded : Flags C → Flags C
  set_reconciliation_degraded m = record m {
    degraded = some true;
    cache = (r.set status_key (status_text true) m.cache).0;
  }

  unfoldable pub clear_reconciliation_degraded : Flags C → Flags C
  clear_reconciliation_degraded m = record m {
    degraded = some false;
    cache = (r.set status_key (status_text false) m.cache).0;
  }

  -- `is_reconciliation_degraded`; a text that Redis has decides, also an old one.
  unfoldable pub is_reconciliation_degraded : Flags C → Bool
  is_reconciliation_degraded m = degraded_from (truthy (r.get status_key m.cache)) m.degraded

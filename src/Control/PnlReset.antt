-- ===== src/Control/PnlReset.antt =====
-- services/control/pnl_reset.py: the daily, weekly and monthly resets of the profit counters. The keys
-- of the current day, week and month, which the source formats from the clock, and the database's
-- answer to the save are arguments. Audit records are not modelled.
use apex_trader.Base.{
  String, Bool, true, not, Option, none, some, List, [], ◌∷◌, ◌++◌, if◌then◌else◌, str_eq,
}
use Prim.Native.String.{◌++◌ as ◌<>◌}
use apex_trader.Base.Floats.{FloatOps, num}
use apex_trader.Base.Dict.{lookup, insert}
use apex_trader.Cache.{Redis, truthy}
use apex_trader.Portfolio.Models.{PortfolioState}
use apex_trader.Portfolio.Manager.{Manager, with_state, persist}

pub data Period : Type 0 where
  daily weekly monthly : Period

abbrev pub name_of : Period → String
name_of Period.daily = "daily"
name_of Period.weekly = "weekly"
name_of Period.monthly = "monthly"

abbrev pub key_of : Period → String
key_of p = "apex:pnl_reset:" <> name_of p

-- `_memory_reset`, with Redis as the process sees it.
pub record ResetMarks (C : Type 0) : Type 0 where
  pub cache : C
  pub memory : List (String × String)

abbrev text_or : Option String → Option String → Option String
text_or none other = other
text_or (some v) other = some v

module _ {C : Type 0} ⦃r : Redis C⦄ where
  -- A text that Redis has decides; the process's own mark is asked only without one.
  unfoldable pub get_last_reset : Period → ResetMarks C → Option String
  get_last_reset p m = text_or (truthy (r.get (key_of p) m.cache)) (lookup (name_of p) m.memory)

  unfoldable pub should_reset : Period → String → ResetMarks C → Bool
  should_reset p current m = elim (get_last_reset p m) [
    | none ↦ true
    | some last ↦ not (str_eq last current)
  ]

  unfoldable pub mark_reset : Period → String → ResetMarks C → ResetMarks C
  mark_reset p current m = record {
    cache = (r.set (key_of p) current m.cache).0;
    memory = insert (name_of p) current m.memory;
  }

module _ {F : Type 0} ⦃o : FloatOps F⦄ where
  -- The counter of the period is set to zero.
  abbrev pub zeroed : Period → PortfolioState F → PortfolioState F
  zeroed Period.daily s = record s { daily_pnl = num 0 }
  zeroed Period.weekly s = record s { weekly_pnl = num 0 }
  zeroed Period.monthly s = record s { monthly_pnl = num 0 }

  module _ {C : Type 0} ⦃r : Redis C⦄ where
    -- One of the three steps, on the portfolio, the marks and the periods that were reset.
    unfoldable pub reset_period :
        Period
        → String
        → Manager F × ResetMarks C × List Period
        → Manager F × ResetMarks C × List Period
    reset_period p current (manager, m, done) =
        if should_reset p current m
        then (with_state (zeroed p manager.state) manager, mark_reset p current m, done ++ (p ∷ []))
        else (manager, m, done)

    abbrev pub saved_if_reset :
        Bool → Manager F × ResetMarks C × List Period → Manager F × ResetMarks C × List Period
    saved_if_reset saved (manager, m, []) = (manager, m, [])
    saved_if_reset saved (manager, m, p ∷ ps) = ((persist saved manager).0, m, p ∷ ps)

    unfoldable pub maybe_reset_pnl_periods :
        String
        → String
        → String
        → Bool
        → Manager F
        → ResetMarks C
        → Manager F × ResetMarks C × List Period
    maybe_reset_pnl_periods today week_key month_key saved manager m = saved_if_reset saved (
        reset_period Period.monthly month_key
          (reset_period Period.weekly week_key (reset_period Period.daily today (manager, m, []))))

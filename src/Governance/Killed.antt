-- ===== src/Governance/Killed.antt =====
-- services/governance/engine.py: the strategies that are KILLED, over sequences of calls.
use apex_trader.Base.{
  ◌≡◌, refl, String, Bool, true, false, Option, none, some, List, [], ◌∷◌, arith, str_eq, eq_iff,
}
use apex_trader.Base.Floats.{FloatOps}
use apex_trader.Base.Dict.{lookup, insert, lookup-insert}
use apex_trader.Config.{Settings}
use apex_trader.Governance.Models.{StrategyState, Reason, StrategyRecord}
use apex_trader.Governance.Policy.{evaluate_strategy}
use apex_trader.Governance.Store.{Records}
use apex_trader.Governance.Engine.{
  Engine, is_killed, record_of, updated_record, counted, judged, ensure_loaded, set_state,
  record_outcome, check_trade,
}

-- A call of the engine, with what it reads from the clock and from Redis.
pub data Call (F : Type 0) : Type 0 where
  loading : String → Option (Records F) → Call F
  setting : String → String → StrategyState → Reason F → String → Option F → Call F
  outcome : Settings F → String → String → F → Call F

module _ {F : Type 0} ⦃o : FloatOps F⦄ where
  abbrev pub perform : Call F → Engine F → Engine F
  perform (Call.loading now cached) e = ensure_loaded now cached e
  perform (Call.setting now n state reason actor factor) e =
      (set_state now n state reason actor factor e).0
  perform (Call.outcome cfg now n pnl) e = record_outcome cfg now n pnl e

  unfoldable pub perform_all : List (Call F) → Engine F → Engine F
  perform_all [] e = e
  perform_all (c ∷ cs) e = perform_all cs (perform c e)

  abbrev pub killed_at : String → Records F → Bool
  killed_at n rs = elim (lookup n rs) [ none ↦ false | some r ↦ is_killed r.state ]

  -- The engine is loaded and has the strategy on record as KILLED.
  abbrev pub IsKilled : String → Engine F → Type 0
  IsKilled n e = (e.loaded ≡ true) × (killed_at n e.records ≡ true)

  killed_at-insert :
      (n m : String) (r : StrategyRecord F) (rs : Records F)
      → killed_at n rs ≡ true
      → (str_eq m n ≡ true → is_killed r.state ≡ true)
      → killed_at n (insert m r rs) ≡ true
  killed_at-insert n m r rs h k = ground (arith, lookup-insert m n r rs)

  record_of-killed :
      (n m now : String) (e : Engine F)
      → killed_at n e.records ≡ true
      → str_eq m n ≡ true
      → is_killed (record_of now m e).state ≡ true
  record_of-killed n m now e h q = ground (arith, eq_iff m n)

  set_state-IsKilled :
      (n now m : String) (state : StrategyState) (reason : Reason F) (actor : String)
      (factor : Option F) (e : Engine F)
      → IsKilled n e
      → IsKilled n (set_state now m state reason actor factor e).0
  unfolding set_state
  set_state-IsKilled n now m state reason actor factor e h = ground (
    arith,
    killed_at-insert n m (record_of now m e) e.records,
    killed_at-insert n m (updated_record now state reason actor factor (record_of now m e))
        e.records,
    record_of-killed n m now e,
  )

  record_outcome-IsKilled :
      (n : String) (cfg : Settings F) (now m : String) (pnl : F) (e : Engine F)
      → IsKilled n e
      → IsKilled n (record_outcome cfg now m pnl e)
  unfolding record_outcome
  record_outcome-IsKilled n cfg now m pnl e h = ground (
    arith,
    killed_at-insert n m (record_of now m e) e.records,
    killed_at-insert n m (judged cfg (counted now pnl (record_of now m e))) e.records,
    record_of-killed n m now e,
  )

  ensure_loaded-IsKilled :
      (n now : String) (cached : Option (Records F)) (e : Engine F)
      → IsKilled n e
      → IsKilled n (ensure_loaded now cached e)
  unfolding ensure_loaded
  ensure_loaded-IsKilled n now cached e h = simp h.0 (refl, h.1)

  perform-IsKilled :
      (n : String) (c : Call F) (e : Engine F) → IsKilled n e → IsKilled n (perform c e)
  perform-IsKilled n (Call.loading now cached) e h = ensure_loaded-IsKilled n now cached e h
  perform-IsKilled n (Call.setting now m state reason actor factor) e h =
      set_state-IsKilled n now m state reason actor factor e h
  perform-IsKilled n (Call.outcome cfg now m pnl) e h = record_outcome-IsKilled n cfg now m pnl e h

  calls-IsKilled :
      (n : String) (cs : List (Call F)) (e : Engine F)
      → IsKilled n e
      → IsKilled n (perform_all cs e)
  unfolding perform_all
  calls-IsKilled n [] e h = h
  calls-IsKilled n (c ∷ cs) e h = calls-IsKilled n cs (perform c e) (perform-IsKilled n c e h)

  -- A strategy that a loaded engine has on record as KILLED is still on record as KILLED after any
  -- sequence of loads, state changes and trade outcomes, of this strategy and of others, and a trade
  -- of it is refused whatever the regime recommends and the lab enables.
  pub perform_all-IsKilled :
      (n : String) (cs : List (Call F)) (e : Engine F) (now regime : String)
      (recommended : List String) (lab_enabled : Bool)
      → IsKilled n e
      → IsKilled n (perform_all cs e)
        × ((check_trade now n regime recommended lab_enabled (perform_all cs e)).allowed ≡ false)
  unfolding check_trade evaluate_strategy
  perform_all-IsKilled n cs e now regime recommended lab_enabled h =
      (calls-IsKilled n cs e h, ground (arith, calls-IsKilled n cs e h))

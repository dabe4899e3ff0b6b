-- ===== src/Portfolio/Halting.antt =====
-- services/portfolio/manager.py: which calls halt trading when the database does not take their writes,
-- and which later calls leave it halted.
use apex_trader.Base.{
  ◌≡◌, refl, String, Bool, true, false, not, ◌&&◌, ◌||◌, Option, none, some, inl, inr, List, [],
  ◌∷◌, arith, Option-cases,
}
use apex_trader.Base.Floats.{FloatOps, ◌<F◌, ◌≤F◌, num}
use apex_trader.Base.CaseMap.{CaseMap}
use apex_trader.Config.{Settings}
use apex_trader.Portfolio.Models.{PositionView, PortfolioState, to_risk_state}
use apex_trader.Portfolio.Manager.{
  Manager, emergency_shutdown, enter_black_swan, is_trading_halted, after_write, persist,
  clear_after_flatten, record_fill, book_exit, exit_state, find_position, record_exit, sync_capital,
}
use apex_trader.Risk.Types.{TradeProposal}
use apex_trader.Risk.Engine.{evaluate}
use apex_trader.Risk.Approval.{approves, evaluate-approved_iff}

-- A call of the manager that is no `resume_trading` and no `load`, with what the database answers.
pub data Call (F : Type 0) : Type 0 where
  fill : PositionView F → Bool → Bool → Call F
  exit : String → F → F → Option F → Bool → Bool → Call F
  flatten : Bool → Bool → Call F
  capital : F → F → Option F → Bool → Call F
  saving : Bool → Call F
  shutdown black_swan : Call F

module _ {F : Type 0} ⦃o : FloatOps F⦄ ⦃u : CaseMap⦄ where
  unfoldable pub perform : Call F → Manager F → Manager F
  perform (Call.fill p added saved) m = (record_fill p added saved m).0
  perform (Call.exit symbol price pnl qty closed saved) m =
      (record_exit symbol price pnl qty closed saved m).0
  perform (Call.flatten closed saved) m = (clear_after_flatten closed saved m).0
  perform (Call.capital equity cash bp saved) m = (sync_capital equity cash bp saved m).0
  perform (Call.saving saved) m = (persist saved m).0
  perform Call.shutdown m = emergency_shutdown m
  perform Call.black_swan m = enter_black_swan m

  unfoldable pub perform_all : List (Call F) → Manager F → Manager F
  unfolding perform
  perform_all [] m = m
  perform_all (c ∷ cs) m = perform_all cs (perform c m)

  abbrev halted : Manager F → Bool
  halted m = m.state.emergency_halt || m.state.circuit_breaker

  -- Is there a position to reduce, and does it hold the quantity?
  abbrev pub accepts_exit : Option F → Option (PositionView F) → Bool
  accepts_exit qty none = false
  accepts_exit none (some p) = (num 0 <F p.qty) && (p.qty ≤F p.qty)
  accepts_exit (some q) (some p) = (num 0 <F q) && (q ≤F p.qty)

  -- Does the call meet a write that the database does not take, or shut the portfolio down?
  abbrev pub halts : Call F → Manager F → Bool
  halts (Call.fill p added saved) m = not (added && saved)
  halts (Call.exit symbol price pnl qty closed saved) m =
      accepts_exit qty (find_position (u.upper symbol) m.state.positions) && not (closed && saved)
  halts (Call.flatten closed saved) m = not (closed && saved)
  halts (Call.capital equity cash bp saved) m = false
  halts (Call.saving saved) m = false
  halts Call.shutdown m = true
  halts Call.black_swan m = true

  perform-halted : (c : Call F) (m : Manager F) → halted m ≡ true → halted (perform c m) ≡ true
  unfolding perform record_fill record_exit exit_state book_exit clear_after_flatten sync_capital
      persist enter_black_swan emergency_shutdown after_write
  perform-halted (Call.fill p added saved) m h = ground arith
  perform-halted (Call.exit symbol price pnl qty closed saved) m h =
      elim (Option-cases (find_position (u.upper symbol) m.state.positions)) [
        | inl nothing ↦ ground arith
        | inr (p, e) ↦ ground arith
      ]
  perform-halted (Call.flatten closed saved) m h = ground arith
  perform-halted (Call.capital equity cash bp saved) m h = ground arith
  perform-halted (Call.saving saved) m h = h
  perform-halted Call.shutdown m h = refl
  perform-halted Call.black_swan m h = refl

  perform_all-halted :
      (cs : List (Call F)) (m : Manager F) → halted m ≡ true → halted (perform_all cs m) ≡ true
  unfolding perform_all
  perform_all-halted [] m h = h
  perform_all-halted (c ∷ cs) m h = perform_all-halted cs (perform c m) (perform-halted c m h)

  halts-halted : (c : Call F) (m : Manager F) → halts c m ≡ true → halted (perform c m) ≡ true
  unfolding perform record_fill record_exit clear_after_flatten enter_black_swan emergency_shutdown
      after_write
  halts-halted (Call.fill p added saved) m h = ground arith
  halts-halted (Call.exit symbol price pnl qty closed saved) m h =
      elim (Option-cases (find_position (u.upper symbol) m.state.positions)) [
        | inl nothing ↦ ground arith
        | inr (p, e) ↦ ground arith
      ]
  halts-halted (Call.flatten closed saved) m h = ground arith
  halts-halted (Call.capital equity cash bp saved) m h = cc
  halts-halted (Call.saving saved) m h = cc
  halts-halted Call.shutdown m h = refl
  halts-halted Call.black_swan m h = refl

  halted_refused :
      (cfg : Settings F) (p : TradeProposal F) (s : PortfolioState F)
      → s.emergency_halt || s.circuit_breaker ≡ true
      → approves (evaluate cfg p (to_risk_state s)) ≡ false
  unfolding to_risk_state
  halted_refused cfg p s h = ground (arith, evaluate-approved_iff cfg p (to_risk_state s))

  -- Once a fill, an exit or a flattening has met a database that did not take its writes, or the
  -- portfolio was shut down, the portfolio stays halted through every sequence of fills, exits,
  -- flattenings, capital updates, saves and shutdowns, and the risk engine approves no trade on it. A
  -- fill or a flattening counts with its writes, an exit only if there is a position to reduce by it; the
  -- failure of a save or of a capital update is not meant, and `resume_trading` and `load`, which set
  -- the flags anew, are not among the calls.
  pub halt_lasts :
      (cfg : Settings F) (p : TradeProposal F) (c : Call F) (cs : List (Call F)) (m : Manager F)
      → halts c m ≡ true
      → (is_trading_halted (perform_all cs (perform c m)).state ≡ true)
        × (approves (evaluate cfg p (to_risk_state (perform_all cs (perform c m)).state)) ≡ false)
  unfolding is_trading_halted
  halt_lasts cfg p c cs m h =
      let stopped = perform_all-halted cs (perform c m) (halts-halted c m h) in
      (ground (arith, stopped), halted_refused cfg p (perform_all cs (perform c m)).state stopped)

-- ===== src/Portfolio/Manager.antt =====
-- services/portfolio/manager.py: `PortfolioManager`. Whether the database took each write is an
-- argument; the compliance records are not modelled. A method returns the new manager and its result.
use apex_trader.Base.{
  ◌+◌, String, Bool, true, false, not, ◌&&◌, ◌||◌, Option, none, some, List, [], ◌∷◌, ◌++◌,
  if◌then◌else◌, str_eq,
}
use apex_trader.Base.Floats.{
  FloatOps, ◌+F◌, ◌-F◌, ◌*F◌, ◌/F◌, ◌<F◌, ◌≤F◌, num, ratio, abs, min, max,
}
use apex_trader.Base.CaseMap.{CaseMap}
use apex_trader.Config.{Settings}
use apex_trader.Portfolio.Models.{PositionView, PortfolioState}
use apex_trader.Risk.Types.{TradeProposal}

pub record Manager (F : Type 0) : Type 0 where
  pub state : PortfolioState F
  pub persistence_ok : Bool

-- How `record_exit` ends: with its Boolean, or by a `ValueError`.
pub data ExitResult : Type 0 where
  returned : Bool → ExitResult
  bad_quantity : ExitResult

module _ {F : Type 0} where
  abbrev pub with_state : PortfolioState F → Manager F → Manager F
  with_state s m = record m { state = s }

  abbrev shut_down : PortfolioState F → PortfolioState F
  shut_down s = record s { emergency_halt = true; circuit_breaker = true }

  unfoldable pub emergency_shutdown : Manager F → Manager F
  emergency_shutdown m = with_state (shut_down m.state) m

  unfoldable pub enter_black_swan : Manager F → Manager F
  unfolding emergency_shutdown
  enter_black_swan m =
      emergency_shutdown (with_state (record (m.state) { black_swan_mode = true }) m)

  unfoldable pub resume_trading : Manager F → Manager F
  resume_trading m =
      with_state
        (record (m.state) {
          emergency_halt = false;
          circuit_breaker = false;
          black_swan_mode = false;
        })
        m

  unfoldable pub is_trading_halted : PortfolioState F → Bool
  is_trading_halted s = s.emergency_halt || s.circuit_breaker || s.black_swan_mode

  -- `self.persistence_ok = …`, and the shutdown where it is false.
  unfoldable pub after_write : Bool → Manager F → Manager F
  unfolding emergency_shutdown
  after_write ok m =
      let m' = record m { persistence_ok = ok } in if ok then m' else emergency_shutdown m'

  -- `persist`: a failed save is reported, and halts nothing.
  unfoldable pub persist : Bool → Manager F → Manager F × Bool
  persist saved m = (record m { persistence_ok = saved }, saved)

  -- `clear_after_flatten`: the positions go only if the database closed them.
  unfoldable pub clear_after_flatten : Bool → Bool → Manager F → Manager F × Bool
  unfolding after_write
  clear_after_flatten closed saved m =
      let m' = if closed then with_state (record (m.state) { positions = [] }) m else m in
      (after_write (closed && saved) m', closed && saved)

module _ {F : Type 0} ⦃u : CaseMap⦄ where
  abbrev pub matches : String → PositionView F → Bool
  matches sym p = str_eq (u.upper p.symbol) sym

  -- `next((p for p in positions if p.symbol.upper() == sym), None)`
  unfoldable pub find_position : String → List (PositionView F) → Option (PositionView F)
  find_position sym [] = none
  find_position sym (p ∷ ps) = if matches sym p then some p else find_position sym ps

  -- The list after that position was changed in place, or taken out.
  unfoldable pub replace_position :
      String → Option (PositionView F) → List (PositionView F) → List (PositionView F)
  replace_position sym q [] = []
  replace_position sym q (p ∷ ps) =
      if matches sym p
      then elim q [ none ↦ ps | some p' ↦ p' ∷ ps ]
      else p ∷ replace_position sym q ps

module _ {F : Type 0} ⦃o : FloatOps F⦄ where
  unfoldable pub record_fill : PositionView F → Bool → Bool → Manager F → Manager F × Bool
  unfolding after_write
  record_fill p added saved m =
      let s = m.state in
      let s' = record s {
        cash = max (num 0) (s.cash -F p.qty *F p.entry);
        positions = s.positions ++ p ∷ [];
      } in
      (after_write (added && saved) (with_state s' m), added && saved)

  abbrev is_loss : F → Bool
  is_loss pnl = pnl <F num 0

  -- The money and the streak after an exit.
  unfoldable pub book_exit : F → F → F → PortfolioState F → PortfolioState F
  book_exit closed_qty exit_price pnl s =
      let equity = s.equity +F pnl in
      record s {
        cash = s.cash +F closed_qty *F exit_price;
        daily_pnl = s.daily_pnl +F pnl;
        weekly_pnl = s.weekly_pnl +F pnl;
        monthly_pnl = s.monthly_pnl +F pnl;
        equity = equity;
        peak_equity = if s.peak_equity <F equity then equity else s.peak_equity;
        consecutive_losses = if is_loss pnl then s.consecutive_losses + 1 else 0;
      }

  -- The position that is left; `none` when it is closed whole.
  unfoldable pub reduce_position : F → PositionView F → Option (PositionView F)
  reduce_position closed_qty p =
      let qty = p.qty -F closed_qty in
      if qty ≤F num 0
      then none
      else some (record p { qty = qty; risk_pct = p.risk_pct *F (qty /F p.qty) })

  module _ ⦃u : CaseMap⦄ where
    unfoldable pub exit_state :
        String → PositionView F → F → F → F → PortfolioState F → PortfolioState F
    unfolding book_exit reduce_position replace_position
    exit_state sym p closed_qty exit_price pnl s =
        let s' = book_exit closed_qty exit_price pnl s in
        record s' { positions = replace_position sym (reduce_position closed_qty p) s.positions }

    -- `record_exit`; no quantity means the whole position.
    unfoldable pub record_exit :
        String → F → F → Option F → Bool → Bool → Manager F → Manager F × ExitResult
    unfolding find_position exit_state after_write
    record_exit symbol exit_price pnl qty closed saved m =
        let sym = u.upper symbol in
        elim (find_position sym m.state.positions) [
          | none ↦ (m, ExitResult.returned false)
          | some p ↦
              let closed_qty : F = elim qty [ none ↦ p.qty | some q ↦ q ] in
              if not ((num 0 <F closed_qty) && (closed_qty ≤F p.qty))
              then (m, ExitResult.bad_quantity)
              else (
                after_write (closed && saved)
                    (with_state (exit_state sym p closed_qty exit_price pnl m.state) m),
                ExitResult.returned (closed && saved),
              )
        ]

  -- `size_position`
  unfoldable pub size_position : Settings F → TradeProposal F → PortfolioState F → F
  size_position cfg p s =
      let budget = s.equity *F cfg.max_risk_per_trade_pct /F num 100 in
      let qty = budget /F abs (p.entry -F p.stop_loss) in
      let share = if s.equity <F num 15000 then ratio 28 100 else ratio 15 100 in
      if p.entry ≤F p.stop_loss then num 0 else max (num 0) (min qty (s.equity *F share /F p.entry))

  -- `sync_capital_from_kite`: cash and buying power follow the broker; equity and its peak do not.
  -- `false` is the answer to an amount that is negative or not finite.
  unfoldable pub sync_capital : F → F → Option F → Bool → Manager F → Manager F × Bool
  unfolding persist
  sync_capital equity cash buying_power saved m =
      let bp : F = elim buying_power [ none ↦ cash | some b ↦ b ] in
      let s' = record (m.state) {
        cash = o.round (max (num 0) cash) 2;
        buying_power = o.round (max (num 0) (min (min bp cash) equity)) 2;
      } in
      if o.is_finite equity && (num 0 ≤F equity) && (o.is_finite cash && (num 0 ≤F cash))
      then ((persist saved (with_state s' m)).0, true)
      else (m, false)

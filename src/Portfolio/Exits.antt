-- ===== src/Portfolio/Exits.antt =====
-- services/portfolio/manager.py: the accounting of `record_exit`, and the peak of the equity.
use apex_trader.Base.{
  ◌≡◌, refl, inl, inr, ◌+◌, String, Bool, true, false, ◌&&◌, Option, none, some, List, [], ◌∷◌,
  arith, if◌then◌else◌, str_eq, eq_iff, Option-cases,
}
use apex_trader.Base.Floats.{FloatOps, ◌+F◌, ◌*F◌, ◌<F◌, ◌≤F◌, num}
use apex_trader.Base.CaseMap.{CaseMap}
use apex_trader.Portfolio.Models.{PositionView}
use apex_trader.Portfolio.Manager.{
  Manager, ExitResult, matches, find_position, replace_position, book_exit, reduce_position,
  exit_state, record_exit, after_write, record_fill, persist, clear_after_flatten, sync_capital,
  emergency_shutdown, enter_black_swan,
}
use apex_trader.Portfolio.Halting.{Call, perform, perform_all}

module _ {F : Type 0} ⦃u : CaseMap⦄ where
  pub find-replace_ne :
      (sym other : String) (q : Option (PositionView F)) (ps : List (PositionView F))
      → str_eq sym other ≡ false
      → ((p : PositionView F) → q ≡ some p → matches other p ≡ false)
      → find_position other (replace_position sym q ps) ≡ find_position other ps
  unfolding find_position replace_position
  find-replace_ne sym other q [] ne h = refl
  find-replace_ne sym other none (p ∷ ps) ne h = ground (
    arith,
    eq_iff (u.upper p.symbol) sym,
    eq_iff (u.upper p.symbol) other,
    eq_iff sym other,
    find-replace_ne sym other none ps ne h,
  )
  find-replace_ne sym other (some q) (p ∷ ps) ne h = ground (
    arith,
    eq_iff (u.upper p.symbol) sym,
    eq_iff (u.upper p.symbol) other,
    eq_iff sym other,
    h q refl,
    find-replace_ne sym other (some q) ps ne h,
  )

  pub find-matches :
      (sym : String) (ps : List (PositionView F)) (p : PositionView F)
      → find_position sym ps ≡ some p
      → matches sym p ≡ true
  unfolding find_position
  find-matches sym [] p h = cc
  find-matches sym (q ∷ ps) p h = ground (arith, find-matches sym ps p)

module _ {F : Type 0} ⦃o : FloatOps F⦄ ⦃u : CaseMap⦄ where
  reduce-matches :
      (sym : String) (closed_qty : F) (p q : PositionView F)
      → reduce_position closed_qty p ≡ some q
      → matches sym q ≡ matches sym p
  unfolding reduce_position
  reduce-matches sym closed_qty p q h = ground arith

  others_kept :
      (sym other : String) (qty : F) (p : PositionView F) (ps : List (PositionView F))
      → find_position sym ps ≡ some p
      → str_eq sym other ≡ false
      → find_position other (replace_position sym (reduce_position qty p) ps)
        ≡ find_position other ps
  others_kept sym other qty p ps at ne =
      find-replace_ne sym other (reduce_position qty p) ps ne (λ q e.
        rw (reduce-matches other qty p q e) (
          ground (
            arith,
            find-matches sym ps p at,
            eq_iff (u.upper p.symbol) sym,
            eq_iff (u.upper p.symbol) other,
            eq_iff sym other,
          )))

  -- An exit of a quantity above zero that the symbol's position holds moves the equity and the three
  -- profit counters by the profit and the cash by the proceeds, raises the peak to the new equity if
  -- that is higher, counts a loss or ends the streak, and leaves the position of every other symbol as
  -- it was, whether or not the database takes the write.
  pub record_exit_lem :
      (symbol other : String) (price pnl qty : F) (closed saved : Bool) (m : Manager F)
      (p : PositionView F)
      → find_position (u.upper symbol) m.state.positions ≡ some p
      → (num 0 <F qty) ≡ true
      → (qty ≤F p.qty) ≡ true
      → str_eq (u.upper symbol) other ≡ false
      → let (m', result) = record_exit symbol price pnl (some qty) closed saved m in
        let s = m.state in
        (result ≡ ExitResult.returned (closed && saved))
        × (m'.state.equity ≡ s.equity +F pnl)
        × (m'.state.daily_pnl ≡ s.daily_pnl +F pnl)
        × (m'.state.weekly_pnl ≡ s.weekly_pnl +F pnl)
        × (m'.state.monthly_pnl ≡ s.monthly_pnl +F pnl)
        × (m'.state.cash ≡ s.cash +F qty *F price)
        × (m'.state.peak_equity
            ≡ (if s.peak_equity <F (s.equity +F pnl) then s.equity +F pnl else s.peak_equity))
        × (m'.state.consecutive_losses ≡ (if pnl <F num 0 then s.consecutive_losses + 1 else 0))
        × (find_position other m'.state.positions ≡ find_position other s.positions)
  unfolding record_exit exit_state book_exit after_write emergency_shutdown
  record_exit_lem symbol other price pnl qty closed saved m p at pos fits ne =
      let kept = others_kept (u.upper symbol) other qty p m.state.positions at ne in ground arith

  -- An exit for a symbol that is not held reports failure, and one whose quantity is not above zero or
  -- is more than the position raises an error; neither changes anything.
  pub record_exit_refused :
      (symbol : String) (price pnl : F) (qty : F) (closed saved : Bool) (m : Manager F)
      → let r = record_exit symbol price pnl (some qty) closed saved m in
        (find_position (u.upper symbol) m.state.positions ≡ none
          → r ≡ (m, ExitResult.returned false))
        × ((p : PositionView F)
            → find_position (u.upper symbol) m.state.positions ≡ some p
            → ((num 0 <F qty) && (qty ≤F p.qty)) ≡ false
            → r ≡ (m, ExitResult.bad_quantity))
  unfolding record_exit
  record_exit_refused symbol price pnl qty closed saved m =
      (λ gone. rw (gone, record_exit), λ p at bad. ground arith)

  -- The recorded peak is not below the equity.
  abbrev pub IsPeaked : Manager F → Type 0
  IsPeaked m = (m.state.peak_equity <F m.state.equity) ≡ false

  perform-IsPeaked :
      ((x : F) → (x <F x) ≡ false)
      → (c : Call F) (m : Manager F) → IsPeaked m
      → IsPeaked (perform c m)
  unfolding perform record_fill record_exit exit_state book_exit clear_after_flatten sync_capital
      persist enter_black_swan emergency_shutdown after_write
  perform-IsPeaked irrefl (Call.fill p added saved) m h = ground arith
  perform-IsPeaked irrefl (Call.exit symbol price pnl qty closed saved) m h =
      elim (Option-cases (find_position (u.upper symbol) m.state.positions)) [
        | inl nothing ↦ ground arith
        | inr (p, e) ↦ ground (arith, irrefl (m.state.equity +F pnl))
      ]
  perform-IsPeaked irrefl (Call.flatten closed saved) m h = ground arith
  perform-IsPeaked irrefl (Call.capital equity cash bp saved) m h = ground arith
  perform-IsPeaked irrefl (Call.saving saved) m h = h
  perform-IsPeaked irrefl Call.shutdown m h = h
  perform-IsPeaked irrefl Call.black_swan m h = h

  -- If no number is below itself, every sequence of fills, exits, flattenings, capital updates, saves
  -- and shutdowns keeps the recorded peak from falling below the equity.
  pub perform_all-IsPeaked :
      ((x : F) → (x <F x) ≡ false)
      → (cs : List (Call F)) (m : Manager F) → IsPeaked m
      → IsPeaked (perform_all cs m)
  unfolding perform_all
  perform_all-IsPeaked irrefl [] m h = h
  perform_all-IsPeaked irrefl (c ∷ cs) m h =
      perform_all-IsPeaked irrefl cs (perform c m) (perform-IsPeaked irrefl c m h)

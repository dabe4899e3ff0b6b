-- ===== src/Governance/Counters.antt =====
-- services/governance/engine.py: the performance counters and the automatic DISABLED state.
use apex_trader.Base.{
  ◌≡◌, ◌+◌, ◌≤◌, String, false, ◌&&◌, Option, [], ◌∷◌, if◌then◌else◌, arith, str_eq, eq_refl, leb,
}
use apex_trader.Base.Floats.{FloatOps, ◌+F◌, ◌*F◌, ◌/F◌, ◌<F◌, num}
use apex_trader.Base.Dict.{lookup, insert, get_or, lookup-insert}
use apex_trader.Config.{Settings}
use apex_trader.Governance.Models.{StrategyState, disabled, Reason, StrategyRecord, new_record}
use apex_trader.Governance.Store.{Records}
use apex_trader.Governance.Engine.{
  Engine, is_killed, is_active, record_of, updated_record, counted, judged, set_state,
  record_outcome,
}

module _ {F : Type 0} ⦃o : FloatOps F⦄ where
  -- Every record's wins are among its trades.
  abbrev pub IsCounted : Records F → Type 0
  IsCounted [] = Unit {0}
  IsCounted ((n, r) ∷ rs) = (r.wins ≤ r.trades) × IsCounted rs

  insert-IsCounted :
      (n : String) (r : StrategyRecord F) (rs : Records F)
      → IsCounted rs
      → r.wins ≤ r.trades
      → IsCounted (insert n r rs)
  insert-IsCounted n r [] h k = (k, tt)
  insert-IsCounted n r ((m, q) ∷ rs) h k = ground (arith, insert-IsCounted n r rs h.1 k)

  get_or-IsCounted :
      (n : String) (rs : Records F) (r : StrategyRecord F)
      → IsCounted rs
      → r.wins ≤ r.trades
      → (get_or n rs r).wins ≤ (get_or n rs r).trades
  get_or-IsCounted n [] r h k = k
  get_or-IsCounted n ((m, q) ∷ rs) r h k = ground (arith, get_or-IsCounted n rs r h.1 k)

  record_of-counted :
      (now n : String) (e : Engine F)
      → IsCounted e.records
      → (record_of now n e).wins ≤ (record_of now n e).trades
  unfolding new_record
  record_of-counted now n e h = get_or-IsCounted n e.records (new_record now n) h (omega arith)

  -- Where every record's wins are within its trades, a state change by an operator and a recorded trade
  -- both keep them so.
  pub updates-IsCounted :
      (cfg : Settings F) (now n : String) (state : StrategyState) (reason : Reason F)
      (actor : String) (factor : Option F) (pnl : F) (e : Engine F)
      → IsCounted e.records
      → IsCounted (set_state now n state reason actor factor e).0.records
        × IsCounted (record_outcome cfg now n pnl e).records
  unfolding set_state record_outcome
  updates-IsCounted cfg now n state reason actor factor pnl e h =
      let r = record_of now n e in
      let k = record_of-counted now n e h in
      (
        ground (
          arith,
          insert-IsCounted n r e.records h k,
          insert-IsCounted n (updated_record now state reason actor factor r) e.records h k,
        ),
        ground (
          arith,
          insert-IsCounted n r e.records h k,
          insert-IsCounted n (judged cfg (counted now pnl r)) e.records h (ground (arith, k)),
        ),
      )

  -- What a trade of profit `pnl` leaves of a strategy that is not KILLED: one more trade, one more
  -- win exactly when the profit is above zero, the profit added to its total, and as its win rate a
  -- hundred times the new wins divided by the new trades; and its state is DISABLED if it was ACTIVE
  -- with enough trades, this one among them, and this win rate is too low, and is otherwise the state
  -- that it had. No other strategy's record changes.
  pub record_outcome_lem :
      (cfg : Settings F) (now n m : String) (pnl : F) (e : Engine F)
      → let r = record_of now n e in
        let r' = record_of now n (record_outcome cfg now n pnl e) in
        let wins = if num 0 <F pnl then r.wins + 1 else r.wins in
        let rate : F = num wins /F num (r.trades + 1) *F num 100 in
        is_killed r.state ≡ false
        → (r'.trades ≡ r.trades + 1)
          × (r'.wins ≡ wins)
          × (r'.total_pnl ≡ r.total_pnl +F pnl)
          × (r'.win_rate ≡ rate)
          × (r'.state ≡ (
              if leb cfg.strategy_disable_min_trades (r.trades + 1)
                && (rate <F cfg.strategy_disable_win_rate)
                && is_active r.state
              then disabled
              else r.state))
          × (str_eq n m ≡ false
              → lookup m (record_outcome cfg now n pnl e).records ≡ lookup m e.records)
  unfolding record_outcome
  record_outcome_lem cfg now n m pnl e h =
      let r' = judged cfg (counted now pnl (record_of now n e)) in
      let same = lookup-insert n n r' e.records in
      let other = lookup-insert n m r' e.records in
      (
        ground (arith, same, eq_refl n),
        ground (arith, same, eq_refl n),
        ground (arith, same, eq_refl n),
        ground (arith, same, eq_refl n),
        ground (arith, same, eq_refl n),
        ground (arith, other),
      )

-- ===== src/Execution/Agreement.antt =====
-- services/execution/reconciliation.py: what it means that a reconciliation is not degraded.
use apex_trader.Base.{
  ◌≡◌, refl, ap, sym, subst, ◌⊎◌, inl, inr, ℕ, Bool, true, false, ◌||◌, List, [], ◌∷◌, any, length,
  arith,
}
use apex_trader.Base.Floats.{FloatOps}
use apex_trader.Base.CaseMap.{CaseMap}
use apex_trader.Config.{Settings, is_shadow, is_paper}
use apex_trader.Cache.{Redis, RedisLaws}
use apex_trader.Control.Status.{
  ReadsAs, clear_reconciliation_degraded-ReadsAs, set_reconciliation_degraded-ReadsAs,
}
use apex_trader.Portfolio.Models.{PositionView}
use apex_trader.Trades.Repository.{TradeRecord, open_rows, open_trades}
use apex_trader.Execution.World.{Result, ok, raised, World, Broker, Outside, BrokerPosition}
use apex_trader.Execution.Run.{Run, ◌>>=◌, pure, modify, gets, ask, call, outcome, raise}
use apex_trader.Execution.Rules.{
  Any, returned, Holds-fact, Holds, Holds-keep_fact, Holds-bind, Holds-pure, Holds-if,
  Holds-outcome, Holds-any, After,
}
use apex_trader.Execution.Engine.Records.{degrade, flags_of}
use apex_trader.Execution.Engine.Entry.{is_unresolved, read_open_trades, found_rows}
use apex_trader.Execution.Reconciliation.{
  Issue, Reconciled, by_symbol, cleared, concluded, compared, with_unresolved, reconcile_on_startup,
}
use apex_trader.Execution.Covered.{Agreed, all_issues-Agreed}

both_parts :
    (t : Bool) (issues : List Issue)
    → with_unresolved t (ok issues) ≡ ok []
    → (t ≡ false) × (issues ≡ [])
both_parts true issues h = ground (arith, h)
both_parts false issues h = ground (arith, h)

-- What a reconciliation that is not degraded found: no row without a known outcome among the open ones, and
-- positions, as the broker gives them in some state, that agree with the ledger's.
abbrev pub HasAgreed :
    {F B W : Type 0} ⦃o : FloatOps F⦄ ⦃u : CaseMap⦄ ⦃b : Broker F B⦄
    → Settings F
    → World F B W
    → Type 0
HasAgreed {F} {B} ⦃b⦄ cfg w =
    (any (λ row. is_unresolved row.status) (open_rows w.trades) ≡ false)
    × ((positions : List (BrokerPosition F)) × ((st : B) × ((b.fetch_open_positions st).0
            ≡ ok positions)
          × Agreed B cfg (by_symbol w.portfolio.state.positions []) [] positions))

module _ {F B W : Type 0} ⦃o : FloatOps F⦄ ⦃u : CaseMap⦄ ⦃b : Broker F B⦄ where
  -- The ledger and the rows are those of another world.
  abbrev IsLike : World F B W → World F B W → Type 0
  IsLike w₀ w = (w.portfolio ≡ w₀.portfolio) × (w.trades ≡ w₀.trades)

  IsLike-asked :
      {A C : Type 0} (w₀ : World F B W) (f : B → Result A × B) (g : Result A → Run F B W C)
      {G : C → World F B W → Type 0}
      → ((a : Result A) (st : B) → (f st).0 ≡ a → Holds (IsLike w₀) (g a) G)
      → Holds (IsLike w₀) (outcome (call f) >>= g) G
  unfolding ◌>>=◌ outcome call
  IsLike-asked w₀ f g h = record { at = λ w p. (h (f w.broker).0 w.broker refl).at _ p }

  IsLike-held :
      {C : Type 0} (w₀ : World F B W) (g : List (PositionView F) → Run F B W C)
      {G : C → World F B W → Type 0}
      → Holds (IsLike w₀) (g w₀.portfolio.state.positions) G
      → Holds (IsLike w₀) (gets (λ w. w.portfolio.state.positions) >>= g) G
  unfolding ◌>>=◌ gets
  IsLike-held w₀ g {G} h = record {
    at = λ w p. subst (λ m. After G (g m.state.positions w)) (sym p.0) (h.at w p);
  }

  module _ ⦃x : Outside W⦄ ⦃r : Redis W⦄ where
    -- The report says whether the flag was cleared, and it was only after an agreement.
    abbrev pub IsReconciled : Settings F → World F B W → Reconciled → World F B W → Type 0
    IsReconciled cfg w₀ report w =
        ((report.is_ok ≡ true) × (ReadsAs false (flags_of w) × HasAgreed cfg w₀))
        ⊎ ((report.is_ok ≡ false) × ReadsAs true (flags_of w))

    degraded_after :
        RedisLaws r
        → Holds {F = F} {B = B} {W = W} Any (modify degrade) (λ _ w. ReadsAs true (flags_of w))
    unfolding modify degrade
    degraded_after laws = record {
      at = λ w p. set_reconciliation_degraded-ReadsAs laws (flags_of w);
    }

    cleared_after :
        RedisLaws r
        → Holds {F = F} {B = B} {W = W} Any (modify cleared) (λ _ w. ReadsAs false (flags_of w))
    unfolding modify
    cleared_after laws = record {
      at = λ w p. clear_reconciliation_degraded-ReadsAs laws (flags_of w);
    }

    concluded-IsReconciled :
        (laws : RedisLaws r) (cfg : Settings F) (w₀ : World F B W) (rows positions : ℕ)
        (issues : Result (List Issue))
        → (issues ≡ ok [] → HasAgreed cfg w₀)
        → Holds Any (concluded rows positions issues) (IsReconciled cfg w₀)
    concluded-IsReconciled laws cfg w₀ rows positions (ok []) h =
        Holds-bind (cleared_after laws) λ _. Holds-pure _ λ w p. inl (refl, (p, h refl))
    concluded-IsReconciled laws cfg w₀ rows positions (ok (i ∷ is)) h =
        Holds-bind (degraded_after laws) λ _. Holds-pure _ λ w p. inr (refl, p)
    concluded-IsReconciled laws cfg w₀ rows positions (raised e) h =
        Holds-bind (degraded_after laws) λ _. Holds-pure _ λ w p. inr (refl, p)

    compared-IsReconciled :
        (laws : RedisLaws r) (cfg : Settings F) (w₀ : World F B W) (rows : ℕ)
        (answer : Result (List (BrokerPosition F))) (st : B)
        → (b.fetch_open_positions st).0 ≡ answer
        → Holds
            (IsLike w₀)
            (compared cfg (any (λ row. is_unresolved row.status) (open_rows w₀.trades)) rows answer)
            (IsReconciled cfg w₀)
    compared-IsReconciled laws cfg w₀ rows (raised e) st f =
        Holds-any (concluded-IsReconciled laws cfg w₀ rows 0 (raised e) λ h. ground (arith, h))
    compared-IsReconciled laws cfg w₀ rows (ok positions) st f =
        let t = any (λ row. is_unresolved row.status) (open_rows w₀.trades) in
        let internal = by_symbol w₀.portfolio.state.positions [] in
        IsLike-held w₀ _ (
          Holds-any (
            Holds-outcome _ (all_issues-Agreed cfg internal [] positions)
              (λ issues. Holds-keep_fact λ agreed.
                concluded-IsReconciled laws cfg w₀ rows (length positions)
                  (with_unresolved t (ok issues))
                  λ h.
                    let (resolved, empty) = both_parts t issues h in
                    (resolved, (positions, (st, f, agreed empty))))
              (λ e.
                concluded-IsReconciled laws cfg w₀ rows (length positions) (raised e)
                  λ h. ground (arith, h))))

    rows_found :
        (w₀ : World F B W) (session : Bool) (rows : List (TradeRecord F)) (w : World F B W)
        → IsLike w₀ w
        → rows ≡ w₀.trades
        → After
            (λ found w'. IsLike w₀ w' × (found ≡ open_rows w₀.trades))
            (found_rows (open_trades session rows) w)
    unfolding found_rows open_trades pure raise
    rows_found w₀ true rows w p h = (p, ap open_rows h)
    rows_found w₀ false rows w p h = tt

    -- The rows of the open trades, where they can be read.
    rows_read :
        (w₀ : World F B W)
        → Holds
            (IsLike w₀)
            (read_open_trades {F = F} {B = B} {W = W})
            (λ rows w. IsLike w₀ w × (rows ≡ open_rows w₀.trades))
    unfolding read_open_trades ◌>>=◌ ask gets
    rows_read w₀ = record {
      at = λ w p. rows_found w₀ (x.session w.outside).0 w.trades _ (p.0, p.1) p.1;
    }

    after_rows :
        (laws : RedisLaws r) (cfg : Settings F) (w₀ : World F B W) (rows : List (TradeRecord F))
        → rows ≡ open_rows w₀.trades
        → (answer : Result (List (BrokerPosition F))) (st : B)
        → (b.fetch_open_positions st).0 ≡ answer
        → Holds
            (IsLike w₀)
            (compared cfg (any (λ row. is_unresolved row.status) rows) (length rows) answer)
            (IsReconciled cfg w₀)
    after_rows laws cfg w₀ rows e answer st f =
        subst (λ t. Holds (IsLike w₀) (compared cfg t (length rows) answer) (IsReconciled cfg w₀))
          (ap (any λ row. is_unresolved row.status) (sym e))
          (compared-IsReconciled laws cfg w₀ (length rows) answer st f)

    reconcile-IsReconciled :
        (laws : RedisLaws r) (cfg : Settings F) (w₀ : World F B W)
        → (is_paper cfg.trading_mode || is_shadow cfg.trading_mode) ≡ false
        → Holds (IsLike w₀) (reconcile_on_startup cfg) (IsReconciled cfg w₀)
    unfolding reconcile_on_startup
    reconcile-IsReconciled laws cfg w₀ real = Holds-bind (rows_read w₀) λ rows.
        Holds-if (is_paper cfg.trading_mode || is_shadow cfg.trading_mode)
          (λ c. ground (arith, c, real))
          (λ c. Holds-fact λ e.
            IsLike-asked w₀ b.fetch_open_positions _
              λ answer st f. after_rows laws cfg w₀ rows e answer st f)

    -- A reconciliation outside of the paper and shadow modes that returns clears the degraded flag and reports so
    -- only if no open row of the trades lacks an outcome and the positions that the broker gives in some state
    -- agree with the ledger's: each is long, of a symbol of its own, has the ledger's quantity and a stop order
    -- that by a report of the broker protects it, and the ledger has no other symbol. Otherwise it sets the flag
    -- and reports that. Where Redis keeps what it is given, the flag then also reads so in
    -- `is_reconciliation_degraded`, which asks Redis first, unless Redis has refused this last write.
    pub reconcile_on_startup-IsReconciled :
        (laws : RedisLaws r) (cfg : Settings F) (w : World F B W) (report : Reconciled)
        → (is_paper cfg.trading_mode || is_shadow cfg.trading_mode) ≡ false
        → (reconcile_on_startup cfg w).0 ≡ ok report
        → IsReconciled cfg w report (reconcile_on_startup cfg w).1
    reconcile_on_startup-IsReconciled laws cfg w report real h =
        returned (IsReconciled cfg w) _ report h
          ((reconcile-IsReconciled laws cfg w real).at w (refl, refl))

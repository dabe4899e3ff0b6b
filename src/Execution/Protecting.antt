-- ===== src/Execution/Protecting.antt =====
-- services/execution/execution_engine.py: the fill of a live entry and its stop at the broker.
use apex_trader.Base.{
  ◌≡◌, refl, ◌⊎◌, inl, inr, String, Bool, true, false, not, ◌||◌, Option, none, some, List, [], ◌∷◌,
  any, if◌then◌else◌, str_eq, arith,
}
use apex_trader.Base.Floats.{FloatOps, ◌<F◌, num}
use apex_trader.Base.CaseMap.{CaseMap}
use apex_trader.Config.{Settings, TradingMode, is_live}
use apex_trader.Cache.{Redis}
use apex_trader.Execution.Orders.{
  Blocker, OrderRequest, OrderResult, Message, is_refused, is_settled,
}
use apex_trader.Execution.World.{ok, World, Broker, Outside, OrderReport}
use apex_trader.Execution.Run.{Run, pure}
use apex_trader.Execution.Rules.{
  Any, returned, Holds-then, Holds-mono, Holds-nothing, Holds, Keeps, Holds-bind, Holds-outcome,
  Holds-keeps, Keeps-if, Keeps-pure, Holds-pre, Holds-pure, Holds-if,
}
use apex_trader.Control.Halt.{is_emergency_halt, is_reconciliation_degraded}
use apex_trader.Portfolio.Manager.{is_trading_halted}
use apex_trader.Execution.Engine.Records.{flags_of}
use apex_trader.Execution.Engine.Submission.{Attached, done, raised_at, is_final}
use apex_trader.Execution.Engine.Stops.{
  guarded, protect_or_give_up, protect_fill, after_cancel, reconcile_entry, submit_live,
}
use apex_trader.Execution.IdempotencyStore.{ClaimServer}
use apex_trader.Execution.Engine.Entry.{
  release, finish, unless_listed, live_entry, in_mode, dispatch, unless_blocked,
  pre_execution_block, duplicate_block, place_order, circuit_block, is_protectable, is_unresolved,
  is_paused, blocks_again, refusal, unresolved_block,
}
use apex_trader.Execution.Stopping.{
  IsStopped, IsStopped-modify, IsStopped-record, give_up-IsStopped,
}
use apex_trader.Execution.Attaching.{IsProtected, Kept, attach-Kept}

either_true : (a b : Bool) → a ≡ true → (a || b) ≡ true
either_true a b h = ground (arith, h)

module _ {F B W : Type 0} ⦃o : FloatOps F⦄ ⦃u : CaseMap⦄ ⦃b : Broker F B⦄ ⦃x : Outside W⦄
    ⦃r : Redis W⦄ where
  -- What a result has to come to: the portfolio is halted, or there is no fill, or the fill is protected.
  abbrev pub Safe : Settings F → OrderRequest F → OrderResult F → World F B W → Type 0
  Safe cfg req res w =
      IsStopped w ⊎ (((num 0 <F res.filled_qty) ≡ false) ⊎ IsProtected B cfg req res)

  protect_or-Safe :
      (cfg : Settings F) (req : OrderRequest F) (attached : Attached F)
      → Holds (Kept cfg req attached) (protect_or_give_up cfg req attached) (Safe cfg req)
  unfolding protect_or_give_up
  protect_or-Safe cfg req (done entry) =
      Holds-pure _ λ w p. elim p [ inl s ↦ inl s | inr q ↦ inr (inr q) ]
  protect_or-Safe cfg req (raised_at entry e) =
      Holds-mono (give_up-IsStopped cfg req entry e) λ a w s. inl s

  protect_fill-Safe :
      (cfg : Settings F) (req : OrderRequest F) (entry : OrderResult F) (price : F)
      → is_live cfg.trading_mode ≡ true
      → Holds Any (protect_fill {W = W} cfg req entry price) (Safe cfg req)
  unfolding protect_fill
  protect_fill-Safe cfg req entry price live =
      Holds-if _ (λ c. Holds-bind (attach-Kept cfg req entry price live) (protect_or-Safe cfg req))
        (λ c. Holds-pure entry λ w p. inr (inl c))

  guarded-Safe :
      {A : Type 0} (cfg : Settings F) (req : OrderRequest F) (entry : OrderResult F)
      (m : Run F B W A) {k : A → Run F B W (OrderResult F)}
      → ((a : A) → Holds Any (k a) (Safe cfg req))
      → Holds Any (guarded cfg req entry m k) (Safe cfg req)
  unfolding guarded
  guarded-Safe cfg req entry m h =
      Holds-outcome _ (Holds-nothing m) h
        λ e. Holds-mono (give_up-IsStopped cfg req entry e) λ a w s. inl s

  after_cancel-Safe :
      (cfg : Settings F) (req : OrderRequest F) (entry : OrderResult F) (price : F)
      (report : OrderReport F)
      → is_live cfg.trading_mode ≡ true
      → Holds Any (after_cancel {W = W} cfg req entry price report) (Safe cfg req)
  unfolding after_cancel
  after_cancel-Safe cfg req entry price report live =
      Holds-if (is_final report.stop.status) (λ c. protect_fill-Safe cfg req _ price live)
        (λ c. guarded-Safe cfg req entry _ λ a. protect_fill-Safe cfg req _ price live)

  reconcile_entry-Safe :
      (cfg : Settings F) (req : OrderRequest F) (placed : OrderResult F) (price : F)
      → is_live cfg.trading_mode ≡ true
      → Holds Any (reconcile_entry {W = W} cfg req placed price) (Safe cfg req)
  unfolding reconcile_entry
  reconcile_entry-Safe cfg req placed price live = guarded-Safe cfg req placed _ λ entry.
      Holds-if (is_settled entry.status) (λ c. protect_fill-Safe cfg req entry price live)
        (λ c. guarded-Safe cfg req entry _ λ a.
          guarded-Safe cfg req entry _ λ report. after_cancel-Safe cfg req entry price report live)

  -- A result that is refused or has no id of the broker, or is safe.
  abbrev pub Final : Settings F → OrderRequest F → OrderResult F → World F B W → Type 0
  Final cfg req res w =
      ((is_refused res.status || str_eq res.broker_order_id "") ≡ true) ⊎ Safe cfg req res w

  submit_live-Final :
      (cfg : Settings F) (req : OrderRequest F) (price : F)
      → is_live cfg.trading_mode ≡ true
      → Holds Any (submit_live {W = W} cfg req price) (Final cfg req)
  unfolding submit_live
  submit_live-Final cfg req price live = Holds-then _ λ entry. Holds-then _ λ recorded.
      Holds-if _ (λ c. Holds-pure entry λ w p. inl c)
        (λ c. Holds-mono (reconcile_entry-Safe cfg req entry price live) λ a w s. inr s)

  module _ ⦃s : ClaimServer W⦄ where
    IsStopped-release : (id : String) → Keeps {F = F} {B = B} {W = W} IsStopped (release id)
    unfolding release
    IsStopped-release id = IsStopped-modify _ λ w p. p

    kept-Final :
        {A : Type 0} (cfg : Settings F) (req : OrderRequest F) (res : OrderResult F)
        {m : Run F B W A}
        → Keeps IsStopped m
        → Keeps (Final cfg req res) m
    kept-Final cfg req res h = record {
      at = λ w p. elim p [
        | inl c ↦ inl c
        | inr (inl q) ↦ inr (inl (h.at w q))
        | inr (inr q) ↦ inr (inr q)
      ];
    }

    finish-Final :
        (cfg : Settings F) (req : OrderRequest F) (res : OrderResult F)
        → Holds (Final cfg req res) (finish {B = B} {W = W} cfg req res) (Final cfg req)
    unfolding finish
    finish-Final cfg req res =
        Holds-bind (Holds-keeps (kept-Final cfg req res (IsStopped-record cfg req res))) λ a.
          Holds-bind
            (Holds-keeps (kept-Final cfg req res (Keeps-if _ (IsStopped-release _) (Keeps-pure _))))
            λ c. Holds-pure res λ w p. p

    unless_listed-Final :
        (blockers : List Blocker) (cfg : Settings F) (req : OrderRequest F) (price : F)
        → is_live cfg.trading_mode ≡ true
        → Holds Any (unless_listed {W = W} blockers cfg req price) (Final cfg req)
    unless_listed-Final [] cfg req price live =
        Holds-bind (submit_live-Final cfg req price live) (finish-Final cfg req)
    unless_listed-Final (c ∷ cs) cfg req price live =
        Holds-pre (finish-Final cfg req _) λ w p. inl refl

    in_mode-Final :
        (mode : TradingMode) (cfg : Settings F) (req : OrderRequest F) (price : F)
        → is_live mode ≡ true
        → is_live cfg.trading_mode ≡ true
        → Holds Any (in_mode {W = W} mode cfg req price) (Final cfg req)
    unfolding live_entry
    in_mode-Final TradingMode.live cfg req price h live =
        Holds-then _ λ blockers. unless_listed-Final blockers cfg req price live
    in_mode-Final TradingMode.shadow cfg req price h live = (ground (arith, h))
    in_mode-Final TradingMode.paper cfg req price h live = (ground (arith, h))
    in_mode-Final (TradingMode.other m) cfg req price h live = (ground (arith, h))

    -- What a block gives was not sent.
    abbrev Unsent : Option (OrderResult F) → World F B W → Type 0
    Unsent none w = Unit {0}
    Unsent (some res) w = is_refused res.status ≡ true

    refused :
        (req : OrderRequest F) (why : Message F)
        → Holds {F = F} {B = B} {W = W} Any (pure (some (refusal req why))) Unsent
    refused req why = Holds-pure _ λ w p. refl

    let_through : Holds {F = F} {B = B} {W = W} Any (pure none) Unsent
    let_through = Holds-pure _ λ w p. tt

    unless_blocked-Final :
        (cfg : Settings F) (req : OrderRequest F) (blocked : Option (OrderResult F))
        {k : Run F B W (OrderResult F)}
        → Holds Any k (Final cfg req)
        → Holds (Unsent blocked) (unless_blocked blocked k) (Final cfg req)
    unfolding unless_blocked
    unless_blocked-Final cfg req none k = Holds-pre k λ w p. tt
    unless_blocked-Final cfg req (some res) k =
        Holds-pure res λ w p. inl (either_true _ (str_eq res.broker_order_id "") p)

    circuit_block-Unsent :
        (req : OrderRequest F) → Holds Any (circuit_block {B = B} {W = W} req) Unsent
    unfolding circuit_block
    circuit_block-Unsent req = Holds-then _ λ now. Holds-then _ λ opened. Holds-then _ λ a.
        Holds-if opened.0
          (λ c.
            Holds-then _ λ second.
              Holds-then _ λ third. Holds-then _ λ paused. Holds-then _ λ d. refused req _)
          (λ c. let_through)

    unresolved_block-Unsent :
        (cfg : Settings F) (req : OrderRequest F)
        → Holds Any (unresolved_block {B = B} {W = W} cfg req) Unsent
    unfolding unresolved_block
    unresolved_block-Unsent cfg req =
        Holds-if (is_live cfg.trading_mode)
          (λ c. Holds-then _ λ rows.
            Holds-if (any (λ row. is_unresolved row.status) rows) (λ d. refused req _)
              (λ d. circuit_block-Unsent req))
          (λ c. circuit_block-Unsent req)

    pre_execution_block-Unsent :
        (cfg : Settings F) (req : OrderRequest F)
        → Holds Any (pre_execution_block {B = B} {W = W} cfg req) Unsent
    unfolding pre_execution_block
    pre_execution_block-Unsent cfg req = Holds-then _ λ row. Holds-then _ λ w.
        Holds-if (is_paused row) (λ c. refused req _)
          λ c.
            Holds-if (is_reconciliation_degraded (flags_of w)) (λ c. refused req _)
              λ c.
                Holds-if (is_emergency_halt (flags_of w)) (λ c. refused req _)
                  λ c.
                    Holds-if (is_trading_halted w.portfolio.state) (λ c. refused req _)
                      λ c. unresolved_block-Unsent cfg req

    acquired-Unsent :
        (req : OrderRequest F) (why : Message F) (t : Bool) (w : World F B W)
        → Unsent (if t then none else some (refusal req why)) w
    acquired-Unsent req why true w = tt
    acquired-Unsent req why false w = refl

    duplicate_block-Unsent :
        (cfg : Settings F) (req : OrderRequest F)
        → Holds Any (duplicate_block {B = B} {W = W} cfg req) Unsent
    unfolding duplicate_block
    duplicate_block-Unsent cfg req =
        Holds-if (str_eq req.client_order_id "") (λ c. let_through)
          λ c. Holds-then _ λ existing.
            Holds-if (blocks_again existing) (λ d. Holds-pure _ λ w p. refl)
              λ d. Holds-then _ λ acquired. Holds-pure _ λ w p. acquired-Unsent req _ acquired w

    place_order-Final :
        (cfg : Settings F) (req : OrderRequest F) (market_price : F)
        → is_live cfg.trading_mode ≡ true
        → Holds Any (place_order {B = B} {W = W} cfg req market_price) (Final cfg req)
    unfolding place_order dispatch
    place_order-Final cfg req market_price live =
        Holds-if (not (is_protectable req market_price)) (λ c. Holds-pure _ λ w p. inl refl)
          λ c. Holds-bind (pre_execution_block-Unsent cfg req) λ blocked.
            unless_blocked-Final cfg req blocked (
              Holds-bind (duplicate_block-Unsent cfg req) λ duplicate.
                unless_blocked-Final cfg req duplicate
                  (Holds-then _ λ a. in_mode-Final cfg.trading_mode cfg req market_price live live))

    -- A live order that returns a result is refused or has no id of the broker, or the portfolio is halted, or
    -- nothing was filled, or the result names a stop order of which the broker, in some state, reports that it
    -- works, sells the symbol at its product and exchange, and covers the filled quantity.
    pub place_order-IsProtected :
        (cfg : Settings F) (req : OrderRequest F) (market_price : F) (w : World F B W)
        (res : OrderResult F)
        → is_live cfg.trading_mode ≡ true
        → (place_order cfg req market_price w).0 ≡ ok res
        → ((is_refused res.status || str_eq res.broker_order_id "") ≡ true)
          ⊎ (IsStopped (place_order cfg req market_price w).1
              ⊎ (((num 0 <F res.filled_qty) ≡ false) ⊎ IsProtected B cfg req res))
    place_order-IsProtected cfg req market_price w res live h =
        returned (Final cfg req) _ res h ((place_order-Final cfg req market_price live).at w tt)

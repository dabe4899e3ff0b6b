-- ===== src/Execution/Exits.antt =====
-- services/execution/execution_engine.py: what an exit leaves when something is not known.
use apex_trader.Base.{
  ◌≡◌, refl, ◌⊎◌, inl, inr, String, Bool, true, false, not, ◌||◌, Option, none, some, any, str_eq,
  arith,
}
use apex_trader.Base.Floats.{FloatOps, ◌<F◌, ◌≤F◌, num}
use apex_trader.Base.CaseMap.{CaseMap}
use apex_trader.Config.{Settings, TradingMode, is_live, is_shadow}
use apex_trader.Cache.{Redis}
use apex_trader.Portfolio.Manager.{emergency_shutdown}
use apex_trader.Portfolio.Models.{PositionView}
use apex_trader.Execution.Orders.{OrderRequest, OrderResult, Message, is_settled, is_submitted}
use apex_trader.Execution.World.{Result, ok, raised, World, Broker, Outside, BrokerPosition}
use apex_trader.Execution.Run.{Run, ◌>>=◌, pure, modify, try, go_on, handled}
use apex_trader.Execution.Rules.{
  Any, Holds-try, Holds, returned, Holds-then, Holds-bind, Holds-pure, Holds-if, Holds-pre,
  Keeps-bind,
}
use apex_trader.Execution.Engine.Records.{unknown, degrade, shut_portfolio}
use apex_trader.Execution.Engine.Submission.{is_final, or_zero}
use apex_trader.Execution.Engine.Exit.{
  Step, matched_by, unless_answered, cancel_stop, stop_filled, match_broker, blocks_exit,
}
use apex_trader.Execution.Engine.Selling.{
  exit_held, sell_live, account_exit, settle_exit, reconcile_exit, exit_live, exit_position,
  place_exit_inner, place_exit,
}
use apex_trader.Execution.Stopping.{
  IsStopped, IsStopped-persist, IsStopped-update, unknown-IsStopped,
}

neither : (a c : Bool) → (a || c) ≡ false → a ≡ false
neither a c h = ground (arith, h)

not_both : (mode : TradingMode) → is_live mode ≡ true → is_shadow mode ≡ true → ⊥
not_both TradingMode.live h k = ground (arith, k)
not_both TradingMode.shadow h k = ground (arith, h)
not_both TradingMode.paper h k = ground (arith, h)
not_both (TradingMode.other m) h k = ground (arith, h)

go_on_stops :
    {F B W A : Type 0} (a : A) (y : Result (Unit {0}) × World F B W)
    → IsStopped y.1
    → IsStopped (go_on (λ _ w. (ok a, w)) y).1
go_on_stops a (ok c, w) h = h
go_on_stops a (raised e, w) h = h

module _ {F B W : Type 0} ⦃o : FloatOps F⦄ ⦃u : CaseMap⦄ ⦃b : Broker F B⦄ ⦃x : Outside W⦄
    ⦃r : Redis W⦄ where
  -- The portfolio is halted first, so that it is also if a later step raises.
  pub unknown_stops :
      (cfg : Settings F) (req : OrderRequest F) (reason : Message F) (w : World F B W)
      → IsStopped (unknown cfg req reason w).1
  unfolding unknown ◌>>=◌ modify degrade shut_portfolio emergency_shutdown
  unknown_stops cfg req reason w =
      (Keeps-bind IsStopped-persist λ a. IsStopped-update cfg _ _).at _ refl

  -- Known, or halted.
  abbrev pub Known : OrderResult F → World F B W → Type 0
  Known res w = (res.unknown ≡ false) ⊎ IsStopped w

  abbrev KnownStep : {A : Type 0} → Step F A → World F B W → Type 0
  KnownStep (Step.answered res) w = Known res w
  KnownStep (Step.going a) w = Unit {0}

  unless_answered-Known :
      {A : Type 0} (step : Step F A) {k : A → Run F B W (OrderResult F)}
      → ((a : A) → Holds Any (k a) Known)
      → Holds (KnownStep step) (unless_answered step k) Known
  unfolding unless_answered
  unless_answered-Known (Step.answered res) k = Holds-pure res λ w p. p
  unless_answered-Known (Step.going a) k = Holds-pre (k a) λ w p. tt

  after_unknown :
      {A : Type 0} {G : A → World F B W → Type 0} (cfg : Settings F) (req : OrderRequest F)
      (reason : Message F) (a : A)
      → ((w : World F B W) → IsStopped w → G a w)
      → Holds Any (unknown cfg req reason >>= λ _. pure a) G
  after_unknown cfg req reason a h =
      Holds-bind (unknown-IsStopped cfg req reason) λ _. Holds-pure a h

  cancel_stop-Known :
      (cfg : Settings F) (req : OrderRequest F) (pos : PositionView F)
      → Holds Any (cancel_stop {W = W} cfg req pos) KnownStep
  unfolding cancel_stop stop_filled
  cancel_stop-Known cfg req pos =
      Holds-if (str_eq pos.stop_order_id "") (λ c. Holds-pure _ λ w p. tt)
        λ c. Holds-then _ λ cancelled. Holds-then _ λ report.
          Holds-if (not (is_final report.stop.status)) (λ d. after_unknown cfg req _ _ λ w p. inr p)
            (λ d.
              Holds-if (num 0 <F or_zero report.stop.filled_quantity)
                (λ e. Holds-then _ λ a. Holds-then _ λ c. after_unknown cfg req _ _ λ w p. inr p)
                (λ e. Holds-then _ λ a. Holds-pure _ λ w p. tt))

  matched_by-Known :
      (cfg : Settings F) (req : OrderRequest F) (found : Option (BrokerPosition F))
      → Holds Any (matched_by {W = W} cfg req found) KnownStep
  matched_by-Known cfg req none = after_unknown cfg req _ _ λ w p. inr p
  matched_by-Known cfg req (some p) = Holds-pure _ λ w q. tt

  match_broker-Known :
      (cfg : Settings F) (req : OrderRequest F) (pos : PositionView F)
      → Holds Any (match_broker {W = W} cfg req pos) KnownStep
  unfolding match_broker
  match_broker-Known cfg req pos = Holds-then _ λ positions. matched_by-Known cfg req _

  account_exit-Known :
      (cfg : Settings F) (req : OrderRequest F) (pos : PositionView F) (price : F)
      (result : OrderResult F)
      → Holds Any (account_exit {W = W} cfg req pos price result) Known
  unfolding account_exit
  account_exit-Known cfg req pos price result =
      Holds-if (result.unknown || is_submitted result.status)
        (λ c. after_unknown cfg req _ result λ w p. inr p)
        (λ c.
          Holds-then _
            λ a. Holds-then _ λ d. Holds-pure result λ w p. inl (neither result.unknown _ c))

  settle_exit-Known :
      (cfg : Settings F) (req : OrderRequest F) (result : OrderResult F)
      → Holds Any (settle_exit {W = W} cfg req result) KnownStep
  unfolding settle_exit
  settle_exit-Known cfg req result =
      Holds-if (is_settled result.status) (λ c. Holds-pure _ λ w p. tt)
        λ c. Holds-then _ λ cancelled. Holds-then _ λ report.
          Holds-if (is_final report.stop.status) (λ d. Holds-pure _ λ w p. tt)
            λ d. after_unknown cfg req _ _ λ w p. inr p

  reconcile_exit-Known :
      (cfg : Settings F) (req : OrderRequest F) (result : OrderResult F)
      → Holds Any (reconcile_exit {W = W} cfg req result) KnownStep
  unfolding reconcile_exit
  reconcile_exit-Known cfg req result =
      Holds-if (str_eq result.broker_order_id "") (λ c. Holds-pure _ λ w p. tt)
        λ c. Holds-then _ λ reconciled. settle_exit-Known cfg req reconciled

  sell_live-Known :
      (cfg : Settings F) (req : OrderRequest F) (pos : PositionView F) (price : F)
      → Holds Any (sell_live {W = W} cfg req pos price) Known
  unfolding sell_live
  sell_live-Known cfg req pos price = Holds-then _ λ result. Holds-then _ λ recorded.
      Holds-bind (reconcile_exit-Known cfg req result)
        λ step. unless_answered-Known step λ settled. account_exit-Known cfg req pos price settled

  exit_live-Known :
      (cfg : Settings F) (req : OrderRequest F) (pos : PositionView F) (price : F)
      → Holds Any (exit_live {W = W} cfg req pos price) Known
  unfolding exit_live
  exit_live-Known cfg req pos price = Holds-then _ λ rows.
      Holds-if (any (blocks_exit req.symbol) rows) (λ c. Holds-pure _ λ w p. inl refl)
        λ c. Holds-then _ λ written. Holds-bind (cancel_stop-Known cfg req pos) λ cancelled.
          unless_answered-Known cancelled λ _.
            Holds-bind (match_broker-Known cfg req pos)
              λ matched. unless_answered-Known matched λ req'. sell_live-Known cfg req' pos price

  exit_position-Known :
      (cfg : Settings F) (pos : PositionView F) (symbol : String) (qty : F) (strategy : String)
      (price : F)
      → is_live cfg.trading_mode ≡ true
      → Holds Any (exit_position {W = W} cfg pos symbol qty strategy price) Known
  unfolding exit_position
  exit_position-Known cfg pos symbol qty strategy price live = Holds-then _ λ id.
      Holds-then _ λ units.
        Holds-if (is_shadow cfg.trading_mode) (λ c. absurd (not_both cfg.trading_mode live c))
          λ c.
            Holds-if (is_live cfg.trading_mode) (λ d. exit_live-Known cfg _ pos price)
              (λ d. ground (arith, d, live))

  exit_held-Known :
      (cfg : Settings F) (symbol : String) (qty : F) (strategy : String) (price : F)
      (held : Option (PositionView F))
      → is_live cfg.trading_mode ≡ true
      → Holds Any (exit_held {W = W} cfg symbol qty strategy price held) Known
  exit_held-Known cfg symbol qty strategy price none live = Holds-pure _ λ w p. inl refl
  exit_held-Known cfg symbol qty strategy price (some pos) live =
      Holds-if ((qty ≤F num 0) || (pos.qty <F qty)) (λ c. Holds-pure _ λ w p. inl refl)
        λ c. exit_position-Known cfg pos symbol qty strategy price live

  place_exit_inner-Known :
      (cfg : Settings F) (symbol : String) (qty : F) (strategy : String) (price : F)
      → is_live cfg.trading_mode ≡ true
      → Holds Any (place_exit_inner {W = W} cfg symbol qty strategy price) Known
  unfolding place_exit_inner
  place_exit_inner-Known cfg symbol qty strategy price live =
      Holds-then _ λ held. exit_held-Known cfg symbol qty strategy price held live

  -- In live mode an exit whose result says that its outcome is unknown leaves the portfolio halted.
  pub place_exit-Known :
      (cfg : Settings F) (symbol : String) (qty : F) (strategy : String) (price : F)
      (w : World F B W) (res : OrderResult F)
      → is_live cfg.trading_mode ≡ true
      → (place_exit cfg symbol qty strategy price w).0 ≡ ok res
      → (res.unknown ≡ false) ⊎ IsStopped (place_exit cfg symbol qty strategy price w).1
  unfolding place_exit
  place_exit-Known cfg symbol qty strategy price w res live h = returned Known _ res h (
      (Holds-try (place_exit_inner-Known cfg symbol qty strategy price live)
          λ e. after_unknown cfg _ _ _ λ w p. inr p).at
        w tt)

  raised_stops :
      (handler : String → Run F B W (OrderResult F))
      → ((e : String) (w : World F B W) → IsStopped (handler e w).1)
      → (y : Result (OrderResult F) × World F B W) (e : String) → (handled handler y).0 ≡ raised e
      → IsStopped (handled handler y).1
  raised_stops handler h (ok a, w) e g = ground (arith, g)
  raised_stops handler h (raised e', w) e g = h e' w

  -- An exception of an exit, in any mode, leaves the portfolio halted.
  pub place_exit-raised :
      (cfg : Settings F) (symbol : String) (qty : F) (strategy : String) (price : F)
      (w : World F B W) (e : String)
      → (place_exit cfg symbol qty strategy price w).0 ≡ raised e
      → IsStopped (place_exit cfg symbol qty strategy price w).1
  unfolding place_exit try ◌>>=◌ pure
  place_exit-raised cfg symbol qty strategy price w e h =
      raised_stops _ (λ e' w'. go_on_stops _ _ (unknown_stops cfg _ _ w'))
        (place_exit_inner cfg symbol qty strategy price w) e h

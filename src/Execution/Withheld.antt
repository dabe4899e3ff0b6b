-- ===== src/Execution/Withheld.antt =====
-- services/execution/execution_engine.py: a live exit whose protective stop may still be at the broker.
use apex_trader.Base.{
  ◌≡◌, refl, ap, sym, subst, ◌∙◌, ◌⊎◌, inl, inr, String, Bool, true, false, not, Option, none, some,
  List, any, if◌then◌else◌, str_eq, arith,
}
use apex_trader.Base.Floats.{FloatOps}
use apex_trader.Base.CaseMap.{CaseMap}
use apex_trader.Config.{Settings}
use apex_trader.Cache.{Redis}
use apex_trader.Portfolio.Models.{PositionView}
use apex_trader.Trades.Repository.{TradeRecord}
use apex_trader.Execution.Orders.{OrderRequest, OrderResult, Message}
use apex_trader.Execution.World.{Result, ok, raised, World, Broker, Outside, OrderReport}
use apex_trader.Execution.Run.{Run, ◌>>=◌, pure, modify, ask, call, go_on}
use apex_trader.Execution.Rules.{
  Keeps, Ends, Ends-bind, Keeps-bind, Keeps-pure, Keeps-raise, Keeps-gets,
}
use apex_trader.Execution.Engine.Records.{
  unknown, degrade, shut_portfolio, update_trade, persist_portfolio, store_rows,
}
use apex_trader.Execution.Engine.Submission.{is_final}
use apex_trader.Execution.Engine.Entry.{found_rows, read_open_trades, write_pending}
use apex_trader.Execution.Engine.Exit.{Step, unless_answered, cancel_stop, blocks_exit}
use apex_trader.Execution.Engine.Selling.{exit_live}
use apex_trader.Execution.Stopping.{IsStopped}
use apex_trader.Execution.Exits.{unknown_stops}

module _ {F B W : Type 0} (st : B) where
  abbrev IsAt : World F B W → Type 0
  IsAt w = w.broker ≡ st

  IsAt-modify :
      (f : World F B W → World F B W)
      → ((w : World F B W) → (f w).broker ≡ w.broker)
      → Keeps IsAt (modify f)
  unfolding modify
  IsAt-modify f h = record { at = λ w p. h w ∙ p }

  IsAt-ask : {A : Type 0} (f : W → A × W) → Keeps {F = F} {B = B} IsAt (ask f)
  unfolding ask
  IsAt-ask f = record { at = λ w p. p }

  IsAt-store :
      (rows : Option (List (TradeRecord F))) → Keeps {F = F} {B = B} {W = W} IsAt (store_rows rows)
  unfolding store_rows
  IsAt-store none = Keeps-raise _
  IsAt-store (some rows) = IsAt-modify _ λ w. refl

  module _ ⦃x : Outside W⦄ ⦃r : Redis W⦄ where
    IsAt-unknown :
        (cfg : Settings F) (req : OrderRequest F) (reason : Message F)
        → Keeps {F = F} {B = B} {W = W} IsAt (unknown cfg req reason)
    unfolding unknown degrade shut_portfolio persist_portfolio update_trade
    IsAt-unknown cfg req reason = Keeps-bind (IsAt-modify _ λ w. refl) λ _.
        Keeps-bind (IsAt-modify _ λ w. refl) λ _.
          Keeps-bind (Keeps-bind (IsAt-ask _) λ saved. IsAt-modify _ λ w. refl)
            λ _. Keeps-bind (IsAt-ask _) λ session. Keeps-bind (Keeps-gets _) λ rows. IsAt-store _

  module _ ⦃o : FloatOps F⦄ ⦃x : Outside W⦄ where
    IsAt-found :
        {A : Type 0} (found : Option A) → Keeps {F = F} {B = B} {W = W} IsAt (found_rows found)
    unfolding found_rows
    IsAt-found none = Keeps-raise _
    IsAt-found (some a) = Keeps-pure _

    IsAt-read : Keeps {F = F} {B = B} {W = W} IsAt read_open_trades
    unfolding read_open_trades
    IsAt-read = Keeps-bind (IsAt-ask _) λ session. Keeps-bind (Keeps-gets _) λ rows. IsAt-found _

    IsAt-write : (row : TradeRecord F) → Keeps {F = F} {B = B} {W = W} IsAt (write_pending row)
    unfolding write_pending
    IsAt-write row =
        Keeps-bind (IsAt-ask _) λ session. Keeps-bind (Keeps-gets _) λ rows. IsAt-store _

-- The broker after the cancellation of a stop and the question about it.
abbrev pub after_question : {B : Type 0} (F : Type 0) ⦃b : Broker F B⦄ → String → B → B
after_question F ⦃b⦄ id st = (b.fetch_order_status id (b.cancel_order id st).1).1

-- The broker confirms the cancellation and reports that the order is not final.
abbrev pub MayStillFill : {B : Type 0} (F : Type 0) ⦃b : Broker F B⦄ → String → B → Type 0
MayStillFill F ⦃b⦄ id st =
    (cancelled : Bool) × ((report : OrderReport F) × (((b.cancel_order id st).0 ≡ ok cancelled)
        × ((b.fetch_order_status id (b.cancel_order id st).1).0 ≡ ok report)
        × (is_final report.stop.status ≡ false)))

-- No order was sent: the broker is as before, or was only asked to cancel the stop and about the stop, and
-- the portfolio is halted.
abbrev pub IsWithheld : {F B W : Type 0} ⦃b : Broker F B⦄ → String → B → World F B W → Type 0
IsWithheld {F} id st w = (w.broker ≡ st) ⊎ ((w.broker ≡ after_question F id st) × IsStopped w)

module _ {F B W : Type 0} ⦃o : FloatOps F⦄ ⦃u : CaseMap⦄ ⦃b : Broker F B⦄ ⦃x : Outside W⦄
    ⦃r : Redis W⦄ where
  call_ok :
      {A C : Type 0} (f : B → Result A × B) (k : A → Run F B W C) (w : World F B W) (a : A)
      → (f w.broker).0 ≡ ok a
      → (call f >>= k) w ≡ k a (record w { broker = (f w.broker).1 })
  unfolding call ◌>>=◌
  call_ok f k w a h = ap (λ y. go_on k (y, record w { broker = (f w.broker).1 })) h

  if_false :
      {A : Type 0} (t : Bool) (m k : Run F B W A) (w : World F B W)
      → t ≡ false
      → (if t then m else k) w ≡ k w
  if_false true m k w h = ground (arith, h)
  if_false false m k w h = refl

  if_not :
      {A : Type 0} (t : Bool) (m k : Run F B W A) (w : World F B W)
      → t ≡ false
      → (if not t then m else k) w ≡ m w
  if_not true m k w h = ground (arith, h)
  if_not false m k w h = refl

  -- What is true of the world after a refusal was decided is true after the rest, which does nothing.
  answered_at :
      (Q : World F B W → Type 0) (res : OrderResult F) (k : Unit {0} → Run F B W (OrderResult F))
      (y : Result (Unit {0}) × World F B W)
      → Q y.1
      → Q (go_on (λ step. unless_answered step k) (go_on (λ _. pure (Step.answered res)) y)).1
  unfolding unless_answered pure
  answered_at Q res k (ok a, w) h = h
  answered_at Q res k (raised e, w) h = h

  cancel_stop-unconfirmed :
      (cfg : Settings F) (req : OrderRequest F) (pos : PositionView F) (w : World F B W)
      → str_eq pos.stop_order_id "" ≡ false
      → MayStillFill F pos.stop_order_id w.broker
      → (reason : Message F) × ((res : OrderResult F) × (cancel_stop cfg req pos w
            ≡ (unknown cfg req reason >>= λ _. pure (Step.answered res))
                (record w { broker = after_question F pos.stop_order_id w.broker })))
  unfolding cancel_stop
  cancel_stop-unconfirmed cfg req pos w named (cancelled, (report, (c, f, open_))) = (
    _,
    (
      _,
      if_false (str_eq pos.stop_order_id "") _ _ w named
          ∙ call_ok (b.cancel_order pos.stop_order_id) _ w cancelled c
          ∙ call_ok (b.fetch_order_status pos.stop_order_id) _
              (record w { broker = (b.cancel_order pos.stop_order_id w.broker).1 }) report f
          ∙ if_not (is_final report.stop.status) _ _ _ open_,
    ),
  )

  stop_then-IsWithheld :
      (cfg : Settings F) (req : OrderRequest F) (pos : PositionView F)
      (k : Unit {0} → Run F B W (OrderResult F)) (w : World F B W)
      → str_eq pos.stop_order_id "" ≡ false
      → MayStillFill F pos.stop_order_id w.broker
      → IsWithheld pos.stop_order_id w.broker
          ((cancel_stop cfg req pos >>= λ step. unless_answered step k) w).1
  unfolding ◌>>=◌
  stop_then-IsWithheld cfg req pos k w named open_ =
      let (reason, (res, e)) = cancel_stop-unconfirmed cfg req pos w named open_ in
      subst
        (λ y. IsWithheld pos.stop_order_id w.broker (go_on (λ step. unless_answered step k) y).1)
        (sym e)
        (answered_at (IsWithheld pos.stop_order_id w.broker) res k
          (unknown cfg req reason
            (record w { broker = after_question F pos.stop_order_id w.broker }))
          (inr (
            (IsAt-unknown (after_question F pos.stop_order_id w.broker) cfg req reason).at _ refl,
            unknown_stops cfg req reason _,
          )))

  Ends-stop :
      (cfg : Settings F) (req : OrderRequest F) (pos : PositionView F) (st : B)
      (k : Unit {0} → Run F B W (OrderResult F))
      → str_eq pos.stop_order_id "" ≡ false
      → MayStillFill F pos.stop_order_id st
      → Ends
          (IsAt st)
          (cancel_stop cfg req pos >>= λ step. unless_answered step k)
          (IsWithheld pos.stop_order_id st)
  Ends-stop cfg req pos st k named open_ = record {
    at = λ w p.
        subst
          (λ s.
            IsWithheld pos.stop_order_id s
              ((cancel_stop cfg req pos >>= λ step. unless_answered step k) w).1)
          p
          (stop_then-IsWithheld cfg req pos k w named
            (subst (MayStillFill F pos.stop_order_id) (sym p) open_));
  }

  Ends-if :
      {P Q : World F B W → Type 0} (t : Bool) {m k : Run F B W (OrderResult F)}
      → Ends P m Q
      → Ends P k Q
      → Ends P (if t then m else k) Q
  Ends-if true h i = h
  Ends-if false h i = i

  Ends-inl :
      {id : String} (st : B) {m : Run F B W (OrderResult F)}
      → Keeps (IsAt st) m
      → Ends (IsAt st) m (IsWithheld id st)
  Ends-inl st h = record { at = λ w p. inl (h.at w p) }

  -- Where the broker confirms the cancellation of a position's stop but reports that the stop is not final, a live
  -- exit sends no order: the broker was called at most for that cancellation and that report, and if it
  -- was, the portfolio is halted.
  pub exit_live-IsWithheld :
      (cfg : Settings F) (req : OrderRequest F) (pos : PositionView F) (price : F) (w : World F B W)
      → str_eq pos.stop_order_id "" ≡ false
      → MayStillFill F pos.stop_order_id w.broker
      → IsWithheld pos.stop_order_id w.broker (exit_live cfg req pos price w).1
  unfolding exit_live
  exit_live-IsWithheld cfg req pos price w named open_ =
      (Ends-bind (IsAt-read w.broker) (λ w' p. inl p)
          λ rows. Ends-if (any (blocks_exit req.symbol) rows) (Ends-inl w.broker (Keeps-pure _)) (
            Ends-bind (IsAt-write w.broker _) (λ w' p. inl p)
              λ written. Ends-stop cfg req pos w.broker _ named open_)).at
        w refl

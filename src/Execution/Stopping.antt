-- ===== src/Execution/Stopping.antt =====
-- services/execution/execution_engine.py: the halt of the portfolio over the steps of an entry.
use apex_trader.Base.{◌≡◌, refl, ap, ◌∙◌, String, Bool, true, Option, none, some, List}
use apex_trader.Base.Floats.{FloatOps}
use apex_trader.Base.CaseMap.{CaseMap}
use apex_trader.Config.{Settings}
use apex_trader.Cache.{Redis}
use apex_trader.Trades.Repository.{TradeRecord, Update}
use apex_trader.Portfolio.Manager.{Manager, persist, emergency_shutdown}
use apex_trader.Execution.Orders.{OrderRequest, OrderResult, Message}
use apex_trader.Execution.World.{Result, ok, raised, World, Broker, Outside, OrderReport}
use apex_trader.Execution.Run.{Run, ◌>>=◌, modify, ask, call, outcome}
use apex_trader.Execution.Rules.{
  Any, Holds, Keeps, Holds-bind, Keeps-bind, Keeps-outcome, Holds-keeps, Keeps-pure, Keeps-raise,
  Keeps-gets, Keeps-if,
}
use apex_trader.Execution.Engine.Records.{
  store_rows, update_trade, persist_portfolio, note_failure, note_success, degrade, shut_portfolio,
  unknown, bury, record_result,
}
use apex_trader.Execution.Engine.Submission.{Attached, done, raised_at}
use apex_trader.Execution.Engine.Stops.{
  conclude, verify_stop, attach_for, attach_stop_loss, placed_stop, give_up, protect_or_give_up,
  protect_fill, looked_up, attach_units,
}

persist-state : {F : Type 0} (saved : Bool) (m : Manager F) → (persist saved m).0.state ≡ m.state
unfolding persist
persist-state saved m = refl

module _ {F B W : Type 0} where
  abbrev pub IsStopped : World F B W → Type 0
  IsStopped w = w.portfolio.state.emergency_halt ≡ true

  pub IsStopped-modify :
      (f : World F B W → World F B W)
      → ((w : World F B W) → IsStopped w → IsStopped (f w))
      → Keeps IsStopped (modify f)
  unfolding modify
  IsStopped-modify f h = record { at = h }

  pub IsStopped-ask : {A : Type 0} (f : W → A × W) → Keeps IsStopped (ask {F = F} {B = B} f)
  unfolding ask
  IsStopped-ask f = record { at = λ w p. p }

  pub IsStopped-call :
      {A : Type 0} (f : B → Result A × B) → Keeps IsStopped (call {F = F} {W = W} f)
  unfolding call
  IsStopped-call f = record { at = λ w p. p }

  IsStopped-rows :
      (rows : Option (List (TradeRecord F))) → Keeps IsStopped (store_rows {B = B} {W = W} rows)
  unfolding store_rows
  IsStopped-rows none = Keeps-raise _
  IsStopped-rows (some rows) = IsStopped-modify _ λ w p. p

  any_kept : {A : Type 0} (m : Run F B W A) → Keeps Any m
  any_kept m = record { at = λ w p. tt }

  pub IsStopped-shut :
      Holds Any (modify (shut_portfolio {F = F} {B = B} {W = W})) (λ _ w. IsStopped w)
  unfolding modify shut_portfolio emergency_shutdown
  IsStopped-shut = record { at = λ w p. refl }

  module _ ⦃x : Outside W⦄ where
    pub IsStopped-update :
        (cfg : Settings F) (id : String) (u : Update F)
        → Keeps IsStopped (update_trade {B = B} cfg id u)
    unfolding update_trade
    IsStopped-update cfg id u =
        Keeps-bind (IsStopped-ask _) λ session. Keeps-bind (Keeps-gets _) λ rows. IsStopped-rows _

    pub IsStopped-persist : Keeps IsStopped (persist_portfolio {F = F} {B = B})
    unfolding persist_portfolio
    IsStopped-persist = Keeps-bind (IsStopped-ask _) λ saved.
        IsStopped-modify _ λ w p. ap (λ s. s.emergency_halt) (persist-state saved w.portfolio) ∙ p

    IsStopped-failure : Keeps IsStopped (note_failure {F = F} {B = B})
    unfolding note_failure
    IsStopped-failure = Keeps-bind (IsStopped-ask _) λ now. IsStopped-modify _ λ w p. p

    IsStopped-success : Keeps IsStopped (note_success {F = F} {B = B})
    unfolding note_success
    IsStopped-success = IsStopped-modify _ λ w p. p

    module _ ⦃r : Redis W⦄ where
      -- An unknown outcome stops the portfolio.
      pub unknown-IsStopped :
          (cfg : Settings F) (req : OrderRequest F) (reason : Message F)
          → Holds Any (unknown {B = B} cfg req reason) (λ _ w. IsStopped w)
      unfolding unknown
      unknown-IsStopped cfg req reason =
          Holds-bind {G = λ _ w. Any w} (Holds-keeps (any_kept _)) λ _.
            Holds-bind IsStopped-shut
              λ _. Holds-keeps (Keeps-bind IsStopped-persist λ _. IsStopped-update cfg _ _)

      pub IsStopped-unknown :
          (cfg : Settings F) (req : OrderRequest F) (reason : Message F)
          → Keeps IsStopped (unknown {B = B} cfg req reason)
      unfolding unknown degrade shut_portfolio emergency_shutdown
      IsStopped-unknown cfg req reason = Keeps-bind (IsStopped-modify _ λ w p. p) λ _.
          Keeps-bind (IsStopped-modify _ λ w p. refl)
            λ _. Keeps-bind IsStopped-persist λ _. IsStopped-update cfg _ _

    module _ ⦃o : FloatOps F⦄ where
      pub IsStopped-record :
          (cfg : Settings F) (req : OrderRequest F) (res : OrderResult F)
          → Keeps IsStopped (record_result {B = B} cfg req res)
      unfolding record_result bury
      IsStopped-record cfg req res =
          Keeps-bind
            (Keeps-if _ (Keeps-bind (IsStopped-ask _) λ session. IsStopped-modify _ λ w p. p)
              (Keeps-pure _))
            λ _. IsStopped-update cfg _ _

module _ {F B W : Type 0} ⦃o : FloatOps F⦄ ⦃u : CaseMap⦄ ⦃b : Broker F B⦄ ⦃x : Outside W⦄
    ⦃r : Redis W⦄ where
  IsStopped-outcome :
      {A C : Type 0} {m : Run F B W A} (f : Result A → Run F B W C)
      → Keeps IsStopped m
      → ((a : Result A) → Keeps IsStopped (f a))
      → Keeps IsStopped (outcome m >>= f)
  IsStopped-outcome f h k = Keeps-bind (Keeps-outcome h) k

  IsStopped-conclude :
      (cfg : Settings F) (req : OrderRequest F) (entry sl : OrderResult F)
      → Keeps IsStopped (conclude {B = B} {W = W} cfg req entry sl)
  unfolding conclude
  IsStopped-conclude cfg req entry sl =
      Keeps-if _ (Keeps-bind (Keeps-outcome (IsStopped-unknown cfg req _)) λ told. Keeps-pure _)
        (Keeps-pure _)

  IsStopped-looked :
      (cfg : Settings F) (req : OrderRequest F) (qty : F) (entry sl : OrderResult F)
      (answer : Result (OrderReport F))
      → Keeps {F = F} {B = B} {W = W} IsStopped (looked_up cfg req qty entry sl answer)
  IsStopped-looked cfg req qty entry sl (ok report) = IsStopped-conclude cfg req entry _
  IsStopped-looked cfg req qty entry sl (raised e) = Keeps-pure _

  IsStopped-verify :
      (cfg : Settings F) (req : OrderRequest F) (qty : F) (entry sl : OrderResult F)
      → Keeps IsStopped (verify_stop {B = B} {W = W} cfg req qty entry sl)
  unfolding verify_stop
  IsStopped-verify cfg req qty entry sl =
      Keeps-if _
        (Keeps-bind (Keeps-outcome (IsStopped-call _)) (IsStopped-looked cfg req qty entry sl))
        (IsStopped-conclude cfg req entry sl)

  IsStopped-placed :
      (req : OrderRequest F) (answer : Result (OrderResult F))
      → Keeps IsStopped (placed_stop {B = B} {W = W} req answer)
  unfolding placed_stop
  IsStopped-placed req (ok sl) = Keeps-bind IsStopped-success λ _. Keeps-pure _
  IsStopped-placed req (raised e) = Keeps-bind IsStopped-failure λ _. Keeps-pure _

  IsStopped-attach_for :
      (cfg : Settings F) (req : OrderRequest F) (entry : OrderResult F) (price qty : F)
      → Keeps IsStopped (attach_for {B = B} {W = W} cfg req entry price qty)
  unfolding attach_for
  IsStopped-attach_for cfg req entry price qty =
      Keeps-bind (Keeps-outcome (IsStopped-call _))
        λ answer. Keeps-bind (IsStopped-placed req answer) λ sl. IsStopped-verify cfg req qty _ sl

  IsStopped-sized :
      (cfg : Settings F) (req : OrderRequest F) (entry : OrderResult F) (price : F)
      (units : Option F)
      → Keeps {F = F} {B = B} {W = W} IsStopped (attach_units cfg req entry price units)
  IsStopped-sized cfg req entry price none = Keeps-pure _
  IsStopped-sized cfg req entry price (some qty) = IsStopped-attach_for cfg req entry price qty

  IsStopped-attach :
      (cfg : Settings F) (req : OrderRequest F) (entry : OrderResult F) (price : F)
      → Keeps IsStopped (attach_stop_loss {B = B} {W = W} cfg req entry price)
  unfolding attach_stop_loss
  IsStopped-attach cfg req entry price = IsStopped-sized cfg req entry price _

  pub give_up-IsStopped :
      (cfg : Settings F) (req : OrderRequest F) (entry : OrderResult F) (e : String)
      → Holds Any (give_up {B = B} {W = W} cfg req entry e) (λ _ w. IsStopped w)
  unfolding give_up
  give_up-IsStopped cfg req entry e =
      Holds-bind (unknown-IsStopped cfg req _) λ _. Holds-keeps (Keeps-pure _)

  IsStopped-give_up :
      (cfg : Settings F) (req : OrderRequest F) (entry : OrderResult F) (e : String)
      → Keeps IsStopped (give_up {B = B} {W = W} cfg req entry e)
  unfolding give_up
  IsStopped-give_up cfg req entry e = Keeps-bind (IsStopped-unknown cfg req _) λ _. Keeps-pure _

  IsStopped-protect_or :
      (cfg : Settings F) (req : OrderRequest F) (attached : Attached F)
      → Keeps IsStopped (protect_or_give_up {B = B} {W = W} cfg req attached)
  unfolding protect_or_give_up
  IsStopped-protect_or cfg req (done entry) = Keeps-pure _
  IsStopped-protect_or cfg req (raised_at entry e) = IsStopped-give_up cfg req entry e

  pub IsStopped-protect :
      (cfg : Settings F) (req : OrderRequest F) (entry : OrderResult F) (price : F)
      → Keeps IsStopped (protect_fill {B = B} {W = W} cfg req entry price)
  unfolding protect_fill
  IsStopped-protect cfg req entry price =
      Keeps-if _ (Keeps-bind (IsStopped-attach cfg req entry price) (IsStopped-protect_or cfg req))
        (Keeps-pure _)

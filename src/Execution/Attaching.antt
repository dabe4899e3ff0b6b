-- ===== src/Execution/Attaching.antt =====
-- services/execution/execution_engine.py: what `_attach_stop_loss` comes to in live mode.
use apex_trader.Base.{
  ◌≡◌, refl, ap, ◌∙◌, ◌⊎◌, inl, inr, String, Bool, true, false, not, ◌&&◌, ◌||◌, Option, none, some,
  str_eq, arith,
}
use apex_trader.Base.Floats.{FloatOps, whole}
use apex_trader.Base.CaseMap.{CaseMap}
use apex_trader.Config.{Settings, is_live}
use apex_trader.Cache.{Redis}
use apex_trader.Execution.Orders.{OrderRequest, OrderResult, is_refused}
use apex_trader.Execution.Protection.{StopProblem, IsProtecting, stop_problem-fine_iff}
use apex_trader.Execution.World.{Result, ok, raised, World, Broker, Outside, OrderReport}
use apex_trader.Execution.Rules.{
  Any, Holds-then, Holds-asked, Holds, Holds-outcome, Holds-pure, Holds-if,
}
use apex_trader.Execution.Engine.Submission.{
  Attached, done, raised_at, with_stop_id, checked_stop, exposure_of, or_default, is_fine,
  protected_entry,
}
use apex_trader.Execution.Engine.Stops.{
  conclude, looked_up, verify_stop, attach_for, attach_units, attach_stop_loss,
}
use apex_trader.Execution.Stopping.{IsStopped, unknown-IsStopped}

pub fine_when : (p : StopProblem) → is_fine p ≡ true → p ≡ StopProblem.fine
fine_when StopProblem.fine h = refl
fine_when StopProblem.not_working h = ground (arith, h)
fine_when StopProblem.invalid_quantities h = ground (arith, h)
fine_when StopProblem.quantity_differs h = ground (arith, h)
fine_when StopProblem.invalid_trigger h = ground (arith, h)
fine_when StopProblem.details_unavailable h = ground (arith, h)
fine_when StopProblem.not_a_stop h = ground (arith, h)
fine_when (StopProblem.mismatch s) h = ground (arith, h)

module _ {F : Type 0} ⦃o : FloatOps F⦄ where
  -- What the problem of a stop makes of it: a stop that is not refused has none.
  sound_stop :
      (sl : OrderResult F) (problem : StopProblem)
      → (is_refused (checked_stop sl problem).status
          || str_eq (checked_stop sl problem).broker_order_id "")
        ≡ false
      → problem ≡ StopProblem.fine
  sound_stop sl problem h = fine_when problem (ground (arith, h))

  checked_stop-id :
      (sl : OrderResult F) (problem : StopProblem)
      → (checked_stop sl problem).broker_order_id ≡ sl.broker_order_id
  checked_stop-id sl problem = ground arith

  with_stop_id-filled :
      (entry sl : OrderResult F) → (with_stop_id entry sl).filled_qty ≡ entry.filled_qty
  with_stop_id-filled entry sl = ground arith

  no_id :
      (live : Bool) (sl : OrderResult F)
      → live ≡ true
      → (live && not (str_eq sl.broker_order_id "")) ≡ false
      → (is_refused sl.status || str_eq sl.broker_order_id "") ≡ false
      → ⊥
  no_id live sl l h c = ground (arith, l, h, c)

  module _ ⦃u : CaseMap⦄ where
    -- The broker, in some state, gives a report of the order that the result names as its stop, and by the report that
    -- order protects the quantity of the result.
    abbrev pub IsProtected :
        (B : Type 0) ⦃b : Broker F B⦄ → Settings F → OrderRequest F → OrderResult F → Type 0
    IsProtected B ⦃b⦄ cfg req res =
        (id : String) × ((qty : F) × ((report : OrderReport F) × ((st : B) × (res.stop_order_id
                ≡ some id)
              × (whole (or_default res.filled_qty req.qty) ≡ some qty)
              × ((b.fetch_order_status id st).0 ≡ ok report)
              × IsProtecting report.stop (exposure_of cfg req qty))))

module _ {F B W : Type 0} ⦃o : FloatOps F⦄ ⦃u : CaseMap⦄ ⦃b : Broker F B⦄ ⦃x : Outside W⦄
    ⦃r : Redis W⦄ where
  -- After the attachment.
  abbrev pub Kept : Settings F → OrderRequest F → Attached F → World F B W → Type 0
  Kept cfg req (done entry) w = IsStopped w ⊎ IsProtected B cfg req entry
  Kept cfg req (raised_at entry e) w = Unit {0}

  conclude-Kept :
      (cfg : Settings F) (req : OrderRequest F) (entry sl : OrderResult F)
      → ((is_refused sl.status || str_eq sl.broker_order_id "") ≡ false
          → IsProtected B cfg req (protected_entry entry sl))
      → Holds Any (conclude {W = W} cfg req entry sl) (Kept cfg req)
  unfolding conclude
  conclude-Kept cfg req entry sl h =
      Holds-if _
        (λ c.
          Holds-outcome _ (unknown-IsStopped cfg req _) (λ a. Holds-pure _ λ w p. inl p)
            (λ e. Holds-pure _ λ w p. tt))
        (λ c. Holds-pure _ λ w p. inr (h c))

  looked_up-Kept :
      (cfg : Settings F) (req : OrderRequest F) (qty : F) (entry sl : OrderResult F)
      → whole (or_default entry.filled_qty req.qty) ≡ some qty
      → (answer : Result (OrderReport F)) (st : B)
      → (b.fetch_order_status sl.broker_order_id st).0 ≡ answer
      → Holds Any (looked_up {W = W} cfg req qty entry sl answer) (Kept cfg req)
  looked_up-Kept cfg req qty entry sl h (raised e) st a = Holds-pure _ λ w p. tt
  looked_up-Kept cfg req qty entry sl h (ok report) st a = conclude-Kept cfg req entry _ λ c. (
    sl.broker_order_id,
    (
      qty,
      (
        report,
        (
          st,
          ap some (checked_stop-id sl _),
          h,
          a,
          (stop_problem-fine_iff report.stop (exposure_of cfg req qty)).0 (sound_stop sl _ c),
        ),
      ),
    ),
  )

  verify_stop-Kept :
      (cfg : Settings F) (req : OrderRequest F) (qty : F) (entry sl : OrderResult F)
      → is_live cfg.trading_mode ≡ true
      → whole (or_default entry.filled_qty req.qty) ≡ some qty
      → Holds Any (verify_stop {W = W} cfg req qty entry sl) (Kept cfg req)
  unfolding verify_stop
  verify_stop-Kept cfg req qty entry sl live h =
      Holds-if _
        (λ c.
          Holds-asked (b.fetch_order_status sl.broker_order_id)
            λ answer st a. looked_up-Kept cfg req qty entry sl h answer st a)
        (λ c.
          conclude-Kept cfg req entry sl λ d. absurd (no_id (is_live cfg.trading_mode) sl live c d))

  attach_for-Kept :
      (cfg : Settings F) (req : OrderRequest F) (entry : OrderResult F) (price qty : F)
      → is_live cfg.trading_mode ≡ true
      → whole (or_default entry.filled_qty req.qty) ≡ some qty
      → Holds Any (attach_for {W = W} cfg req entry price qty) (Kept cfg req)
  unfolding attach_for
  attach_for-Kept cfg req entry price qty live h = Holds-then _ λ answer. Holds-then _ λ sl.
      verify_stop-Kept cfg req qty (with_stop_id entry sl) sl live
        (ap (λ q. whole (or_default q req.qty)) (with_stop_id-filled entry sl) ∙ h)

  attach_units-Kept :
      (cfg : Settings F) (req : OrderRequest F) (entry : OrderResult F) (price : F)
      (units : Option F)
      → is_live cfg.trading_mode ≡ true
      → whole (or_default entry.filled_qty req.qty) ≡ units
      → Holds Any (attach_units {W = W} cfg req entry price units) (Kept cfg req)
  attach_units-Kept cfg req entry price none live h = Holds-pure _ λ w p. tt
  attach_units-Kept cfg req entry price (some qty) live h =
      attach_for-Kept cfg req entry price qty live h

  pub attach-Kept :
      (cfg : Settings F) (req : OrderRequest F) (entry : OrderResult F) (price : F)
      → is_live cfg.trading_mode ≡ true
      → Holds Any (attach_stop_loss {W = W} cfg req entry price) (Kept cfg req)
  unfolding attach_stop_loss
  attach-Kept cfg req entry price live = attach_units-Kept cfg req entry price _ live refl

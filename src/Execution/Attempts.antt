-- ===== src/Execution/Attempts.antt =====
-- services/execution/execution_engine.py: `_place_with_retry`, by what the broker is asked and answers.
use apex_trader.Base.{
  ◌≡◌, refl, ap, sym, subst, ◌∙◌, ℕ, zero, suc, Bool, true, false, if◌then◌else◌, arith,
}
use apex_trader.Base.Floats.{FloatOps}
use apex_trader.Base.CaseMap.{CaseMap}
use apex_trader.Config.{Settings, is_live}
use apex_trader.Cache.{Redis}
use apex_trader.Execution.Orders.{OrderRequest, OrderResult, is_failed}
use apex_trader.Execution.World.{Result, ok, raised, World, Broker, Outside}
use apex_trader.Execution.Run.{Run, ◌>>=◌, pure, modify, ask, call, outcome, gets}
use apex_trader.Execution.Engine.Records.{note_failure, note_success}
use apex_trader.Execution.Engine.Submission.{after_attempt, retry, failed_result, place_with_retry}

module _ {F : Type 0} ⦃o : FloatOps F⦄ where
  -- The result of an attempt that failed.
  abbrev pub failure : OrderRequest F → Result (OrderResult F) → OrderResult F
  failure req (ok res) = res
  failure req (raised e) = failed_result req e

  abbrev pub has_failed : Result (OrderResult F) → Bool
  has_failed (ok res) = is_failed res.status
  has_failed (raised e) = true

module _ {F B : Type 0} ⦃o : FloatOps F⦄ ⦃b : Broker F B⦄ where
  -- At most `n` orders are sent one after another from a broker's state, until one does not fail: the result
  -- and the broker's state at the end. With none left, the result is the last one.
  pub data Attempts (req : OrderRequest F) (price : F)
      : ℕ → B → OrderResult F → OrderResult F → B → Type 0 where
    none_left : {st : B} {last : OrderResult F} → Attempts req price zero st last last st
    accepted :
        {n : ℕ} {st : B} {last res : OrderResult F}
        → (b.place_order req price st).0 ≡ ok res
        → is_failed res.status ≡ false
        → Attempts req price (suc n) st last res (b.place_order req price st).1
    failed :
        {n : ℕ} {st st' : B} {last res : OrderResult F}
        → has_failed (b.place_order req price st).0 ≡ true
        → Attempts req price n
            (b.place_order req price st).1
            (failure req (b.place_order req price st).0)
            res
            st'
        → Attempts req price (suc n) st last res st'

  module _ {W : Type 0} ⦃x : Outside W⦄ where
    -- A run that returned, with what it did at the broker.
    abbrev Tried :
        OrderRequest F → F → ℕ → B → OrderResult F → Result (OrderResult F) × World F B W → Type 0
    Tried req price n st last y =
        (res : OrderResult F) × ((y.0 ≡ ok res) × Attempts req price n st last res y.1.broker)

    -- The world after an attempt that failed.
    abbrev noted : OrderRequest F → F → B → World F B W → World F B W
    unfolding note_failure ◌>>=◌ modify ask
    noted req price st w = (note_failure (record w { broker = (b.place_order req price st).1 })).1

    after_failure :
        (req : OrderRequest F) (price : F) (n : ℕ) (st : B) (last : OrderResult F)
        (answer : Result (OrderResult F)) (y : Result (OrderResult F) × World F B W)
        → (b.place_order req price st).0 ≡ answer
        → has_failed answer ≡ true
        → Tried req price n (b.place_order req price st).1 (failure req answer) y
        → Tried req price (suc n) st last y
    after_failure req price n st last answer y e f (res, (g, t)) = (
      res,
      (
        g,
        Attempts.failed (ap has_failed e ∙ f) (
            subst
              (λ a.
                Attempts req price n (b.place_order req price st).1 (failure req a) res y.1.broker)
              (sym e) t),
      ),
    )

    if_not_live :
        {req : OrderRequest F} {price : F} {n : ℕ} {st : B} {last : OrderResult F} (t : Bool)
        (m k : Run F B W (OrderResult F)) (w : World F B W)
        → t ≡ false
        → Tried req price n st last (k w)
        → Tried req price n st last ((if t then m else k) w)
    if_not_live true m k w h p = ground (arith, h)
    if_not_live false m k w h p = p

    if_failed :
        (req : OrderRequest F) (price : F) (n : ℕ) (st : B) (last res : OrderResult F) (t : Bool)
        (m k : Run F B W (OrderResult F)) (w : World F B W)
        → (t ≡ true → Tried req price (suc n) st last (m w))
        → (t ≡ false → Tried req price (suc n) st last (k w))
        → Tried req price (suc n) st last ((if t then m else k) w)
    if_failed req price n st last res true m k w f g = f refl
    if_failed req price n st last res false m k w f g = g refl

    -- What an attempt makes of the attempts after it.
    after_attempt-Tried :
        (req : OrderRequest F) (price : F) (n : ℕ) (st : B) (last : OrderResult F)
        (again : OrderResult F → Run F B W (OrderResult F))
        → ((res : OrderResult F) (w : World F B W) → Tried req price n w.broker res (again res w))
        → (answer : Result (OrderResult F)) → (w : World F B W)
        → (b.place_order req price st).0 ≡ answer
        → Tried req price
            (suc n)
            st
            last
            (after_attempt req again answer (record w { broker = (b.place_order req price st).1 }))
    unfolding after_attempt note_failure note_success ◌>>=◌ pure modify ask gets
    after_attempt-Tried req price n st last again h (raised e') w e =
        after_failure req price n st last (raised e')
          (again (failed_result req e') (noted req price st w)) e refl
          (h (failed_result req e') (noted req price st w))
    after_attempt-Tried req price n st last again h (ok res) w e =
        if_failed req price n st last res (is_failed res.status) _ _ _
          (λ c.
            after_failure req price n st last (ok res) (again res (noted req price st w)) e c
              (h res (noted req price st w)))
          (λ c. (res, (refl, Attempts.accepted e c)))

    retry-Tried :
        (req : OrderRequest F) (price : F) (n : ℕ) (last : OrderResult F) (w : World F B W)
        → Tried req price n w.broker last (retry n req price last w)
    unfolding retry ◌>>=◌ outcome call pure
    retry-Tried req price zero last w = (last, (refl, Attempts.none_left))
    retry-Tried req price (suc n) last w =
        after_attempt-Tried req price n w.broker last (retry n req price) (retry-Tried req price n)
          (b.place_order req price w.broker).0 w refl

    -- Outside of live mode a submission always returns, if its task is not cancelled: it sends an order until one does not fail, at most
    -- three times, and its result is that of the order that did not fail, or else of the last one.
    pub place_with_retry-Attempts :
        ⦃u : CaseMap⦄ ⦃r : Redis W⦄ (cfg : Settings F) (req : OrderRequest F) (price : F)
        (w : World F B W)
        → is_live cfg.trading_mode ≡ false
        → (res : OrderResult F) × (((place_with_retry cfg req price w).0 ≡ ok res)
            × Attempts req price 3 w.broker
                (failed_result req "Max retries exceeded")
                res
                (place_with_retry cfg req price w).1.broker)
    unfolding place_with_retry
    place_with_retry-Attempts cfg req price w h =
        if_not_live (is_live cfg.trading_mode) _ _ _ h
          (retry-Tried req price 3 (failed_result req "Max retries exceeded") w)

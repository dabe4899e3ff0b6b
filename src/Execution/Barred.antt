-- ===== src/Execution/Barred.antt =====
-- services/execution/execution_engine.py: what the first tests of an entry refuse.
use apex_trader.Base.{
  ◌≡◌, refl, ap, ◌⊎◌, inl, inr, Bool, true, false, not, ◌||◌, Option, some, if◌then◌else◌, arith,
}
use apex_trader.Base.Floats.{FloatOps}
use apex_trader.Base.CaseMap.{CaseMap}
use apex_trader.Config.{Settings}
use apex_trader.Cache.{Redis}
use apex_trader.Control.Halt.{is_emergency_halt, is_reconciliation_degraded}
use apex_trader.Portfolio.Manager.{is_trading_halted}
use apex_trader.Execution.IdempotencyStore.{ClaimServer}
use apex_trader.Execution.Orders.{OrderRequest, OrderResult, Message}
use apex_trader.Execution.World.{Result, ok, World, Broker, Outside}
use apex_trader.Execution.Run.{Run, ◌>>=◌, pure, gets, ask, go_on}
use apex_trader.Execution.Engine.Records.{flags_of}
use apex_trader.Execution.Engine.Entry.{
  is_paused, is_protectable, refusal, pre_execution_block, unless_blocked, place_order,
}

module _ {F B W : Type 0} ⦃o : FloatOps F⦄ ⦃x : Outside W⦄ ⦃r : Redis W⦄ ⦃s : ClaimServer W⦄
    ⦃b : Broker F B⦄ ⦃u : CaseMap⦄ where
  -- The world after the operator's pause was read.
  abbrev pub pause_read : World F B W → World F B W
  pause_read w = record w { outside = (x.paused_row w.outside).1 }

  -- What `_pre_execution_block` looks at first: the operator's pause, the reconciliation, the emergency
  -- halt and the portfolio's own halts.
  abbrev pub is_barred : World F B W → Bool
  is_barred w =
      is_paused (x.paused_row w.outside).0
      || is_reconciliation_degraded (flags_of (pause_read w))
      || is_emergency_halt (flags_of (pause_read w))
      || is_trading_halted w.portfolio.state

  first_of_four :
      (req : OrderRequest F) (why₁ why₂ why₃ why₄ : Message F) (t₁ t₂ t₃ t₄ : Bool)
      (m : Run F B W (Option (OrderResult F))) (w : World F B W)
      → (t₁ || t₂ || t₃ || t₄) ≡ true
      → (why : Message F) × ((if t₁
              then pure (some (refusal req why₁))
              else if t₂
              then pure (some (refusal req why₂))
              else if t₃
              then pure (some (refusal req why₃))
              else if t₄
              then pure (some (refusal req why₄))
              else m)
            w
          ≡ (ok (some (refusal req why)), w))
  unfolding pure
  first_of_four req a b c d true t₂ t₃ t₄ m w h = (a, refl)
  first_of_four req a b c d false true t₃ t₄ m w h = (b, refl)
  first_of_four req a b c d false false true t₄ m w h = (c, refl)
  first_of_four req a b c d false false false true m w h = (d, refl)
  first_of_four req a b c d false false false false m w h = ground (arith, h)

  pre_execution_block-barred :
      (cfg : Settings F) (req : OrderRequest F) (w : World F B W)
      → is_barred w ≡ true
      → (why : Message F) × (pre_execution_block cfg req w
          ≡ (ok (some (refusal req why)), pause_read w))
  unfolding pre_execution_block ◌>>=◌ ask gets
  pre_execution_block-barred cfg req w h =
      first_of_four req _ _ _ _ (is_paused (x.paused_row w.outside).0)
        (is_reconciliation_degraded (flags_of (pause_read w)))
        (is_emergency_halt (flags_of (pause_read w))) (is_trading_halted w.portfolio.state) _ _ h

  refused_after :
      (req : OrderRequest F) (m : Run F B W (Option (OrderResult F)))
      (k : Run F B W (OrderResult F)) (w w' : World F B W)
      → ((why : Message F) × (m w ≡ (ok (some (refusal req why)), w')))
      → (why : Message F) × ((m >>= λ blocked. unless_blocked blocked k) w
          ≡ (ok (refusal req why), w'))
  unfolding ◌>>=◌ unless_blocked pure
  refused_after req m k w w' (why, e) = (why, ap (go_on λ blocked. unless_blocked blocked k) e)

  -- A refusal that did no more than read the pause.
  abbrev pub IsRefusal :
      OrderRequest F → World F B W → Result (OrderResult F) × World F B W → Type 0
  IsRefusal req w y =
      ((why : Message F) × (y.0 ≡ ok (refusal req why))) × ((y.1 ≡ w) ⊎ (y.1 ≡ pause_read w))

  refused_either :
      (req : OrderRequest F) (why : Message F) (t : Bool) (m : Run F B W (OrderResult F))
      (w : World F B W)
      → ((why' : Message F) × (m w ≡ (ok (refusal req why'), pause_read w)))
      → IsRefusal req w ((if t then pure (refusal req why) else m) w)
  unfolding pure
  refused_either req why true m w h = ((why, refl), inl refl)
  refused_either req why false m w (why', e) = ((why', ap (λ y. y.0) e), inr (ap (λ y. y.1) e))

  -- While the operator has paused new entries or the pause cannot be read, while the reconciliation with the
  -- broker is degraded, and while the emergency halt or a halt of the portfolio is on, an order is refused
  -- in every trading mode, and no more was done than to read the pause.
  pub place_order-barred :
      (cfg : Settings F) (req : OrderRequest F) (market_price : F) (w : World F B W)
      → is_barred w ≡ true
      → IsRefusal req w (place_order cfg req market_price w)
  unfolding place_order
  place_order-barred cfg req market_price w h =
      refused_either req _ (not (is_protectable req market_price)) _ w (
        refused_after req (pre_execution_block cfg req) _ w (pause_read w)
          (pre_execution_block-barred cfg req w h))

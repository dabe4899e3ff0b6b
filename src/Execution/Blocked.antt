-- ===== src/Execution/Blocked.antt =====
-- services/execution/execution_engine.py: what stops an entry before it is sent.
use apex_trader.Base.{
  ◌≡◌, refl, ap, String, Bool, true, false, not, Option, none, some, List, any, str_eq, arith,
}
use apex_trader.Base.Floats.{FloatOps}
use apex_trader.Base.CaseMap.{CaseMap}
use apex_trader.Config.{Settings, is_live}
use apex_trader.Cache.{Redis}
use apex_trader.Control.Halt.{is_emergency_halt, is_reconciliation_degraded}
use apex_trader.Portfolio.Manager.{is_trading_halted}
use apex_trader.Trades.Repository.{TradeRecord, find_row, get_by_client_id}
use apex_trader.Execution.IdempotencyStore.{ClaimServer}
use apex_trader.Execution.Orders.{OrderRequest, OrderResult}
use apex_trader.Execution.World.{World, Broker, Outside}
use apex_trader.Execution.Run.{Run, ◌>>=◌, pure, modify, gets, ask, raise}
use apex_trader.Execution.Rules.{
  After, Holds-never, Holds, Keeps, Holds-bind, Holds-pure, Holds-if, Keeps-known, Keeps-bind,
  Keeps-if, Keeps-pure, Keeps-gets, Keeps-raise,
}
use apex_trader.Execution.Engine.Records.{flags_of}
use apex_trader.Execution.Engine.Entry.{
  is_paused, is_protectable, is_unresolved, blocks_again, found_rows, read_open_trades,
  read_by_client_id, claim, circuit_block, unresolved_block, pre_execution_block, duplicate_block,
  unless_blocked, place_order,
}

abbrev IsSome : {A : Type 0} → Option A → Type 0
IsSome none = ⊥
IsSome (some a) = Unit {0}

module _ {F B W : Type 0} where
  -- The broker and the rows of the trades are those given.
  abbrev pub IsUntouched : B → List (TradeRecord F) → World F B W → Type 0
  IsUntouched st rows w = (w.broker ≡ st) × (w.trades ≡ rows)

  module _ (st : B) (rows : List (TradeRecord F)) where
    IsUntouched-modify :
        (f : World F B W → World F B W)
        → ((w : World F B W) → IsUntouched st rows w → IsUntouched st rows (f w))
        → Keeps (IsUntouched st rows) (modify f)
    unfolding modify
    IsUntouched-modify f h = record { at = h }

    IsUntouched-ask :
        {A : Type 0} (f : W → A × W) → Keeps (IsUntouched st rows) (ask {F = F} {B = B} f)
    unfolding ask
    IsUntouched-ask f = record { at = λ w p. p }

    module _ ⦃o : FloatOps F⦄ ⦃x : Outside W⦄ where
      IsUntouched-found :
          {A : Type 0} (found : Option A)
          → Keeps {F = F} {B = B} {W = W} (IsUntouched st rows) (found_rows found)
      unfolding found_rows
      IsUntouched-found none = Keeps-raise _
      IsUntouched-found (some a) = Keeps-pure _

      IsUntouched-circuit :
          (req : OrderRequest F)
          → Keeps {F = F} {B = B} {W = W} (IsUntouched st rows) (circuit_block req)
      unfolding circuit_block
      IsUntouched-circuit req = Keeps-bind (IsUntouched-ask _) λ now.
          Keeps-bind (Keeps-gets _) λ opened. Keeps-bind (IsUntouched-modify _ λ w p. p) λ a.
            Keeps-if opened.0
              (Keeps-bind (IsUntouched-ask _) λ second. Keeps-bind (IsUntouched-ask _) λ third.
                Keeps-bind (Keeps-gets _)
                  λ paused. Keeps-bind (IsUntouched-modify _ λ w p. p) λ c. Keeps-pure _)
              (Keeps-pure _)

      IsUntouched-unresolved :
          (cfg : Settings F) (req : OrderRequest F)
          → Keeps {F = F} {B = B} {W = W} (IsUntouched st rows) (unresolved_block cfg req)
      unfolding unresolved_block read_open_trades
      IsUntouched-unresolved cfg req =
          Keeps-if (is_live cfg.trading_mode)
            (Keeps-bind
              (Keeps-bind (IsUntouched-ask _)
                λ session. Keeps-bind (Keeps-gets _) λ found. IsUntouched-found _)
              λ found.
                Keeps-if (any (λ row. is_unresolved row.status) found) (Keeps-pure _)
                  (IsUntouched-circuit req))
            (IsUntouched-circuit req)

      module _ ⦃r : Redis W⦄ where
        IsUntouched-pre :
            (cfg : Settings F) (req : OrderRequest F)
            → Keeps {F = F} {B = B} {W = W} (IsUntouched st rows) (pre_execution_block cfg req)
        unfolding pre_execution_block
        IsUntouched-pre cfg req = Keeps-bind (IsUntouched-ask _) λ row.
            Keeps-bind (Keeps-gets _) λ w. Keeps-if (is_paused row) (Keeps-pure _) (
              Keeps-if (is_reconciliation_degraded (flags_of w)) (Keeps-pure _) (
                Keeps-if (is_emergency_halt (flags_of w)) (Keeps-pure _) (
                  Keeps-if (is_trading_halted w.portfolio.state) (Keeps-pure _)
                    (IsUntouched-unresolved cfg req))))

        module _ ⦃s : ClaimServer W⦄ (cfg : Settings F) (req : OrderRequest F) where
          IsUntouched-claim :
              (id : String) → Keeps {F = F} {B = B} {W = W} (IsUntouched st rows) (claim cfg id)
          unfolding claim
          IsUntouched-claim id =
              Keeps-bind (Keeps-gets _)
                λ claimed. Keeps-bind (IsUntouched-modify _ λ w p. p) λ a. Keeps-pure _

          IsUntouched-read :
              (id : String)
              → Keeps {F = F} {B = B} {W = W} (IsUntouched st rows) (read_by_client_id id)
          unfolding read_by_client_id
          IsUntouched-read id =
              Keeps-bind (IsUntouched-ask _)
                λ session. Keeps-bind (Keeps-gets _) λ found. IsUntouched-found _

          IsUntouched-duplicate :
              Keeps {F = F} {B = B} {W = W} (IsUntouched st rows) (duplicate_block cfg req)
          unfolding duplicate_block
          IsUntouched-duplicate = Keeps-if (str_eq req.client_order_id "") (Keeps-pure _) (
              Keeps-bind (IsUntouched-read _) λ existing.
                Keeps-if (blocks_again existing) (Keeps-pure _)
                  (Keeps-bind (IsUntouched-claim _) λ acquired. Keeps-pure _))

          found-After :
              (session : Bool) (id : String) (found : List (TradeRecord F)) (w : World F B W)
              → found ≡ rows
              → After {F = F} {B = B} {W = W}
                  (λ a w'. a ≡ find_row id rows)
                  (found_rows (get_by_client_id session id found) w)
          unfolding found_rows get_by_client_id raise pure
          found-After true id found w h = ap (find_row id) h
          found-After false id found w h = tt

          -- An exception, or the row that the table has.
          found-row :
              (id : String)
              → Holds {F = F} {B = B} {W = W}
                  (IsUntouched st rows)
                  (read_by_client_id id)
                  (λ a w. a ≡ find_row id rows)
          unfolding read_by_client_id ◌>>=◌ ask gets
          found-row id = record {
            at = λ w p. found-After (x.session w.outside).0 id w.trades _ p.1;
          }

          -- The row of an earlier order with the id is open.
          duplicate-IsSome :
              str_eq req.client_order_id "" ≡ false
              → blocks_again (find_row req.client_order_id rows) ≡ true
              → Holds {F = F} {B = B} {W = W}
                  (IsUntouched st rows)
                  (duplicate_block cfg req)
                  (λ a w. IsSome a)
          unfolding duplicate_block
          duplicate-IsSome named h =
              Holds-if (str_eq req.client_order_id "") (λ c. ground (arith, c, named))
                λ c. Holds-bind (found-row req.client_order_id) λ existing.
                  Holds-if (blocks_again existing) (λ d. Holds-pure _ λ w p. tt)
                    (λ d. Holds-never λ w p. ground (arith, d, h, p))

          module _ ⦃b : Broker F B⦄ ⦃u : CaseMap⦄ (market_price : F) where
            IsUntouched-unless :
                (blocked : Option (OrderResult F)) {k : Run F B W (OrderResult F)}
                → Keeps (IsUntouched st rows) k
                → Keeps (IsUntouched st rows) (unless_blocked blocked k)
            unfolding unless_blocked
            IsUntouched-unless none h = h
            IsUntouched-unless (some refused) h = Keeps-pure _

            stays-IsUntouched :
                (blocked : Option (OrderResult F)) (k : Run F B W (OrderResult F))
                → IsSome blocked
                → Keeps (IsUntouched st rows) (unless_blocked blocked k)
            unfolding unless_blocked
            stays-IsUntouched (some refused) k h = Keeps-pure _
            stays-IsUntouched none k h = absurd h

            place_order-IsUntouched :
                str_eq req.client_order_id "" ≡ false
                → blocks_again (find_row req.client_order_id rows) ≡ true
                → Keeps {F = F} {B = B} {W = W}
                    (IsUntouched st rows)
                    (place_order cfg req market_price)
            unfolding place_order
            place_order-IsUntouched named h =
                Keeps-if (not (is_protectable req market_price)) (Keeps-pure _) (
                  Keeps-bind (IsUntouched-pre cfg req) λ blocked. IsUntouched-unless blocked (
                    Keeps-known IsUntouched-duplicate (duplicate-IsSome named h)
                      λ duplicate g. stays-IsUntouched duplicate _ g))

module _ {F B W : Type 0} ⦃o : FloatOps F⦄ ⦃x : Outside W⦄ ⦃r : Redis W⦄ ⦃s : ClaimServer W⦄
    ⦃b : Broker F B⦄ ⦃u : CaseMap⦄ where
  -- An order whose id is not empty and has an open row in the table of the trades does not reach the broker and changes no
  -- row, in every trading mode, whatever the outside answers, and also when it raises.
  pub place_order-duplicate :
      (cfg : Settings F) (req : OrderRequest F) (market_price : F) (w : World F B W)
      → str_eq req.client_order_id "" ≡ false
      → blocks_again (find_row req.client_order_id w.trades) ≡ true
      → IsUntouched w.broker w.trades (place_order cfg req market_price w).1
  place_order-duplicate cfg req market_price w named h =
      (place_order-IsUntouched w.broker w.trades cfg req market_price named h).at w (refl, refl)

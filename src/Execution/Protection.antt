-- ===== src/Execution/Protection.antt =====
-- services/execution/protection.py: is a stop order at the broker the protection of a position?
use apex_trader.Base.{
  ◌≡◌, ◌↔◌, String, Bool, true, false, not, ◌&&◌, ◌||◌, Option, some, arith, inl, inr, Option-cases,
  if◌then◌else◌, str_eq,
}
use apex_trader.Base.Floats.{FloatOps, ◌-F◌, ◌<F◌, ◌≤F◌, ◌=F◌, num, ratio, abs}
use apex_trader.Base.CaseMap.{CaseMap}

-- The broker's answer about the stop. A text is that of `str(status.get(key, ""))`, empty where the
-- key is missing; a number is `none` where the key is missing or `float` refuses the value.
pub record StopStatus (F : Type 0) : Type 0 where
  pub status : String
  pub pending_quantity : Option F
  pub filled_quantity : Option F
  pub trigger_price : Option F
  pub tradingsymbol : String
  pub transaction_type : String
  pub product : String
  pub exchange : String
  pub order_type : String

-- The position that the stop is to protect.
pub record Exposure (F : Type 0) : Type 0 where
  pub symbol : String
  pub qty : F
  pub product : String
  pub exchange : String

-- The message of a problem, which names a key where the source's does; `fine` is the empty message.
pub data StopProblem : Type 0 where
  not_working invalid_quantities quantity_differs invalid_trigger : StopProblem
  details_unavailable not_a_stop fine : StopProblem
  mismatch : String → StopProblem

abbrev pub is_working : String → Bool
is_working s = str_eq s "OPEN" || str_eq s "TRIGGER PENDING"

abbrev pub is_stop_type : String → Bool
is_stop_type s = str_eq s "SL" || str_eq s "SL-M"

abbrev pub same_text : ⦃u : CaseMap⦄ → String → String → Bool
same_text ⦃u⦄ a b = str_eq (u.upper a) (u.upper b)

module _ {F : Type 0} ⦃o : FloatOps F⦄ ⦃u : CaseMap⦄ where
  -- The loop over the four keys, in its order.
  unfoldable pub stop_identity_problem : StopStatus F → Exposure F → StopProblem
  stop_identity_problem s e =
      if not (same_text s.tradingsymbol e.symbol)
      then StopProblem.mismatch "tradingsymbol"
      else if not (same_text s.transaction_type "SELL")
      then StopProblem.mismatch "transaction_type"
      else if not (same_text s.product e.product)
      then StopProblem.mismatch "product"
      else if not (same_text s.exchange e.exchange)
      then StopProblem.mismatch "exchange"
      else if not (is_stop_type s.order_type)
      then StopProblem.not_a_stop
      else StopProblem.fine

  -- The tests on the three numbers.
  unfoldable pub number_problem : F → F → F → StopStatus F → Exposure F → StopProblem
  number_problem pending filled trigger s e =
      if not (o.is_finite pending && o.is_finite filled && o.is_finite trigger && o.is_finite e.qty)
      then StopProblem.invalid_quantities
      else if not (filled =F num 0) || (ratio 1 10000 <F abs (pending -F e.qty)) || (e.qty ≤F num 0)
      then StopProblem.quantity_differs
      else if trigger ≤F num 0
      then StopProblem.invalid_trigger
      else stop_identity_problem s e

  abbrev numbers_problem : Option F → Option F → Option F → StopStatus F → Exposure F → StopProblem
  numbers_problem (some pending) (some filled) (some trigger) s e =
      number_problem pending filled trigger s e
  numbers_problem _ _ _ s e = StopProblem.details_unavailable

  unfoldable pub stop_problem : StopStatus F → Exposure F → StopProblem
  stop_problem s e =
      if is_working s.status
      then numbers_problem s.pending_quantity s.filled_quantity s.trigger_price s e
      else StopProblem.not_working

  -- What a stop order has to be like.
  abbrev pub IsProtecting : StopStatus F → Exposure F → Type 0
  IsProtecting s e =
      (is_working s.status ≡ true)
      × (is_stop_type s.order_type ≡ true)
      × (same_text s.tradingsymbol e.symbol ≡ true)
      × (same_text s.transaction_type "SELL" ≡ true)
      × (same_text s.product e.product ≡ true)
      × (same_text s.exchange e.exchange ≡ true)
      × ((pending : F) × ((filled : F) × ((trigger : F) × (s.pending_quantity ≡ some pending)
              × (s.filled_quantity ≡ some filled)
              × (s.trigger_price ≡ some trigger)
              × ((o.is_finite pending
                    && o.is_finite filled
                    && o.is_finite trigger
                    && o.is_finite e.qty)
                  ≡ true)
              × ((filled =F num 0) ≡ true)
              × ((ratio 1 10000 <F abs (pending -F e.qty)) ≡ false)
              × ((e.qty ≤F num 0) ≡ false)
              × ((trigger ≤F num 0) ≡ false))))

  fine_parts :
      (s : StopStatus F) (e : Exposure F) (pending filled trigger : F)
      → s.pending_quantity ≡ some pending
      → s.filled_quantity ≡ some filled
      → s.trigger_price ≡ some trigger
      → stop_problem s e ≡ StopProblem.fine
      → IsProtecting s e
  unfolding stop_problem number_problem stop_identity_problem
  fine_parts s e pending filled trigger p f t h = (
    ground arith,
    ground arith,
    ground arith,
    ground arith,
    ground arith,
    ground arith,
    (
      pending,
      (
        filled,
        (trigger, p, f, t, ground arith, ground arith, ground arith, ground arith, ground arith),
      ),
    ),
  )

  -- No problem is reported exactly for a working stop order to sell, of the symbol, product and exchange
  -- of the position, with finite numbers, nothing filled, the position's quantity pending to within a
  -- ten-thousandth, and a trigger above zero.
  pub stop_problem-fine_iff :
      (s : StopStatus F) (e : Exposure F) → (stop_problem s e ≡ StopProblem.fine) ↔ IsProtecting s e
  unfolding stop_problem number_problem stop_identity_problem
  stop_problem-fine_iff s e = (
    λ h. elim (Option-cases s.pending_quantity) [
      | inl gone ↦ ground (arith, h, gone)
      | inr (pending, p) ↦ elim (Option-cases s.filled_quantity) [
        | inl gone ↦ ground (arith, h, p, gone)
        | inr (filled, f) ↦ elim (Option-cases s.trigger_price) [
          | inl gone ↦ ground (arith, h, p, f, gone)
          | inr (trigger, t) ↦ fine_parts s e pending filled trigger p f t h
        ]
      ]
    ],
    λ h. ground (arith, h),
  )

-- ===== src/Execution/Flat.antt =====
-- services/execution/execution_engine.py: what the report of `eod_square_off` means.
use apex_trader.Base.{
  ◌≡◌, refl, subst, ◌∙◌, ◌⊎◌, inl, inr, ℕ, String, Bool, true, false, ◌&&◌, List, [], ◌∷◌, ◌++◌,
  arith,
}
use apex_trader.Base.Floats.{FloatOps}
use apex_trader.Base.CaseMap.{CaseMap}
use apex_trader.Config.{Settings, is_live}
use apex_trader.Cache.{Redis}
use apex_trader.Portfolio.Models.{PositionView}
use apex_trader.Execution.World.{Result, ok, raised, World, Broker, Outside, Market, BrokerPosition}
use apex_trader.Execution.Run.{outcome, call, Run, ◌>>=◌, gets}
use apex_trader.Execution.Rules.{
  Any, Holds, returned, Holds-then, Holds-bind, Holds-pure, Holds-if, Holds-any, Holds-keeps,
}
use apex_trader.Execution.Engine.Closing.{
  Trouble, SquareOff, Closure, is_empty, closure_of, unresolved_trouble, verify_closure, verdict,
  eod_square_off,
}
use apex_trader.Execution.Stopping.{IsStopped, IsStopped-persist, IsStopped-shut}

empty_list : {A : Type 0} (xs : List A) → is_empty xs ≡ true → xs ≡ []
empty_list [] h = refl
empty_list (x ∷ xs) h = ground (arith, h)

all_three : (a c d : Bool) → (a && c && d) ≡ true → (a ≡ true) × (c ≡ true) × (d ≡ true)
all_three a c d h = ground (arith, h)

tail_empty : {A : Type 0} (xs ys : List A) → xs ++ ys ≡ [] → ys ≡ []
tail_empty [] ys h = h
tail_empty (x ∷ xs) ys h = ground (arith, h)

-- The broker answered that it has these positions, and was not called since.
abbrev pub IsAnswered :
    {F B W : Type 0} ⦃b : Broker F B⦄ → List (BrokerPosition F) → World F B W → Type 0
IsAnswered {B} ⦃b⦄ positions w =
    (st : B) × (((b.fetch_open_positions st).0 ≡ ok positions)
      × (w.broker ≡ (b.fetch_open_positions st).1))

module _ {F B W : Type 0} ⦃b : Broker F B⦄ where
  closure_of-IsAnswered :
      (errors : List (Trouble F)) (answer : Result (List (BrokerPosition F))) (st : B)
      (w : World F B W)
      → (b.fetch_open_positions st).0 ≡ answer
      → w.broker ≡ (b.fetch_open_positions st).1
      → (closure_of errors answer).errors ≡ []
      → IsAnswered (closure_of errors answer).remaining w
  closure_of-IsAnswered errors (ok positions) st w e p h = (st, (e, p))
  closure_of-IsAnswered errors (raised m) st w e p h = ground (arith, tail_empty errors _ h)

module _ {F B W : Type 0} where
  held_now :
      {C : Type 0} (Q : World F B W → Type 0) {G : C → World F B W → Type 0}
      (g : List (PositionView F) → Run F B W C)
      → ((held : List (PositionView F))
          → Holds (λ w. Q w × (w.portfolio.state.positions ≡ held)) (g held) G)
      → Holds Q (gets (λ w. w.portfolio.state.positions) >>= g) G
  unfolding ◌>>=◌ gets
  held_now Q g h = record { at = λ w p. (h w.portfolio.state.positions).at w (p, refl) }

  -- The broker's answer to a call that is looked at at once.
  asked_now :
      {A C : Type 0} (f : B → Result A × B) {g : Result A → Run F B W C}
      {H : C → World F B W → Type 0}
      → ((a : Result A) (st : B) → (f st).0 ≡ a → Holds (λ w. w.broker ≡ (f st).1) (g a) H)
      → Holds Any (outcome (call f) >>= g) H
  unfolding ◌>>=◌ outcome call
  asked_now f h = record { at = λ w p. (h (f w.broker).0 w.broker refl).at _ refl }

module _ {F B W : Type 0} ⦃o : FloatOps F⦄ ⦃u : CaseMap⦄ ⦃x : Outside W⦄ ⦃b : Broker F B⦄
    ⦃r : Redis W⦄ ⦃k : Market F W⦄ where
  -- Everything is closed, by the ledger and the broker, or the portfolio is halted.
  abbrev pub IsFlat : SquareOff F → World F B W → Type 0
  IsFlat report w =
      ((report.is_ok ≡ true)
        × (w.portfolio.state.positions ≡ [])
        × (report.errors ≡ [])
        × IsAnswered [] w)
      ⊎ ((report.is_ok ≡ false) × IsStopped w)

  closure-IsAnswered :
      (cfg : Settings F)
      → is_live cfg.trading_mode ≡ true
      → Holds {F = F} {B = B} {W = W} Any
          (verify_closure cfg)
          (λ c w. c.errors ≡ [] → IsAnswered c.remaining w)
  unfolding verify_closure
  closure-IsAnswered cfg live =
      Holds-if (is_live cfg.trading_mode)
        (λ c. Holds-then _ λ rows. asked_now b.fetch_open_positions λ answer st e.
          Holds-pure _ λ w p h. closure_of-IsAnswered (unresolved_trouble rows) answer st w e p h)
        (λ c. ground (arith, c, live))

  verdict-IsFlat :
      (accounted : ℕ) (errors : List (Trouble F)) (closure : Closure F)
      → Holds {F = F} {B = B} {W = W}
          (λ w. closure.errors ≡ [] → IsAnswered closure.remaining w)
          (verdict accounted errors closure)
          IsFlat
  unfolding verdict
  verdict-IsFlat accounted errors closure = held_now _ _ λ held.
      Holds-if (is_empty (errors ++ closure.errors) && is_empty closure.remaining && is_empty held)
        (λ c.
          let (e, m, n) =
            all_three (is_empty (errors ++ closure.errors)) (is_empty closure.remaining)
              (is_empty held) c in
          let none_wrong = empty_list (errors ++ closure.errors) e in
          Holds-pure _ λ w p. inl (
            refl,
            p.1 ∙ empty_list held n,
            none_wrong,
            subst (λ ps. IsAnswered ps w) (empty_list closure.remaining m)
                (p.0 (tail_empty errors closure.errors none_wrong)),
          ))
        (λ c. Holds-any (
          Holds-bind IsStopped-shut
            λ _. Holds-bind (Holds-keeps IsStopped-persist) λ _. Holds-pure _ λ w p. inr (refl, p)))

  square_off-IsFlat :
      (cfg : Settings F) (reason : String)
      → is_live cfg.trading_mode ≡ true
      → Holds {F = F} {B = B} {W = W} Any (eod_square_off cfg reason) IsFlat
  unfolding eod_square_off
  square_off-IsFlat cfg reason live = Holds-then _ λ held. Holds-then _ λ done.
      Holds-bind (closure-IsAnswered cfg live) λ closure. verdict-IsFlat done.0 done.1 closure

  -- A square-off in live mode that returns reports success only when the ledger has no position, the report
  -- lists no error and the broker, in the last call that was made of it, answered that it has no position;
  -- otherwise it halts the portfolio.
  pub eod_square_off-IsFlat :
      (cfg : Settings F) (reason : String) (w : World F B W) (report : SquareOff F)
      → is_live cfg.trading_mode ≡ true
      → (eod_square_off cfg reason w).0 ≡ ok report
      → IsFlat report (eod_square_off cfg reason w).1
  eod_square_off-IsFlat cfg reason w report live h =
      returned IsFlat _ report h ((square_off-IsFlat cfg reason live).at w tt)

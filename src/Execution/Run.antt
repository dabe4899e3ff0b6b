-- ===== src/Execution/Run.antt =====
-- Coroutines that read and change the world and can raise; what was changed before a raise stays.
use apex_trader.Base.{String}
use apex_trader.Execution.World.{Result, ok, raised, World}

abbrev pub Run : Type 0 → Type 0 → Type 0 → Type 0 → Type 0
Run F B W A = World F B W → Result A × World F B W

module _ {F B W : Type 0} where
  infixl 5 ◌>>=◌ ◌>>◌
  abbrev pub go_on :
      {A C : Type 0} → (A → Run F B W C) → Result A × World F B W → Result C × World F B W
  go_on f (ok a, w) = f a w
  go_on f (raised e, w) = (raised e, w)

  unfoldable pub ◌>>=◌ : {A C : Type 0} → Run F B W A → (A → Run F B W C) → Run F B W C
  ◌>>=◌ m f w = go_on f (m w)

  abbrev pub ◌>>◌ : {A C : Type 0} → Run F B W A → Run F B W C → Run F B W C
  m >> k = m >>= λ _. k

  unfoldable pub pure : {A : Type 0} → A → Run F B W A
  pure a w = (ok a, w)

  unfoldable pub raise : {A : Type 0} → String → Run F B W A
  raise e w = (raised e, w)

  unfoldable pub modify : (World F B W → World F B W) → Run F B W (Unit {0})
  modify f w = (ok tt, f w)

  unfoldable pub gets : {A : Type 0} → (World F B W → A) → Run F B W A
  gets f w = (ok (f w), w)

  abbrev pub handled :
      {A : Type 0} → (String → Run F B W A) → Result A × World F B W → Result A × World F B W
  handled handler (ok a, w) = (ok a, w)
  handled handler (raised e, w) = handler e w

  -- `try: m except e: handler(e)`
  unfoldable pub try : {A : Type 0} → Run F B W A → (String → Run F B W A) → Run F B W A
  try m handler w = handled handler (m w)

  -- The result of a call as a value, exceptions included, to be looked at by clauses.
  unfoldable pub outcome : {A : Type 0} → Run F B W A → Run F B W (Result A)
  outcome m w = (ok (m w).0, (m w).1)

  -- A call of the broker, and a question to the outside.
  unfoldable pub call : {A : Type 0} → (B → Result A × B) → Run F B W A
  call f w = ((f w.broker).0, record w { broker = (f w.broker).1 })

  unfoldable pub ask : {A : Type 0} → (W → A × W) → Run F B W A
  ask f w = (ok (f w.outside).0, record w { outside = (f w.outside).1 })

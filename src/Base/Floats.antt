-- ===== src/Base/Floats.antt =====
-- Python's floats. Their arithmetic belongs to the processor, so it is a parameter: a type with
-- operations, and with no law unless a theorem names it.
use Prim.Native.Nat.{ℕ}
use mathlib.Core.Bool.{Bool}
use mathlib.Core.Option.{Option, none, some}
use apex_trader.Base.Tests.{if◌then◌else◌}

pub record FloatOps (F : Type 0) : Type 0 where
  pub of_ℕ : ℕ → F
  pub add : F → F → F
  pub sub : F → F → F
  pub mul : F → F → F
  -- `a / b` for `b` other than zero; where the source can divide by zero the model tests it.
  pub div : F → F → F
  pub lt : F → F → Bool
  pub le : F → F → Bool
  pub eq : F → F → Bool
  pub is_finite : F → Bool
  -- `int(x)` of a finite `x`: the whole number next to it on the side of zero.
  pub trunc : F → F
  -- `round(x, n)`
  pub round : F → ℕ → F

module _ {F : Type 0} ⦃o : FloatOps F⦄ where
  infixl 65 ◌+F◌ ◌-F◌
  infixl 70 ◌*F◌ ◌/F◌
  infix 50 ◌<F◌ ◌≤F◌ ◌=F◌
  abbrev pub ◌+F◌ : F → F → F
  a +F b = o.add a b

  abbrev pub ◌-F◌ : F → F → F
  a -F b = o.sub a b

  abbrev pub ◌*F◌ : F → F → F
  a *F b = o.mul a b

  abbrev pub ◌/F◌ : F → F → F
  a /F b = o.div a b

  abbrev pub ◌<F◌ : F → F → Bool
  a <F b = o.lt a b

  abbrev pub ◌≤F◌ : F → F → Bool
  a ≤F b = o.le a b

  abbrev pub ◌=F◌ : F → F → Bool
  a =F b = o.eq a b

  abbrev pub num : ℕ → F
  num n = o.of_ℕ n

  -- A decimal literal is the quotient of two whole numbers, correctly rounded: 0.6 is `ratio 6 10`.
  abbrev pub ratio : ℕ → ℕ → F
  ratio p q = o.div (o.of_ℕ p) (o.of_ℕ q)

  -- `-x`
  abbrev pub neg : F → F
  neg x = o.sub (o.of_ℕ 0) x

  -- `abs(x)`
  abbrev pub abs : F → F
  abs x = if o.lt x (o.of_ℕ 0) then neg x else x

  -- `min(a, b)` and `max(a, b)` keep the first argument unless the second is strictly better.
  abbrev pub min : F → F → F
  min a b = if o.lt b a then b else a

  abbrev pub max : F → F → F
  max a b = if o.lt a b then b else a

  -- `a / b`; `none` is the exception on zero.
  unfoldable pub divided : F → F → Option F
  divided a b = if b =F num 0 then none else some (a /F b)

  -- `int(x)`; `none` is the exception on an infinity or a NaN.
  unfoldable pub whole : F → Option F
  whole x = if o.is_finite x then some (o.trunc x) else none

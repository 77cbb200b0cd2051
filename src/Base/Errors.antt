-- ===== src/Base/Errors.antt =====
-- Python code that may raise: the message of a `PlanningError` is kept as it is written.
use Prim.Native.String.{String}
use mathlib.Core.Path.{◌≡◌, refl}
use mathlib.Core.Logic.{◌⊎◌, inl, inr}
use mathlib.Core.Option.{Option, none, some}
use mathlib.Core.Bool.{Bool, true, false}
use native.Mathlib.Omega.{arith}

pub data Result {ℓ} (A : Type ℓ) : Type ℓ where
  err : String → Result A
  ok : A → Result A

pub Result-cases {ℓ} :
    {A : Type ℓ} (r : Result A) → ((e : String) × (r ≡ err e)) ⊎ ((a : A) × (r ≡ ok a))
Result-cases (ok a) = inr (a, refl)
Result-cases (err e) = inl (e, refl)

-- What comes after a raise does not run.
infixl 10 ◌>>=◌
abbrev pub ◌>>=◌ {ℓ κ} : {A : Type ℓ} {B : Type κ} → Result A → (A → Result B) → Result B
◌>>=◌ (err message) next = err message
◌>>=◌ (ok value) next = next value

-- `if b: raise PlanningError(e)`
abbrev pub raise_if : Bool → String → Result (Unit {0})
raise_if true e = err e
raise_if false e = ok tt

-- A value that must be there.
abbrev pub or_raise {ℓ} : {A : Type ℓ} → Option A → String → Result A
or_raise none e = err e
or_raise (some a) e = ok a

infixl 10 ◌>>◌
abbrev pub ◌>>◌ {ℓ} : {B : Type ℓ} → Result (Unit {0}) → Result B → Result B
◌>>◌ (err message) next = err message
◌>>◌ (ok done) next = next

-- What comes after a check that did not raise.
pub after_raise {ℓ} :
    {B : Type ℓ} (b : Bool) (e : String) (r : Result B) (x : B)
    → (raise_if b e >> r) ≡ ok x
    → (b ≡ false) × (r ≡ ok x)
after_raise true e r x h = ground arith
after_raise false e r x h = (refl, h)

-- What comes after a value that was there.
pub after_bind {ℓ κ} :
    {A : Type ℓ} {B : Type κ} (r : Result A) (f : A → Result B) (x : B)
    → (r >>= f) ≡ ok x
    → (a : A) × (r ≡ ok a) × (f a ≡ ok x)
after_bind (err e) f x h = ground arith
after_bind (ok a) f x h = (a, refl, h)

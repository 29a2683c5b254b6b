-- ===== src/Prelude/Results.antt =====
-- Errors as values: what a service method returns where the source may raise.
use mathlib.Core.Path.{◌≡◌, refl}
use mathlib.Core.Logic.{◌⊎◌, inl, inr}
use mathlib.Core.Bool.{Bool, true, false}
use mathlib.Core.Option.{Option, none, some}

pub data Result {ℓ κ} (E : Type ℓ) (A : Type κ) : Type (ℓ ⊔ κ) where
  ok : A → Result E A
  err : E → Result E A

module _ {E : Type 0} where
  infixl 5 ◌>>=◌ ◌>>◌
  abbrev pub ◌>>=◌ : {A B : Type 0} → Result E A → (A → Result E B) → Result E B
  ok a >>= f = f a
  err e >>= f = err e

  abbrev pub ◌>>◌ : {B : Type 0} → Result E (Unit {0}) → Result E B → Result E B
  m >> k = m >>= λ _. k

  -- `if c: raise e`
  abbrev pub raise_if : Bool → E → Result E (Unit {0})
  raise_if true e = err e
  raise_if false e = ok tt

  -- `if x is None: raise e`
  abbrev pub or_raise : {A : Type 0} → Option A → E → Result E A
  or_raise none e = err e
  or_raise (some a) e = ok a

module _ {E : Type 0} where
  -- Inversion of a chain that returned.
  pub bind-eq-ok :
      {A B : Type 0} (m : Result E A) (f : A → Result E B) {b : B}
      → ◌>>=◌ m f ≡ ok b
      → (a : A) × (m ≡ ok a) × (f a ≡ ok b)
  bind-eq-ok (ok a) f h = (a, refl, h)
  bind-eq-ok (err e) f h = cc

  pub raise_if-eq-ok :
      {B : Type 0} (c : Bool) (e : E) (k : Result E B) {b : B}
      → ◌>>◌ (raise_if c e) k ≡ ok b
      → (c ≡ false) × (k ≡ ok b)
  raise_if-eq-ok true e k h = cc
  raise_if-eq-ok false e k h = (refl, h)

  pub or_raise-eq-ok :
      {A B : Type 0} (o : Option A) (e : E) (f : A → Result E B) {b : B}
      → ◌>>=◌ (or_raise o e) f ≡ ok b
      → (a : A) × (o ≡ some a) × (f a ≡ ok b)
  or_raise-eq-ok none e f h = cc
  or_raise-eq-ok (some a) e f h = (a, refl, h)

  -- A step whose value is not used.
  pub then-eq-ok :
      {B : Type 0} (m : Result E (Unit {0})) (k : Result E B) {b : B}
      → ◌>>◌ m k ≡ ok b
      → (m ≡ ok tt) × (k ≡ ok b)
  then-eq-ok (ok tt) k h = (refl, h)
  then-eq-ok (err e) k h = cc

  pub Result-cases :
      {A : Type 0} (m : Result E A) → ((a : A) × (m ≡ ok a)) ⊎ ((e : E) × (m ≡ err e))
  Result-cases (ok a) = inl (a, refl)
  Result-cases (err e) = inr (e, refl)

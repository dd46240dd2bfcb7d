-- ===== src/Prelude/Fallible.antt =====
-- A call that returns a value or raises an error, with `do` blocks.
use mathlib.Core.Path.{◌≡◌, refl}
use mathlib.Core.Logic.{◌⊎◌, inl, inr}
use mathlib.Core.Bool.{Bool, true, false}

pub data Result (E A : Type 0) : Type 0 where
  ok : A → Result E A
  err : E → Result E A

module _ {E : Type 0} where
  infixl 5 ◌>>=◌ ◌>>◌
  abbrev pub ◌>>=◌ : {A B : Type 0} → Result E A → (A → Result E B) → Result E B
  ok a >>= f = f a
  err e >>= f = err e

  abbrev pub ◌>>◌ : {A B : Type 0} → Result E A → Result E B → Result E B
  m >> k = m >>= λ _. k

  -- `if bad: raise e`
  abbrev pub raise_if : Bool → E → Result E (Unit {0})
  raise_if true e = err e
  raise_if false e = ok tt

  abbrev pub map_ok : {A B : Type 0} → (A → B) → Result E A → Result E B
  map_ok f (ok a) = ok (f a)
  map_ok f (err e) = err e

  pub ok-injective : {A : Type 0} {a b : A} → ◌≡◌ {A = Result E A} (ok a) (ok b) → a ≡ b
  ok-injective h = cc

  pub Result-cases :
      {A : Type 0} (r : Result E A) → ((a : A) × (r ≡ ok a)) ⊎ ((e : E) × (r ≡ err e))
  Result-cases (ok a) = inl (a, refl)
  Result-cases (err e) = inr (e, refl)

  -- A sequence that succeeds is a call that succeeds with a value, on which the rest succeeds.
  pub >>=-eq-ok :
      {A B : Type 0} (call : Result E A) (rest : A → Result E B) {done : B}
      → (call >>= rest) ≡ ok done
      → (value : A) × (call ≡ ok value) × (rest value ≡ ok done)
  >>=-eq-ok (ok value) rest h = (value, refl, h)
  >>=-eq-ok (err raised) rest h = cc

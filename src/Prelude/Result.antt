-- ===== src/Prelude/Result.antt =====
-- A status code with the value that goes with `Ok`: the other codes are the errors.
use mathlib.Core.Bool.{Bool, true, false}
use mathlib.Core.Option.{Option, none, some}

pub data Result {ℓ} (E : Type 0) (A : Type ℓ) : Type ℓ where
  ok : A → Result E A
  err : E → Result E A

module _ {E : Type 0} where
  infixl 5 ◌>>=◌ ◌>>◌
  abbrev pub ◌>>=◌ {ℓ κ} : {A : Type ℓ} {B : Type κ} → Result E A → (A → Result E B) → Result E B
  ok a >>= f = f a
  err e >>= f = err e

  abbrev pub ◌>>◌ {ℓ} : {B : Type ℓ} → Result E (Unit {0}) → Result E B → Result E B
  m >> k = m >>= λ _. k

  -- Goes on if the test passes.
  abbrev pub check : Bool → E → Result E (Unit {0})
  check true e = ok tt
  check false e = err e

  -- Goes on if the pointer is not null.
  abbrev pub non_null {ℓ} : {A : Type ℓ} → Option A → E → Result E A
  non_null none e = err e
  non_null (some a) e = ok a

abbrev pub map_error {ℓ} : {D E : Type 0} {A : Type ℓ} → (D → E) → Result D A → Result E A
map_error f (ok a) = ok a
map_error f (err e) = err (f e)

-- ===== src/Base/Outcome.antt =====
-- The outcome of a Go call: a value, an error, a run-time panic, or, for a loop that the model
-- runs on fuel, no outcome yet.
use mathlib.Core.Path.{◌≡◌, refl}
use mathlib.Core.Bool.{Bool, true, false}
use mathlib.Core.Option.{Option, none, some}

pub data Result {ℓ} (E : Type 0) (A : Type ℓ) : Type ℓ where
  ok : A → Result E A
  err : E → Result E A
  panic : Result E A
  stuck : Result E A

module _ {ℓ κ} {E : Type 0} {A : Type ℓ} {B : Type κ} where
  infixl 5 ◌>>=◌
  -- The next call runs on the value of the first; any other outcome stands.
  abbrev pub ◌>>=◌ : Result E A → (A → Result E B) → Result E B
  stuck >>= next = stuck
  panic >>= next = panic
  err why >>= next = err why
  ok value >>= next = next value

  -- A sequence of two calls that ends well went well at both.
  pub >>=-eq-ok :
      (call : Result E A) (next : A → Result E B) {end : B}
      → (call >>= next) ≡ ok end
      → (value : A) × (call ≡ ok value) × (next value ≡ ok end)
  >>=-eq-ok stuck next ended = cc
  >>=-eq-ok panic next ended = cc
  >>=-eq-ok (err why) next ended = cc
  >>=-eq-ok (ok value) next ended = (value, refl, ended)

module _ {ℓ} {E : Type 0} {A : Type ℓ} where
  infixl 5 ◌>>◌
  abbrev pub ◌>>◌ : Result E (Unit {0}) → Result E A → Result E A
  check >> next = check >>= λ _. next

  -- A value that is missing is a panic: an index or a slice out of range.
  abbrev pub or_panic : Option A → Result E A
  or_panic none = panic
  or_panic (some a) = ok a

  pub ok-injective : {a b : A} → ◌≡◌ {A = Result E A} (ok a) (ok b) → a ≡ b
  ok-injective h = cc

-- Return the error if the test holds.
abbrev pub fail_if : {E : Type 0} → Bool → E → Result E (Unit {0})
fail_if true e = err e
fail_if false e = ok tt

-- The error for a value that is not there.
abbrev pub or_err : {E A : Type 0} → Option A → E → Result E A
or_err none e = err e
or_err (some a) e = ok a

-- Another error in place of the call's.
abbrev pub map_err : {E A : Type 0} → (E → E) → Result E A → Result E A
map_err f (ok a) = ok a
map_err f (err e) = err (f e)
map_err f panic = panic
map_err f stuck = stuck

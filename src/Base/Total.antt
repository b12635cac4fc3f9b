-- ===== src/Base/Total.antt =====
-- Calls that end with a value or an error: no panic, and enough fuel.
use go_cfb.Base.{
  ◌≡◌, ◌≢◌, refl, ◌⊎◌, inl, inr, Bool, true, false, Result, ok, err, panic, stuck, ◌>>=◌, ◌>>◌,
  fail_if, if◌then◌else◌, Option, none, some, or_err, map_err,
}

-- The call ends, and its value has the property if it has one.
pub data Ends {E A : Type 0} (P : A → Type 0) : Result E A → Type 0 where
  value : {a : A} → P a → Ends P (ok a)
  error : {e : E} → Ends P (err e)

abbrev pub Any : {A : Type 0} → A → Type 0
Any a = Unit {0}

module _ {E A B : Type 0} {P : A → Type 0} {Q : B → Type 0} where
  pub Ends->>= :
      {m : Result E A} {f : A → Result E B}
      → Ends P m
      → ((a : A) → P a → Ends Q (f a))
      → Ends Q (m >>= f)
  Ends->>= (value p) q = q _ p
  Ends->>= error q = error

module _ {E A : Type 0} {P Q : A → Type 0} where
  pub Ends-mono : {m : Result E A} → Ends P m → ((a : A) → P a → Q a) → Ends Q m
  Ends-mono (value p) q = value (q _ p)
  Ends-mono error q = error

-- A check that passes tells that its test fails.
pub Ends-fail_if :
    {E A : Type 0} {Q : A → Type 0} (b : Bool) (e : E) {next : Result E A}
    → (b ≡ false → Ends Q next)
    → Ends Q (fail_if b e >> next)
Ends-fail_if true e q = error
Ends-fail_if false e q = q refl

module _ {E A : Type 0} where
  pub ne-Ends : (m : Result E A) → m ≢ panic → m ≢ stuck → Ends (λ a. m ≡ ok a) m
  ne-Ends (ok a) p s = value refl
  ne-Ends (err e) p s = error
  ne-Ends panic p s = absurd (p refl)
  ne-Ends stuck p s = absurd (s refl)

  pub Ends-cases :
      {P : A → Type 0} {m : Result E A}
      → Ends P m
      → ((a : A) × (m ≡ ok a) × P a) ⊎ ((e : E) × (m ≡ err e))
  Ends-cases (value {a} p) = inl (a, refl, p)
  Ends-cases (error {e}) = inr (e, refl)

pub Ends-ne :
    {E A : Type 0} {P : A → Type 0} {m : Result E A} → Ends P m → (m ≢ panic) × (m ≢ stuck)
Ends-ne (value p) = (λ e. cc, λ e. cc)
Ends-ne error = (λ e. cc, λ e. cc)

pub Ends-if :
    {E A : Type 0} {Q : A → Type 0} (b : Bool) {m n : Result E A}
    → Ends Q m
    → Ends Q n
    → Ends Q (if b then m else n)
Ends-if true p q = p
Ends-if false p q = q

module _ {E A : Type 0} where
  pub Ends-or_err : (o : Option A) (e : E) → Ends (λ a. o ≡ some a) (or_err o e)
  Ends-or_err none e = error
  Ends-or_err (some a) e = value refl

  pub Ends-map_err : {P : A → Type 0} {m : Result E A} (f : E → E) → Ends P m → Ends P (map_err f m)
  Ends-map_err f (value p) = value p
  Ends-map_err f error = error

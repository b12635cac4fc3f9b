-- ===== src/Base/Slices.antt =====
-- Parts of parts of lists.
use Prim.Native.Nat.{ℕ, zero, suc, ◌+◌, ◌-◌, ◌≤◌, min}
use mathlib.Core.Path.{◌≡◌, refl, sym, ap, ◌∙◌}
use mathlib.Core.List.{List, [], ◌∷◌, ◌++◌}
use native.Mathlib.Omega.{arith}
use go_cfb.Base.{length, take, drop}

module _ {ℓ} {A : Type ℓ} where
  pub take-nil : (k : ℕ) → take {A = A} k [] ≡ []
  take-nil zero = refl
  take-nil (suc k) = refl

  pub drop-nil : (k : ℕ) → drop {A = A} k [] ≡ []
  drop-nil zero = refl
  drop-nil (suc k) = refl

  pub take-append :
      (k : ℕ) (xs ys : List A) → take k (xs ++ ys) ≡ take k xs ++ take (k - length xs) ys
  take-append zero xs ys = ground arith
  take-append (suc k) [] ys = ground arith
  take-append (suc k) (x ∷ xs) ys = ground (arith, take-append k xs ys)

  pub drop-append :
      (k : ℕ) (xs ys : List A) → drop k (xs ++ ys) ≡ drop k xs ++ drop (k - length xs) ys
  drop-append zero xs ys = ground arith
  drop-append (suc k) [] ys = ground arith
  drop-append (suc k) (x ∷ xs) ys = ground (arith, drop-append k xs ys)

  pub drop_all : (k : ℕ) (xs : List A) → length xs ≤ k → drop k xs ≡ []
  drop_all zero [] h = refl
  drop_all zero (x ∷ xs) h = absurd (omega arith)
  drop_all (suc k) [] h = refl
  drop_all (suc k) (x ∷ xs) h = drop_all k xs (omega arith)

  pub take_all : (k : ℕ) (xs : List A) → length xs ≤ k → take k xs ≡ xs
  take_all zero [] h = refl
  take_all zero (x ∷ xs) h = absurd (omega arith)
  take_all (suc k) [] h = refl
  take_all (suc k) (x ∷ xs) h = ap (λ ys. x ∷ ys) (take_all k xs (omega arith))

  pub take-take : (j k : ℕ) (xs : List A) → take j (take k xs) ≡ take (min j k) xs
  take-take zero k xs = ground arith
  take-take (suc j) zero xs = ground arith
  take-take (suc j) (suc k) [] = sym (take-nil (min (suc j) (suc k)))
  take-take (suc j) (suc k) (x ∷ xs) =
      let e : min (suc j) (suc k) ≡ suc (min j k) = omega arith in
      rw e (ap (λ ys. x ∷ ys) (take-take j k xs))

  pub drop-take : (j k : ℕ) (xs : List A) → drop j (take k xs) ≡ take (k - j) (drop j xs)
  drop-take zero k xs = ground arith
  drop-take (suc j) zero xs = ground arith
  drop-take (suc j) (suc k) [] = sym (take-nil (suc k - suc j))
  drop-take (suc j) (suc k) (x ∷ xs) = ground (arith, drop-take j k xs)

  pub drop-drop : (j k : ℕ) (xs : List A) → drop j (drop k xs) ≡ drop (k + j) xs
  drop-drop j zero xs = ground arith
  drop-drop j (suc k) [] = drop-nil j ∙ sym (drop-nil (suc k + j))
  drop-drop j (suc k) (x ∷ xs) =
      let e : suc k + j ≡ suc (k + j) = omega arith in rw e (drop-drop j k xs)

  -- The first part of a concatenation, and what follows it.
  pub take_left : (n : ℕ) (xs ys : List A) → length xs ≡ n → take n (xs ++ ys) ≡ xs
  take_left n xs ys e = rw (← e) (prefix xs)
    where
      prefix : (zs : List A) → take (length zs) (zs ++ ys) ≡ zs
      prefix [] = refl
      prefix (z ∷ zs) = ap (λ ws. z ∷ ws) (prefix zs)

  pub drop_left : (n : ℕ) (xs ys : List A) → length xs ≡ n → drop n (xs ++ ys) ≡ ys
  drop_left n xs ys e = rw (← e) (suffix xs)
    where
      suffix : (zs : List A) → drop (length zs) (zs ++ ys) ≡ ys
      suffix [] = refl
      suffix (z ∷ zs) = suffix zs

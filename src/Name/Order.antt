-- ===== src/Name/Order.antt =====
-- The order of names: by length, then by the uppercase code units.
use go_cfb.Base.{
  ℕ, ◌<◌, ◌≡◌, ◌↔◌, ◌⊎◌, inl, inr, refl, ap, List, [], ◌∷◌, map, arith, length, length-map,
}
use go_cfb.Base.Int.{ℤ, pos, negsuc}
use go_cfb.Name.{to_upper, compare_units, compare_names}

-- A negative result: the first name stands before the second.
abbrev pub IsNegative : ℤ → Type 0
IsNegative (pos n) = ⊥
IsNegative (negsuc n) = Unit

abbrev pub Before : List ℕ → List ℕ → Type 0
Before a b = IsNegative (compare_names a b)

-- The specification: shorter first, and names of one length by their uppercase forms.
abbrev pub LexLess : List ℕ → List ℕ → Type 0
LexLess [] b = ⊥
LexLess (x ∷ xs) [] = ⊥
LexLess (x ∷ xs) (y ∷ ys) = (x < y) ⊎ ((x ≡ y) × LexLess xs ys)

abbrev pub folded : List ℕ → List ℕ
folded = map to_upper

abbrev pub ShortLexLess : List ℕ → List ℕ → Type 0
ShortLexLess a b = (length a < length b) ⊎ ((length a ≡ length b) × LexLess (folded a) (folded b))

compare_units-IsNegative :
    (a b : List ℕ) → IsNegative (compare_units a b) ↔ LexLess (folded a) (folded b)
unfolding compare_units
compare_units-IsNegative [] b = ground arith
compare_units-IsNegative (x ∷ xs) [] = ground arith
compare_units-IsNegative (x ∷ xs) (y ∷ ys) = ground (arith, compare_units-IsNegative xs ys)

compare_units-zero :
    (a b : List ℕ) → length a ≡ length b → (compare_units a b ≡ pos 0) ↔ (folded a ≡ folded b)
unfolding compare_units
compare_units-zero [] [] e = ground arith
compare_units-zero [] (y ∷ ys) e = absurd (omega arith)
compare_units-zero (x ∷ xs) [] e = absurd (omega arith)
compare_units-zero (x ∷ xs) (y ∷ ys) e = ground (arith, compare_units-zero xs ys)

-- compareNames answers a negative number just for a name before the other in the short-lex order
-- of the uppercase forms.
pub compare_names-negative : (a b : List ℕ) → Before a b ↔ ShortLexLess a b
unfolding compare_names
compare_names-negative a b = ground (arith, compare_units-IsNegative a b)

-- compareNames answers 0 just for names with the same uppercase form.
pub compare_names-zero : (a b : List ℕ) → (compare_names a b ≡ pos 0) ↔ (folded a ≡ folded b)
unfolding compare_names
compare_names-zero a b = ground (
  arith,
  compare_units-zero a b,
  ap (length {A = ℕ}),
  length-map a to_upper,
  length-map b to_upper,
)

LexLess-trans : (a b c : List ℕ) → LexLess a b → LexLess b c → LexLess a c
LexLess-trans [] b c h k = h
LexLess-trans (x ∷ xs) [] c h k = absurd h
LexLess-trans (x ∷ xs) (y ∷ ys) [] h k = k
LexLess-trans (x ∷ xs) (y ∷ ys) (z ∷ zs) h k = ground (arith, LexLess-trans xs ys zs)

LexLess-total : (a b : List ℕ) → length a ≡ length b → LexLess a b ⊎ (a ≡ b) ⊎ LexLess b a
LexLess-total [] [] e = inr (inl refl)
LexLess-total [] (y ∷ ys) e = absurd (omega arith)
LexLess-total (x ∷ xs) [] e = absurd (omega arith)
LexLess-total (x ∷ xs) (y ∷ ys) e = ground (arith, LexLess-total xs ys)

-- compareNames orders names: a name before a second that is before a third is before the third, and
-- of two names one is before the other or their uppercase forms are the same.
pub Before-order :
    (a b c : List ℕ)
    → (Before a b → Before b c → Before a c) × (Before a b ⊎ (folded a ≡ folded b) ⊎ Before b a)
Before-order a b c = (trans, total)
  where
    trans : Before a b → Before b c → Before a c
    trans h k = (compare_names-negative a c).1 (
        ground (
          arith,
          (compare_names-negative a b).0 h,
          (compare_names-negative b c).0 k,
          LexLess-trans (folded a) (folded b) (folded c),
        ))

    total : Before a b ⊎ (folded a ≡ folded b) ⊎ Before b a
    total = ground (
      arith,
      compare_names-negative a b,
      compare_names-negative b a,
      LexLess-total (folded a) (folded b),
      length-map a to_upper,
      length-map b to_upper,
    )

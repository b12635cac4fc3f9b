-- ===== src/Base/Search.antt =====
-- slices.BinarySearchFunc of the Go library, as reader.go and name.go use it: the search for the
-- first element that does not compare below the target.
use Prim.Native.Nat.{Ordering}
use mathlib.Core.Path.{◌≡◌, refl}
use mathlib.Core.Logic.{◌≢◌}
use mathlib.Core.Bool.{Bool, true, false}
use mathlib.Core.Option.{Option, none, some}
use mathlib.Core.List.{List}
use native.Mathlib.Omega.{arith}
use go_cfb.Base.{ℕ, zero, suc, ◌+◌, ◌/◌, ◌≤◌, ◌<◌, ltb, if◌then◌else◌, length, get_elem?}

-- How the element at an index compares. An index out of range does not occur.
abbrev pub compares {ℓ} : {A : Type ℓ} → (A → Ordering) → Option A → Ordering
compares cmp none = Ordering.gt
compares cmp (some a) = cmp a

module _ {ℓ} {A : Type ℓ} (cmp : A → Ordering) (xs : List A) where
  -- `for i < j`; each round takes one off `j - i` at least.
  unfoldable pub search_loop : ℕ → ℕ → ℕ → ℕ
  search_loop zero i j = i
  search_loop (suc fuel) i j =
      let h = (i + j) / 2 in
      let right = search_loop fuel (h + 1) j in
      let left = search_loop fuel i h in
      if ltb i j then elim (compares cmp (get_elem? xs h)) [ Ordering.lt ↦ right | _ ↦ left ] else i

  unfoldable pub binary_search : ℕ × Bool
  unfolding search_loop
  binary_search =
      let i = search_loop (length xs) 0 (length xs) in
      (i, elim (compares cmp (get_elem? xs i)) [ Ordering.eq ↦ true | _ ↦ false ])

  found_cases :
      (o : Option A)
      → elim (compares cmp o) [ Ordering.eq ↦ true | _ ↦ false ] ≡ true
      → (a : A) × (o ≡ some a) × (cmp a ≡ Ordering.eq)
  found_cases none e = cc
  found_cases (some a) e = (a, refl, ground arith)

  -- A successful search stands at an element that compares equal.
  pub binary_search-found :
      binary_search.1 ≡ true
      → (a : A) × (get_elem? xs binary_search.0 ≡ some a) × (cmp a ≡ Ordering.eq)
  unfolding binary_search
  binary_search-found e = found_cases (get_elem? xs (search_loop (length xs) 0 (length xs))) e

  -- `p` parts the elements that compare below the target from the others.
  pub record Parts (p : ℕ) : Type 0 where
    pub inside : p ≤ length xs
    pub before : (i : ℕ) → i < p → compares cmp (get_elem? xs i) ≡ Ordering.lt
    pub after : (i : ℕ) → p ≤ i → compares cmp (get_elem? xs i) ≢ Ordering.lt

  module _ (p : ℕ) (parts : Parts p) where
    search_loop-eq : (fuel i j : ℕ) → j ≤ fuel + i → i ≤ p → p ≤ j → search_loop fuel i j ≡ p
    unfolding search_loop
    search_loop-eq zero i j f a b = omega arith
    search_loop-eq (suc fuel) i j f a b = ground (
      arith,
      parts.before ((i + j) / 2),
      parts.after ((i + j) / 2),
      search_loop-eq fuel ((i + j) / 2 + 1) j,
      search_loop-eq fuel i ((i + j) / 2),
    )

    -- The search finds the parting point.
    pub binary_search-eq : binary_search.0 ≡ p
    unfolding binary_search
    binary_search-eq =
        search_loop-eq (length xs) 0 (length xs) (omega arith) (omega arith) parts.inside

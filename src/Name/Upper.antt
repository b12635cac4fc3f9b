-- ===== src/Name/Upper.antt =====
-- toUpper: the uppercase form is its own uppercase form.
use Prim.Native.Nat.{Ordering}
use go_cfb.Base.{
  ℕ, zero, suc, ◌+◌, ◌-◌, ◌≤◌, ◌<◌, ◌≡◌, refl, Bool, true, ◌&&◌, List, [], ◌∷◌, some, arith, ◌==◌,
  get_elem?, ◌⊎◌, inl, inr, Bool-cases, ap, ==_iff,
}
use go_cfb.Name.Table.{CaseRange, case_table}
use go_cfb.Base.Search.{binary_search, binary_search-found}
use go_cfb.Name.{compare_range, apply_range, map_range, to_upper}

stable : ℕ → Bool
stable c = to_upper (to_upper c) == to_upper c

-- Every code unit from `c` on, `n` of them.
stable_from : ℕ → ℕ → Bool
stable_from c zero = true
stable_from c (suc n) = stable c && stable_from (c + 1) n

stable_rows : List CaseRange → Bool
stable_rows [] = true
stable_rows (r ∷ rs) = stable_from r.lo (r.hi + 1 - r.lo) && stable_rows rs

table_stable : stable_rows case_table ≡ true
unfolding stable_rows stable_from stable to_upper map_range binary_search compare_range apply_range
    case_table
table_stable = refl

stable_from_sound : (c n x : ℕ) → stable_from c n ≡ true → c ≤ x → x < c + n → stable x ≡ true
unfolding stable_from
stable_from_sound c zero x e lo hi = absurd (omega arith)
stable_from_sound c (suc n) x e lo hi = ground (arith, stable_from_sound (c + 1) n x)

-- `c` lies in a range of the table.
abbrev pub InRow : List CaseRange → ℕ → Type 0
InRow [] c = ⊥
InRow (r ∷ rs) c = ((r.lo ≤ c) × (c ≤ r.hi)) ⊎ InRow rs c

stable_rows_sound :
    (rs : List CaseRange) (c : ℕ) → stable_rows rs ≡ true → InRow rs c → stable c ≡ true
unfolding stable_rows
stable_rows_sound [] c e h = absurd h
stable_rows_sound (r ∷ rs) c e h =
    ground (arith, stable_from_sound r.lo (r.hi + 1 - r.lo) c, stable_rows_sound rs c)

get_elem?-InRow :
    (rs : List CaseRange) (i c : ℕ) (r : CaseRange)
    → get_elem? rs i ≡ some r
    → r.lo ≤ c
    → c ≤ r.hi
    → InRow rs c
get_elem?-InRow [] i c r e lo hi = cc
get_elem?-InRow (x ∷ rs) zero c r e lo hi = ground arith
get_elem?-InRow (x ∷ rs) (suc i) c r e lo hi = inr (get_elem?-InRow rs i c r e lo hi)

compare_range-eq :
    (c : ℕ) (r : CaseRange) → compare_range c r ≡ Ordering.eq → (r.lo ≤ c) × (c ≤ r.hi)
unfolding compare_range
compare_range-eq c r e = ground arith

-- A code unit in no range of the table is mapped to itself.
map_range-cases : (rs : List CaseRange) (c : ℕ) → (map_range rs c ≡ c) ⊎ InRow rs c
unfolding map_range
map_range-cases rs c = elim (Bool-cases (binary_search (compare_range c) rs).1) [
  | inl found ↦
      let (r, at, here) = binary_search-found (compare_range c) rs found in
      let (lo, hi) = compare_range-eq c r here in
      inr (get_elem?-InRow rs (binary_search (compare_range c) rs).0 c r at lo hi)
  | inr missing ↦ inl (ground arith)
]

-- The ASCII letters are the first range.
letter-InRow : (c : ℕ) → b'a' ≤ c → c ≤ b'z' → InRow case_table c
unfolding case_table
letter-InRow c lo hi = inl (lo, hi)

to_upper-cases : (c : ℕ) → (to_upper c ≡ c) ⊎ InRow case_table c
unfolding to_upper
to_upper-cases c = ground (arith, letter-InRow c, map_range-cases case_table c)

-- toUpper is idempotent on every code unit.
pub to_upper_idempotent : (c : ℕ) → to_upper (to_upper c) ≡ to_upper c
unfolding stable
to_upper_idempotent c = elim (to_upper-cases c) [
  | inl same ↦ ap to_upper same
  | inr row ↦
      (==_iff (to_upper (to_upper c)) (to_upper c)).0
        (stable_rows_sound case_table c table_stable row)
]

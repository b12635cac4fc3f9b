-- ===== src/Name.antt =====
-- name.go: the encoding of entry names and their order.
--
-- A Go string is the list of its runes, a UTF-16 name the list of its code units.
pub mod Table
pub mod Utf16
pub mod Order
pub mod Upper
pub mod Valid
pub mod Strings
use Prim.Native.Nat.{Ordering, bit_and}
use go_cfb.Base.{
  ℕ, zero, suc, ◌+◌, ◌-◌, ◌*◌, ◌/◌, ◌%◌, ◌^◌, Bool, true, false, ◌&&◌, ◌||◌, not, List, [], ◌∷◌,
  ◌++◌, Option, none, some, ltb, leb, ◌==◌, if◌then◌else◌, length, get_elem?,
}
use go_cfb.Base.Int.{ℤ, pos, negsuc, pos_part, neg_part, sub_ℕ, ◌+ℤ◌}
use go_cfb.Base.Search.{binary_search}
use Table.{CaseRange, upper_lower, case_table}
use Utf16.{encode_utf16, append_rune}

-- strings.ContainsAny(name, "/\\:!\x00")
unfoldable pub contains_any : List ℕ → Bool
contains_any [] = false
contains_any (r ∷ rs) =
    (r == b'/') || (r == 0x5C) || (r == b':') || (r == b'!') || (r == 0) || contains_any rs

abbrev pub is_empty : List ℕ → Bool
is_empty [] = true
is_empty (x ∷ xs) = false

-- `none` is errInvalidName.
unfoldable pub encode_name : List ℕ → Option (List ℕ)
encode_name name =
    let enc = encode_utf16 name in
    if is_empty name || contains_any name
    then none
    else if ltb 31 (length enc)
    then none
    else some enc

-- The comparison of the binary search in the table.
unfoldable pub compare_range : ℕ → CaseRange → Ordering
compare_range c r =
    if ltb c r.lo then Ordering.gt else if ltb r.hi c then Ordering.lt else Ordering.eq

-- The mapping in one range. `&^1` clears the lowest bit; the sum is cut to 16 bits.
unfoldable pub apply_range : CaseRange → ℕ → ℕ
apply_range r c =
    if pos_part r.delta == pos_part upper_lower
    then r.lo + (c - r.lo) / 2 * 2
    else (c + pos_part r.delta + (2 ^ 16 - neg_part r.delta)) % 2 ^ 16

-- The search in a table, and the mapping in the range that it finds.
unfoldable pub map_range : List CaseRange → ℕ → ℕ
map_range table c = elim (get_elem? table (binary_search (compare_range c) table).0) [
  | none ↦ c
  | some r ↦ if (binary_search (compare_range c) table).1 then apply_range r c else c
]

unfoldable pub to_upper : ℕ → ℕ
to_upper c =
    if ltb c 0x80
    then if leb b'a' c && leb c b'z' then c - 0x20 else c
    else if leb 0xD800 c && leb c 0xDFFF
    then c
    else map_range case_table c

-- The loop over the units of names of one length.
unfoldable pub compare_units : List ℕ → List ℕ → ℤ
compare_units [] b = pos 0
compare_units (x ∷ xs) [] = pos 0
compare_units (x ∷ xs) (y ∷ ys) =
    let rest = compare_units xs ys in
    if to_upper x == to_upper y then rest else sub_ℕ (to_upper x) (to_upper y)

unfoldable pub compare_names : List ℕ → List ℕ → ℤ
compare_names a b = if length a == length b then compare_units a b else sub_ℕ (length a) (length b)

-- appendName
unfoldable pub append_name : List ℕ → List ℕ → List ℕ
append_name dst [] = dst
append_name dst (r ∷ rs) = append_name (dst ++ append_rune r) rs

unfoldable pub compare_names_str : List ℕ → List ℕ → ℤ
compare_names_str a b = compare_names (append_name [] a) (append_name [] b)

-- ===== src/Guid.antt =====
-- internal/guid/guid.go. A string is the list of its bytes.
pub mod RoundTrip
use go_cfb.Base.{
  ℕ, zero, suc, ◌+◌, ◌-◌, ◌*◌, ◌/◌, ◌%◌, Bool, true, false, not, ◌&&◌, ◌||◌, List, [], ◌∷◌, ◌++◌,
  map, Option, none, some, Result, ok, err, panic, ltb, leb, ◌==◌, if◌then◌else◌, length, take,
  drop, get_or,
}

pub data GuidError : Type 0 where
  invalid_guid : GuidError

abbrev pub dash : ℕ
dash = 0x2D

-- slices.Reverse of a part of the list.
unfoldable pub reverse : List ℕ → List ℕ
reverse [] = []
reverse (x ∷ xs) = reverse xs ++ (x ∷ [])

-- The three calls of slices.Reverse, on b[0:4], b[4:6] and b[6:8].
unfoldable pub swap_fields : List ℕ → List ℕ
unfolding reverse
swap_fields b =
    reverse (take 4 b) ++ (reverse (take 2 (drop 4 b)) ++ (reverse (take 2 (drop 6 b)) ++ drop 8 b))

-- encoding/hex: the digits of EncodeToString, and a digit of Decode.
unfoldable pub to_digit : ℕ → ℕ
to_digit n = if ltb n 10 then 0x30 + n else 0x57 + n

unfoldable pub hex_encode : List ℕ → List ℕ
unfolding to_digit
hex_encode [] = []
hex_encode (x ∷ xs) = to_digit (x / 16) ∷ to_digit (x % 16) ∷ hex_encode xs

unfoldable pub from_digit : ℕ → Option ℕ
from_digit c =
    if leb 0x30 c && leb c 0x39
    then some (c - 0x30)
    else if leb 0x61 c && leb c 0x66
    then some (c - 0x57)
    else if leb 0x41 c && leb c 0x46
    then some (c - 0x37)
    else none

abbrev put_digits : Option ℕ → Option ℕ → Option (List ℕ) → Option (List ℕ)
put_digits (some h) (some l) (some rest) = some ((16 * h + l) ∷ rest)
put_digits _ _ _ = none

-- hex.Decode
unfoldable pub hex_decode : List ℕ → Option (List ℕ)
unfolding from_digit
hex_decode [] = some []
hex_decode (c ∷ []) = none
hex_decode (c ∷ d ∷ cs) = put_digits (from_digit c) (from_digit d) (hex_decode cs)

-- strings.ToUpper, on ASCII.
unfoldable pub upper : ℕ → ℕ
upper c = if leb 0x61 c && leb c 0x7A then c - 0x20 else c

-- The surrounding braces are cut off.
unfoldable pub cut_braces : List ℕ → List ℕ
cut_braces s =
    if ltb 0 (length s) && get_or s 0 0 == 0x7B && get_or s (length s - 1) 0 == 0x7D
    then take (length s - 2) (drop 1 s)
    else s

abbrev has_dashes : List ℕ → Bool
has_dashes s =
    length s == 36
    && get_or s 8 0 == dash
    && get_or s 13 0 == dash
    && get_or s 18 0 == dash
    && get_or s 23 0 == dash

-- The switch of Parse: the digits, without the dashes.
unfoldable pub digits : List ℕ → Option (List ℕ)
digits s =
    if has_dashes s
    then some (
        take 8 s
        ++ (take 4 (drop 9 s) ++ (take 4 (drop 14 s) ++ (take 4 (drop 19 s) ++ drop 24 s))))
    else if length s == 32
    then some s
    else none

-- What Parse does with the digits.
unfoldable pub parse_digits : Option (List ℕ) → Result GuidError (List ℕ)
unfolding hex_decode swap_fields
parse_digits none = err invalid_guid
parse_digits (some s) = elim (hex_decode s) [
  | none ↦ err invalid_guid
  | some b ↦ ok (swap_fields b)
]

-- Parse
unfoldable pub parse : List ℕ → Result GuidError (List ℕ)
unfolding cut_braces digits parse_digits
parse s = parse_digits (digits (cut_braces s))

-- MustParse
unfoldable pub must_parse : List ℕ → Result GuidError (List ℕ)
unfolding parse
must_parse s = elim (parse s) [ ok b ↦ ok b | err e ↦ panic | _ ↦ panic ]

abbrev joined : List ℕ → List ℕ
joined h =
    take 8 h
    ++ dash ∷ take 4 (drop 8 h)
    ++ dash ∷ take 4 (drop 12 h)
    ++ dash ∷ take 4 (drop 16 h)
    ++ dash ∷ drop 20 h

-- Format
unfoldable pub format : List ℕ → List ℕ
unfolding hex_encode upper swap_fields
format b = joined (map upper (hex_encode (swap_fields b)))

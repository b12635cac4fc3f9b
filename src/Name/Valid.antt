-- ===== src/Name/Valid.antt =====
-- What encodeName accepts.
use go_cfb.Base.{
  ℕ, ◌%◌, ◌≤◌, ◌<◌, ◌≡◌, ◌≢◌, ◌∙◌, ◌↔◌, refl, List, [], ◌∷◌, ◌++◌, map, some, false, arith, length,
  length-append,
}
use mathlib.Core.Path.{ap₂}
use mathlib.Core.List.{map-append}
use go_cfb.Name.{contains_any, is_empty, encode_name}
use go_cfb.Name.Utf16.{append_rune, encode_utf16}

-- None of the runes is a slash, a backslash, a colon, an exclamation mark or NUL.
abbrev pub AllAllowed : List ℕ → Type 0
AllAllowed [] = Unit
AllAllowed (r ∷ rs) = ((r ≢ 0x2F) × (r ≢ 0x5C) × (r ≢ 0x3A) × (r ≢ 0x21) × (r ≢ 0)) × AllAllowed rs

pub contains_any-AllAllowed : (name : List ℕ) → (contains_any name ≡ false) ↔ AllAllowed name
unfolding contains_any
contains_any-AllAllowed [] = (λ e. tt, λ a. refl)
contains_any-AllAllowed (r ∷ rs) = ground (arith, contains_any-AllAllowed rs)

is_empty_iff : (name : List ℕ) → (is_empty name ≡ false) ↔ (0 < length name)
is_empty_iff [] = ground arith
is_empty_iff (r ∷ rs) = ground arith

-- A name and its encoding: not empty, of at most 31 code units, with none of the forbidden runes.
pub record IsEncoded (name enc : List ℕ) : Type 0 where
  pub nonempty : 0 < length name
  pub allowed : AllAllowed name
  pub code : enc ≡ encode_utf16 name
  pub short : length enc ≤ 31

-- encodeName accepts just the names with a rune, without a slash, backslash, colon, exclamation mark
-- or NUL, and of at most 31 code units, with their UTF-16 encoding.
pub encode_name_iff : (name enc : List ℕ) → (encode_name name ≡ some enc) ↔ IsEncoded name enc
unfolding encode_name
encode_name_iff name enc = ground (arith, is_empty_iff name, contains_any-AllAllowed name)

-- Every valid rune has code units of 16 bits, one at least.
map-append_rune : (r : ℕ) → map (λ v. v % 65536) (append_rune r) ≡ append_rune r
unfolding append_rune
map-append_rune r = ground arith

pub map-encode_utf16 : (s : List ℕ) → map (λ v. v % 65536) (encode_utf16 s) ≡ encode_utf16 s
unfolding encode_utf16
map-encode_utf16 [] = refl
map-encode_utf16 (r ∷ rs) =
    map-append _ (append_rune r) (encode_utf16 rs)
    ∙ ap₂ (λ xs ys. xs ++ ys) (map-append_rune r) (map-encode_utf16 rs)

length-append_rune : (r : ℕ) → 1 ≤ length (append_rune r)
unfolding append_rune
length-append_rune r = ground arith

pub length-encode_utf16 : (s : List ℕ) → 0 < length s → 1 ≤ length (encode_utf16 s)
unfolding encode_utf16
length-encode_utf16 [] h = absurd (omega arith)
length-encode_utf16 (r ∷ rs) h =
    omega (arith, length-append_rune r, length-append (append_rune r) (encode_utf16 rs))

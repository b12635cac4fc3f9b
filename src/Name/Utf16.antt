-- ===== src/Name/Utf16.antt =====
-- unicode/utf16 of the Go library, as name.go and reader.go use it.
use native.Mathlib.Decide.{dec_lt}
use go_cfb.Base.{
  ℕ, ◌+◌, ◌-◌, ◌*◌, ◌/◌, ◌%◌, ◌<◌, ◌≤◌, ◌≡◌, ◌⊎◌, Bool, ◌&&◌, List, [], ◌∷◌, ◌++◌, ap, refl, ◌∙◌,
  arith, ltb, leb, if◌then◌else◌,
}

abbrev pub replacement : ℕ
replacement = 0xFFFD

abbrev pub is_surrogate : ℕ → Bool
is_surrogate r = leb 0xD800 r && ltb r 0xE000

-- The code units of one rune; a surrogate and a number past the last rune are replaced.
unfoldable pub append_rune : ℕ → List ℕ
append_rune r =
    if ltb r 0x10000
    then if is_surrogate r then replacement ∷ [] else r ∷ []
    else if leb r 0x10FFFF
    then (0xD800 + (r - 0x10000) / 1024 % 1024) ∷ (0xDC00 + (r - 0x10000) % 1024) ∷ []
    else replacement ∷ []

unfoldable pub encode_utf16 : List ℕ → List ℕ
encode_utf16 [] = []
encode_utf16 (r ∷ rs) = append_rune r ++ encode_utf16 rs

-- A high and a low surrogate make one rune, a lone surrogate is replaced.
unfoldable pub decode_utf16 : List ℕ → List ℕ
decode_utf16 [] = []
decode_utf16 (u ∷ []) = (if is_surrogate u then replacement else u) ∷ []
decode_utf16 (u ∷ v ∷ us) =
    let pair = ((u - 0xD800) * 1024 + (v - 0xDC00) + 0x10000) ∷ decode_utf16 us in
    let single = (if is_surrogate u then replacement else u) ∷ decode_utf16 (v ∷ us) in
    if leb 0xD800 u && ltb u 0xDC00 && leb 0xDC00 v && ltb v 0xE000 then pair else single

-- A rune of a valid string.
abbrev pub IsRune : ℕ → Type 0
IsRune r = (r < 0xD800) ⊎ ((0xE000 ≤ r) × (r ≤ 0x10FFFF))

abbrev pub AllRunes : List ℕ → Type 0
AllRunes [] = Unit
AllRunes (r ∷ rs) = IsRune r × AllRunes rs

decode-cons :
    (u : ℕ) (us : List ℕ)
    → (u < 0xD800) ⊎ (0xE000 ≤ u)
    → decode_utf16 (u ∷ us) ≡ u ∷ decode_utf16 us
unfolding decode_utf16
decode-cons u [] h = ground arith
decode-cons u (v ∷ us) h = ground arith

decode_pair :
    (u v : ℕ) (us : List ℕ)
    → 0xD800 ≤ u
    → u < 0xDC00
    → 0xDC00 ≤ v
    → v < 0xE000
    → decode_utf16 (u ∷ v ∷ us) ≡ ((u - 0xD800) * 1024 + (v - 0xDC00) + 0x10000) ∷ decode_utf16 us
unfolding decode_utf16
decode_pair u v us a b c d = ground arith

split_rune :
    (r : ℕ)
    → 0x10000 ≤ r
    → r ≤ 0x10FFFF
    → (0xD800 + (r - 0x10000) / 1024 % 1024 - 0xD800) * 1024
        + (0xDC00 + (r - 0x10000) % 1024 - 0xDC00)
        + 0x10000
      ≡ r
split_rune r a b = omega arith

append_high :
    (r : ℕ)
    → 0x10000 ≤ r
    → r ≤ 0x10FFFF
    → append_rune r ≡ (0xD800 + (r - 0x10000) / 1024 % 1024) ∷ (0xDC00 + (r - 0x10000) % 1024) ∷ []
unfolding append_rune
append_high r a b = ground arith

append_low : (r : ℕ) → r < 0x10000 → (r < 0xD800) ⊎ (0xE000 ≤ r) → append_rune r ≡ r ∷ []
unfolding append_rune
append_low r a b = ground arith

decode-append_rune :
    (r : ℕ) (us : List ℕ) → IsRune r → decode_utf16 (append_rune r ++ us) ≡ r ∷ decode_utf16 us
decode-append_rune r us h = elim (dec_lt r 0x10000) [
  | yes low ↦ rw (append_low r low (omega arith)) (decode-cons r us (omega arith))
  | no high ↦ rw (append_high r (omega arith) (omega arith)) (
      decode_pair (0xD800 + (r - 0x10000) / 1024 % 1024) (0xDC00 + (r - 0x10000) % 1024) us
        (omega arith) (omega arith) (omega arith) (omega arith)
      ∙ ap (λ x. x ∷ decode_utf16 us) (split_rune r (omega arith) (omega arith)))
]

-- Every valid string survives the encoding.
pub decode_utf16-encode_utf16 : (s : List ℕ) → AllRunes s → decode_utf16 (encode_utf16 s) ≡ s
unfolding encode_utf16
decode_utf16-encode_utf16 [] h = unfold decode_utf16 in refl
decode_utf16-encode_utf16 (r ∷ rs) (h, hs) =
    decode-append_rune r (encode_utf16 rs) h ∙ ap (λ s. r ∷ s) (decode_utf16-encode_utf16 rs hs)

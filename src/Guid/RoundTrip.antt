-- ===== src/Guid/RoundTrip.antt =====
-- Parse reads back what Format writes.
use go_cfb.Base.{
  ℕ, suc, ◌+◌, ◌*◌, ◌/◌, ◌%◌, ◌<◌, ◌≡◌, refl, sym, ap, ◌∙◌, false, List, [], ◌∷◌, map, some, ok,
  arith, ◌==◌, length,
}
use mathlib.Core.Path.{subst}
use go_cfb.Guid.{
  reverse, swap_fields, to_digit, hex_encode, from_digit, hex_decode, upper, cut_braces, digits,
  parse_digits, parse, format,
}

-- Bytes.
abbrev pub AllBytes : List ℕ → Type 0
AllBytes [] = Unit
AllBytes (x ∷ xs) = (x < 256) × AllBytes xs

from_digit-upper : (n : ℕ) → n < 16 → from_digit (upper (to_digit n)) ≡ some n
unfolding from_digit upper to_digit
from_digit-upper n small = ground (arith, small)

hex_decode-upper : (b : List ℕ) → AllBytes b → hex_decode (map upper (hex_encode b)) ≡ some b
unfolding hex_decode hex_encode
hex_decode-upper [] all = refl
hex_decode-upper (x ∷ xs) (small, all) =
    let whole : 16 * (x / 16) + x % 16 ≡ x = omega arith in
    rw
      (
        from_digit-upper (x / 16) (omega (arith, small)),
        from_digit-upper (x % 16) (omega arith),
        hex_decode-upper xs all,
      )
      (ap (λ y. some (y ∷ xs)) whole)

-- A list that is not empty.
uncons :
    (b : List ℕ) (n : ℕ)
    → length b ≡ suc n
    → (x : ℕ) × (xs : List ℕ) × (b ≡ x ∷ xs) × (length xs ≡ n)
uncons [] n e = absurd (omega (arith, e))
uncons (x ∷ xs) n e = (x, xs, refl, omega (arith, e))

uncons4 :
    (b : List ℕ) (n : ℕ)
    → length b ≡ 4 + n
    → (w : ℕ) × (x : ℕ) × (y : ℕ) × (z : ℕ) × (xs : List ℕ) × (b ≡ w ∷ x ∷ y ∷ z ∷ xs)
      × (length xs ≡ n)
uncons4 b n e =
    let (w, b1, e1, n1) = uncons b (3 + n) (omega (arith, e)) in
    let (x, b2, e2, n2) = uncons b1 (2 + n) (omega (arith, n1)) in
    let (y, b3, e3, n3) = uncons b2 (1 + n) (omega (arith, n2)) in
    let (z, b4, e4, n4) = uncons b3 n (omega (arith, n3)) in
    (w, x, y, z, b4, e1 ∙ ap (λ t. w ∷ t) (e2 ∙ ap (λ t. x ∷ t) (e3 ∙ ap (λ t. y ∷ t) e4)), n4)

empty_lem : (b : List ℕ) → length b ≡ 0 → b ≡ []
empty_lem [] e = refl
empty_lem (x ∷ xs) e = absurd (omega (arith, e))

no_brace : (n : ℕ) → n < 16 → (upper (to_digit n) == 0x7B) ≡ false
unfolding upper to_digit
no_brace n small = ground (arith, small)

parse_digits_lem :
    (s b : List ℕ) → hex_decode s ≡ some b → parse_digits (some s) ≡ ok (swap_fields b)
unfolding parse_digits
parse_digits_lem s b e = rw (e, parse_digits) refl

parse-format_16 :
    (x0 x1 x2 x3 x4 x5 x6 x7 x8 x9 x10 x11 x12 x13 x14 x15 : ℕ)
    → AllBytes
        (x0 ∷ x1 ∷ x2 ∷ x3 ∷ x4 ∷ x5 ∷ x6 ∷ x7 ∷ x8 ∷ x9 ∷ x10 ∷ x11 ∷ x12 ∷ x13 ∷ x14 ∷ x15 ∷ [])
    → parse (
        format (
          x0 ∷ x1 ∷ x2 ∷ x3 ∷ x4 ∷ x5 ∷ x6 ∷ x7 ∷ x8 ∷ x9 ∷ x10 ∷ x11 ∷ x12 ∷ x13 ∷ x14 ∷ x15 ∷ []))
      ≡ ok
          (x0 ∷ x1 ∷ x2 ∷ x3 ∷ x4 ∷ x5 ∷ x6 ∷ x7 ∷ x8 ∷ x9 ∷ x10 ∷ x11 ∷ x12 ∷ x13 ∷ x14 ∷ x15 ∷ [])
unfolding parse parse_digits digits cut_braces format swap_fields reverse hex_encode
parse-format_16 x0 x1 x2 x3 x4 x5 x6 x7 x8 x9 x10 x11 x12 x13 x14 x15
      (
        s0,
        (
          s1,
          (
            s2,
            (s3, (s4, (s5, (s6, (s7, (s8, (s9, (s10, (s11, (s12, (s13, (s14, (s15, end))))))))))))),
          ),
        ),
      ) =
    let g =
      x3 ∷ x2 ∷ x1 ∷ x0 ∷ x5 ∷ x4 ∷ x7 ∷ x6 ∷ x8 ∷ x9 ∷ x10 ∷ x11 ∷ x12 ∷ x13 ∷ x14 ∷ x15 ∷ [] in
    let text =
      format (
        x0 ∷ x1 ∷ x2 ∷ x3 ∷ x4 ∷ x5 ∷ x6 ∷ x7 ∷ x8 ∷ x9 ∷ x10 ∷ x11 ∷ x12 ∷ x13 ∷ x14 ∷ x15 ∷ []) in
    let cut : cut_braces text ≡ text = rw (no_brace (x3 / 16) (omega (arith, s3))) refl in
    let found : digits text ≡ some (map upper (hex_encode g)) = refl in
    let decoded = hex_decode-upper g (
      s3,
      (
        s2,
        (
          s1,
          (s0, (s5, (s4, (s7, (s6, (s8, (s9, (s10, (s11, (s12, (s13, (s14, (s15, end))))))))))))),
        ),
      ),
    ) in
    ap (λ t. parse_digits (digits t)) cut
    ∙ ap parse_digits found
    ∙ parse_digits_lem (map upper (hex_encode g)) g decoded

-- Parse gives back the 16 bytes of a GUID from the text that Format writes for them.
pub parse-format : (b : List ℕ) → length b ≡ 16 → AllBytes b → parse (format b) ≡ ok b
parse-format b e all =
    let (x0, x1, x2, x3, b1, e1, n1) = uncons4 b 12 e in
    let (x4, x5, x6, x7, b2, e2, n2) = uncons4 b1 8 n1 in
    let (x8, x9, x10, x11, b3, e3, n3) = uncons4 b2 4 n2 in
    let (x12, x13, x14, x15, b4, e4, n4) = uncons4 b3 0 n3 in
    let front : List ℕ → List ℕ = λ t. x0 ∷ x1 ∷ x2 ∷ x3 ∷ t in
    let second : List ℕ → List ℕ = λ t. x4 ∷ x5 ∷ x6 ∷ x7 ∷ t in
    let third : List ℕ → List ℕ = λ t. x8 ∷ x9 ∷ x10 ∷ x11 ∷ t in
    let last : List ℕ → List ℕ = λ t. x12 ∷ x13 ∷ x14 ∷ x15 ∷ t in
    let shape : b
        ≡ x0 ∷ x1 ∷ x2 ∷ x3 ∷ x4 ∷ x5 ∷ x6 ∷ x7 ∷ x8 ∷ x9 ∷ x10 ∷ x11 ∷ x12 ∷ x13 ∷ x14 ∷ x15 ∷ [] =
      e1 ∙ ap front (e2 ∙ ap second (e3 ∙ ap third (e4 ∙ ap last (empty_lem b4 n4)))) in
    subst (λ c. parse (format c) ≡ ok c) (sym shape)
      (parse-format_16 x0 x1 x2 x3 x4 x5 x6 x7 x8 x9 x10 x11 x12 x13 x14 x15
        (subst AllBytes shape all))

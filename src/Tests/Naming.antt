-- ===== src/Tests/Naming.antt =====
-- Runs of the code for names and times.
use go_cfb.Base.{ℕ, ◌≡◌, ◌↔◌, inl, inr, refl, arith, List, [], ◌∷◌, some, ok, ◌⊎◌}
use go_cfb.Base.Int.{pos}
use go_cfb.FileTime.{Time, decode, encode}
use go_cfb.FileTime.RoundTrip.{encode-decode, decode-encode}
use go_cfb.Name.{append_name, encode_name, compare_names, to_upper}
use go_cfb.Name.Order.{
  Before, ShortLexLess, folded, compare_names-negative, compare_names-zero, Before-order,
}
use go_cfb.Name.Upper.{to_upper_idempotent}
use go_cfb.Name.Valid.{IsEncoded, encode_name_iff}
use go_cfb.Name.Utf16.{decode_utf16}
use go_cfb.Name.Strings.{decode_utf16-append_name}

abbrev ab : List ℕ
ab = 0x61 ∷ 0x62 ∷ []

abbrev upper_ab : List ℕ
upper_ab = 0x41 ∷ 0x42 ∷ []

abbrev b : List ℕ
b = 0x62 ∷ []

compare_names-negative_example : Before b ab ↔ ShortLexLess b ab
compare_names-negative_example = compare_names-negative b ab

compare_names-zero_example : (compare_names ab upper_ab ≡ pos 0) ↔ (folded ab ≡ folded upper_ab)
compare_names-zero_example = compare_names-zero ab upper_ab

Before-order_example :
    (Before b ab → Before ab upper_ab → Before b upper_ab)
    × (Before b ab ⊎ (folded b ≡ folded ab) ⊎ Before ab b)
Before-order_example = Before-order b ab upper_ab

to_upper_idempotent_example : to_upper (to_upper 0x101) ≡ to_upper 0x101
to_upper_idempotent_example = to_upper_idempotent 0x101

encode_name_iff_example : (encode_name ab ≡ some ab) ↔ IsEncoded ab ab
encode_name_iff_example = encode_name_iff ab ab

-- "a" and U+1F600.
decode_utf16-append_name_example :
    decode_utf16 (append_name [] (0x61 ∷ 0x1F600 ∷ [])) ≡ 0x61 ∷ 0x1F600 ∷ []
decode_utf16-append_name_example =
    decode_utf16-append_name (0x61 ∷ 0x1F600 ∷ [])
      (inl (omega arith), (inr (omega arith, omega arith), tt))

encode-decode_example : encode (decode 132000000000000001) ≡ ok 132000000000000001
encode-decode_example = encode-decode 132000000000000001 (omega arith)

abbrev noon : Time
noon = record { sec = pos 1600000000; nsec = 123456789 }

encoded : encode noon ≡ ok 132444736001234567
unfolding encode
encoded = refl

decode-encode_example :
    decode 132444736001234567 ≡ record { sec = pos 1600000000; nsec = 123456700 }
decode-encode_example = decode-encode noon 132444736001234567 (omega arith) encoded (omega arith)

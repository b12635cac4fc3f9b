-- ===== src/Name/Strings.antt =====
-- appendName and compareNamesStr: names given as strings.
use go_cfb.Base.{ℕ, ◌≡◌, ◌↔◌, sym, ap, ◌∙◌, List, [], ◌∷◌, ◌++◌}
use mathlib.Core.List.{append_assoc, append-nil}
use go_cfb.Base.Int.{pos}
use go_cfb.Name.{append_name, compare_names_str}
use go_cfb.Name.Utf16.{AllRunes, append_rune, encode_utf16, decode_utf16, decode_utf16-encode_utf16}
use go_cfb.Name.Order.{folded, compare_names-zero}

append_name-encode_utf16 : (dst s : List ℕ) → append_name dst s ≡ dst ++ encode_utf16 s
unfolding append_name encode_utf16
append_name-encode_utf16 dst [] = sym (append-nil dst)
append_name-encode_utf16 dst (r ∷ rs) =
    append_name-encode_utf16 (dst ++ append_rune r) rs
    ∙ append_assoc dst (append_rune r) (encode_utf16 rs)

-- appendName onto an empty buffer gives code units that decode to the string, if it is valid.
pub decode_utf16-append_name : (s : List ℕ) → AllRunes s → decode_utf16 (append_name [] s) ≡ s
decode_utf16-append_name s valid =
    ap decode_utf16 (append_name-encode_utf16 [] s) ∙ decode_utf16-encode_utf16 s valid

-- compareNamesStr answers 0 just for strings whose UTF-16 forms agree up to case.
pub compare_names_str-zero :
    (a b : List ℕ)
    → (compare_names_str a b ≡ pos 0) ↔ (folded (encode_utf16 a) ≡ folded (encode_utf16 b))
unfolding compare_names_str
compare_names_str-zero a b =
    rw (append_name-encode_utf16 [] a, append_name-encode_utf16 [] b)
      (compare_names-zero (encode_utf16 a) (encode_utf16 b))

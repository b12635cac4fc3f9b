-- ===== src/Oleps/Encode/Values.antt =====
-- The decoders of values read back what the encoders write.
use go_cfb.Base.{
  ℕ, ◌+◌, ◌-◌, ◌^◌, ◌≤◌, ◌<◌, ◌≡◌, refl, sym, ap, ◌∙◌, false, List, ◌++◌, some, ok, ltb, ◌==◌,
  arith, Bool-cases, inl, inr, if◌then◌else◌, length, length-append, drop,
}
use mathlib.Core.List.{append_assoc}
use go_cfb.Base.Slices.{take_left, drop_left, drop-drop}
use go_cfb.Bytes.{put_u16, put_u32, put_u64}
use go_cfb.Bytes.Laws.{length-put_u16, length-put_u32, length-put_u64}
use go_cfb.FileTime as F
use go_cfb.FileTime.{Time}
use go_cfb.Oleps.{cp_win_unicode, Value, i2, i4, ui4, lpstr, file_time, property_type}
use go_cfb.Oleps.Codepage.{Charset, Texts}
use go_cfb.Oleps.Decode.{take_bytes, little_endian, take_uint, cut_suffix, take_string, take_value}
use go_cfb.Oleps.Encode.{patch32, terminator, put_string, put_value}

pub take_bytes-append :
    (s rest : List ℕ) (n : ℕ) → length s ≡ n → take_bytes n (s ++ rest) ≡ ok (s, rest)
unfolding take_bytes
take_bytes-append s rest n e =
    let long : ltb (length (s ++ rest)) n ≡ false = ground (arith, e, length-append s rest) in
    rw (long, take_left n s rest e, drop_left n s rest e) refl

pub little_endian-put_u16 : (v : ℕ) → v < 2 ^ 16 → little_endian (put_u16 v) ≡ v
unfolding little_endian put_u16
little_endian-put_u16 v small = omega arith

pub little_endian-put_u32 : (v : ℕ) → v < 2 ^ 32 → little_endian (put_u32 v) ≡ v
unfolding little_endian put_u32
little_endian-put_u32 v small = omega arith

little_endian-put_u64 : (v : ℕ) → v < 2 ^ 64 → little_endian (put_u64 v) ≡ v
unfolding little_endian put_u64 put_u32
little_endian-put_u64 v small = omega arith

pub take_uint-append :
    (s rest : List ℕ) (n v : ℕ)
    → length s ≡ n
    → little_endian s ≡ v
    → take_uint n (s ++ rest) ≡ ok (v, rest)
unfolding take_uint
take_uint-append s rest n v e f = rw (take_bytes-append s rest n e, f) refl

-- What the encoder writes for a value that can be encoded, and read back.
abbrev pub ValueCode : Texts → ℕ → Charset → Value → List ℕ → Type 0
ValueCode texts cp enc (i2 n) code = (n < 2 ^ 16) × (code ≡ put_u16 n)
ValueCode texts cp enc (i4 n) code = (n < 2 ^ 32) × (code ≡ put_u32 n)
ValueCode texts cp enc (ui4 n) code = (n < 2 ^ 32) × (code ≡ put_u32 n)
ValueCode texts cp enc (lpstr s) code =
    (out : List ℕ) × (texts.from_utf8 enc s ≡ some out)
    × (texts.to_utf8 enc out ≡ some s)
    × (length out + 2 < 2 ^ 32)
    × (code ≡ put_u32 (length out + length (terminator cp)) ++ (out ++ terminator cp))
ValueCode texts cp enc (file_time t) code =
    (ft : ℕ) × (F.encode t ≡ ok ft) × (F.decode ft ≡ t) × (ft < 2 ^ 64) × (code ≡ put_u64 ft)

-- A patch of four bytes behind `a`.
pub patch32-append :
    (a old b : List ℕ) (pos v : ℕ)
    → length a ≡ pos
    → length old ≡ 4
    → patch32 pos v (a ++ (old ++ b)) ≡ ok (a ++ (put_u32 v ++ b))
unfolding patch32
patch32-append a old b pos v e f =
    let size = length-append a (old ++ b) in
    let long : ltb (length (a ++ (old ++ b))) (pos + 4) ≡ false =
      ground (arith, e, f, size, length-append old b) in
    let front = take_left pos a (old ++ b) e in
    let back : drop (pos + 4) (a ++ (old ++ b)) ≡ b =
      sym (drop-drop 4 pos (a ++ (old ++ b)))
      ∙ ap (drop 4) (drop_left pos a (old ++ b) e)
      ∙ drop_left 4 old b f in
    rw (long, front, back) refl

module _ (texts : Texts) (cp : ℕ) (enc : Charset) where
  term-pos : (0 < length (terminator cp)) × (length (terminator cp) ≤ 2)
  term-pos = elim (Bool-cases (cp == cp_win_unicode)) [
    | inl e ↦ rw e (omega arith, omega arith)
    | inr e ↦ rw e (omega arith, omega arith)
  ]

  put_string_lem :
      (s out buf : List ℕ)
      → texts.from_utf8 enc s ≡ some out
      → put_string texts cp enc s buf
        ≡ ok (buf ++ (put_u32 (length out + length (terminator cp)) ++ (out ++ terminator cp)))
  unfolding put_string
  put_string_lem s out buf e =
      let term = terminator cp in
      let shape : ((buf ++ put_u32 0) ++ out) ++ term ≡ buf ++ (put_u32 0 ++ (out ++ term)) =
        append_assoc (buf ++ put_u32 0) out term ∙ append_assoc buf (put_u32 0) (out ++ term) in
      let size : length (buf ++ (put_u32 0 ++ (out ++ term))) - length buf - 4
          ≡ length out + length term =
        omega (
          arith,
          length-append buf (put_u32 0 ++ (out ++ term)),
          length-append (put_u32 0) (out ++ term),
          length-put_u32 0,
          length-append out term,
        ) in
      rw e (
        rw (shape, size)
          (patch32-append buf (put_u32 0) (out ++ term) (length buf) _ refl (length-put_u32 0)))

  -- The encoder of a value appends its code.
  pub put_value_lem :
      (v : Value) (code buf : List ℕ)
      → ValueCode texts cp enc v code
      → put_value texts cp enc v buf ≡ ok (buf ++ code)
  unfolding put_value
  put_value_lem (i2 n) code buf (small, e) = rw e refl
  put_value_lem (i4 n) code buf (small, e) = rw e refl
  put_value_lem (ui4 n) code buf (small, e) = rw e refl
  put_value_lem (lpstr s) code buf (out, from, to, small, e) = rw e (put_string_lem s out buf from)
  put_value_lem (file_time t) code buf (ft, encoded, decoded, small, e) = rw (e, encoded) refl

  cut_suffix_lem :
      (out : List ℕ) → cut_suffix (out ++ terminator cp) (length (terminator cp)) ≡ some out
  unfolding cut_suffix little_endian
  cut_suffix_lem out =
      let term = terminator cp in
      let size = length-append out term in
      let long : ltb (length (out ++ term)) (length term) ≡ false = ground (arith, size) in
      let n : length (out ++ term) - length term ≡ length out = omega (arith, size) in
      let zeros : little_endian term ≡ 0 = elim (Bool-cases (cp == cp_win_unicode)) [
        | inl e ↦ rw e refl
        | inr e ↦ rw e refl
      ] in
      rw
        (long, n, drop_left (length out) out term refl, take_left (length out) out term refl, zeros)
        refl

  zeros-terminator : (if cp == cp_win_unicode then 2 else 1) ≡ length (terminator cp)
  zeros-terminator = elim (Bool-cases (cp == cp_win_unicode)) [
    | inl e ↦ rw e refl
    | inr e ↦ rw e refl
  ]

  take_string_lem :
      (s out rest : List ℕ)
      → texts.to_utf8 enc out ≡ some s
      → length out + 2 < 2 ^ 32
      → take_string texts cp enc
          (put_u32 (length out + length (terminator cp)) ++ ((out ++ terminator cp) ++ rest))
        ≡ ok (s, rest)
  unfolding take_string
  take_string_lem s out rest to small =
      let term = terminator cp in
      let n = length out + length term in
      let (some_term, short_term) = term-pos in
      let head =
        take_uint-append (put_u32 n) ((out ++ term) ++ rest) 4 n (length-put_u32 n)
          (little_endian-put_u32 n (omega (arith, small, short_term))) in
      let used : (n == 0) ≡ false = ground (arith, some_term) in
      let raw = take_bytes-append (out ++ term) rest n (length-append out term) in
      rw head (rw used (rw raw (rw (zeros-terminator, cut_suffix_lem out) (rw to refl))))

  -- The decoder of the value's type reads it back.
  pub take_value-code :
      (v : Value) (code rest : List ℕ)
      → ValueCode texts cp enc v code
      → take_value texts cp enc (property_type v) (code ++ rest) ≡ ok (v, rest)
  unfolding take_value property_type
  take_value-code (i2 n) code rest (small, e) =
      rw
        (
          e,
          take_uint-append (put_u16 n) rest 2 n (length-put_u16 n) (little_endian-put_u16 n small),
        )
        refl
  take_value-code (i4 n) code rest (small, e) =
      rw
        (
          e,
          take_uint-append (put_u32 n) rest 4 n (length-put_u32 n) (little_endian-put_u32 n small),
        )
        refl
  take_value-code (ui4 n) code rest (small, e) =
      rw
        (
          e,
          take_uint-append (put_u32 n) rest 4 n (length-put_u32 n) (little_endian-put_u32 n small),
        )
        refl
  take_value-code (lpstr s) code rest (out, from, to, small, e) =
      let n = length out + length (terminator cp) in
      let shape : code ++ rest ≡ put_u32 n ++ ((out ++ terminator cp) ++ rest) =
        ap (λ c. c ++ rest) e ∙ append_assoc (put_u32 n) (out ++ terminator cp) rest in
      rw (shape, take_string_lem s out rest to small) refl
  take_value-code (file_time t) code rest (ft, encoded, decoded, small, e) =
      rw
        (
          e,
          take_uint-append (put_u64 ft) rest 8 ft (length-put_u64 ft)
              (little_endian-put_u64 ft small),
        )
        (ap (λ x. ok (file_time x, rest)) decoded)

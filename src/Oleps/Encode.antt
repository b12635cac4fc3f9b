-- ===== src/Oleps/Encode.antt =====
-- encode.go, and the encoders of value.go. The capacity of the buffer is left out.
pub mod Values
pub mod Layout
pub mod Packets
pub mod Written
pub mod Sets
pub mod RoundTrip
use go_cfb.Base.{
  ℕ, zero, suc, ◌+◌, ◌-◌, ◌*◌, ◌%◌, Bool, ◌||◌, List, [], ◌∷◌, ◌++◌, Option, none, some, Result, ok,
  err, panic, ◌>>=◌, ◌>>◌, fail_if, or_err, map_err, ltb, ◌==◌, if◌then◌else◌, length, take, drop,
  replicate,
}
use go_cfb.Bytes.{put_u16, put_u32, put_u64}
use go_cfb.FileTime as F
use go_cfb.Oleps.{
  cp_win_unicode, byte_order, Value, i2, i4, ui4, lpstr, file_time, property_type, Property,
  PropertySet, PropertySetStream, OlepsError, many_sets, named_properties, unknown_code_page,
  set_count, set_version, code_page_type, code_page_missing, cannot_encode, bad_time, Coded,
}
use go_cfb.Oleps.Codepage.{Charset, Texts, codepage_encoding}

-- encoder.align. The loop ends after three rounds at most.
unfoldable pub align_loop : ℕ → List ℕ → List ℕ
align_loop zero buf = buf
align_loop (suc n) buf =
    let next = align_loop n (buf ++ 0 ∷ []) in if length buf % 4 == 0 then buf else next

unfoldable pub align : List ℕ → List ℕ
unfolding align_loop
align buf = align_loop 3 buf

-- encoder.patch32, which panics out of range.
unfoldable pub patch32 : ℕ → ℕ → List ℕ → Coded (List ℕ)
patch32 pos v buf =
    if ltb (length buf) (pos + 4)
    then panic
    else ok (take pos buf ++ (put_u32 v ++ drop (pos + 4) buf))

abbrev pub terminator : ℕ → List ℕ
terminator cp = if cp == cp_win_unicode then 0 ∷ 0 ∷ [] else 0 ∷ []

-- The encoder of a FileTime, behind filetime.Encode.
unfoldable pub put_ticks : Result F.TimeError ℕ → List ℕ → Coded (List ℕ)
put_ticks (ok ft) buf = ok (buf ++ put_u64 ft)
put_ticks _ buf = err bad_time

-- The code page of the set that is written, and its encoding.
module _ (texts : Texts) (cp : ℕ) (enc : Charset) where
  -- encoder.codePageString
  unfoldable pub put_string : List ℕ → List ℕ → Coded (List ℕ)
  unfolding patch32
  put_string s buf = do
    out ← or_err (texts.from_utf8 enc s) cannot_encode
    let written = ((buf ++ put_u32 0) ++ out) ++ terminator cp
    patch32 (length buf) (length written - length buf - 4) written

  -- The method `encode` of the coder of the value's type.
  unfoldable pub put_value : Value → List ℕ → Coded (List ℕ)
  unfolding put_string put_ticks
  put_value (i2 n) buf = ok (buf ++ put_u16 n)
  put_value (i4 n) buf = ok (buf ++ put_u32 n)
  put_value (ui4 n) buf = ok (buf ++ put_u32 n)
  put_value (lpstr s) buf = put_string s buf
  put_value (file_time t) buf = put_ticks (F.encode t) buf

  -- encoder.property: `i` is its index in the table, and `start` is setOff. Every value has a type,
  -- and every type of value a coder.
  unfoldable pub put_property : ℕ → ℕ → Property → List ℕ → Coded (List ℕ)
  unfolding put_value patch32 align
  put_property start i p buf = do
    fail_if (p.id == 0) named_properties
    let aligned = align buf
    let pos = start + 8 + i * 8
    named ← patch32 pos p.id aligned
    placed ← patch32 (pos + 4) (length named - start) named
    put_value p.value ((placed ++ put_u16 (property_type p.value)) ++ put_u16 0)

  unfoldable pub put_property_list : ℕ → ℕ → List Property → List ℕ → Coded (List ℕ)
  unfolding put_property
  put_property_list start i [] buf = ok buf
  put_property_list start i (p ∷ ps) buf = do
    buf' ← put_property start i p buf
    put_property_list start (i + 1) ps buf'

-- The first pass of encoder.properties: the value of the first property with ID 1.
unfoldable pub as_code_page : Value → Coded ℕ
as_code_page (i2 n) = ok n
as_code_page _ = err code_page_type

unfoldable pub find_code_page : List Property → Coded ℕ
unfolding as_code_page
find_code_page [] = err code_page_missing
find_code_page (p ∷ ps) =
    let rest = find_code_page ps in if p.id == 1 then as_code_page p.value else rest

module _ (texts : Texts) where
  -- encoder.properties
  unfoldable pub put_properties : List Property → List ℕ → Coded (List ℕ)
  unfolding find_code_page put_property_list align patch32
  put_properties props buf = do
    let start = length buf
    cp ← find_code_page props
    enc ← or_err (codepage_encoding cp) (unknown_code_page cp)
    let table = ((buf ++ put_u32 0) ++ put_u32 (length props)) ++ replicate (8 * length props) 0
    written ← put_property_list texts cp enc start 0 props table
    patch32 start (length (align written) - start) (align written)

  -- The FMTIDs, with room for the offsets, whose places are returned.
  unfoldable pub put_fmtids : List PropertySet → List ℕ → List ℕ × List ℕ
  put_fmtids [] buf = (buf, [])
  put_fmtids (s ∷ ss) buf =
      let b = buf ++ s.fmtid in
      let rest = put_fmtids ss (b ++ put_u32 0) in (rest.0, length b ∷ rest.1)

  -- The loop that writes the sets, each behind the patch of its offset.
  unfoldable pub put_sets : List PropertySet → List ℕ → List ℕ → Coded (List ℕ)
  unfolding patch32 put_properties
  put_sets (s ∷ ss) (at ∷ places) buf = do
    placed ← patch32 at (length buf) buf
    written ← put_properties s.properties placed
    put_sets ss places written
  put_sets _ _ buf = ok buf

  -- Marshal
  unfoldable pub marshal : PropertySetStream → Coded (List ℕ)
  unfolding put_fmtids put_sets
  marshal s = do
    let count = length s.property_sets
    fail_if (count == 0 || ltb 2 count) set_count
    fail_if (count == 2) many_sets
    fail_if (ltb 1 s.version) set_version
    let head =
        put_u16 byte_order
        ++ (put_u16 s.version ++ (put_u32 s.system_identifier ++ (s.clsid ++ put_u32 count)))
    let placed = put_fmtids s.property_sets head
    put_sets s.property_sets placed.1 placed.0

-- ===== src/Oleps/Decode.antt =====
-- decode.go, and the decoders of value.go.
pub mod Total
use go_cfb.Base.{
  ℕ, zero, suc, ◌+◌, ◌-◌, ◌*◌, ◌<◌, Bool, not, ◌&&◌, ◌||◌, List, [], ◌∷◌, Option, none, some,
  Result, ok, err, panic, stuck, ◌>>=◌, ◌>>◌, fail_if, or_err, map_err, ltb, leb, ◌==◌,
  if◌then◌else◌, length, take, drop,
}
use go_cfb.FileTime as F
use go_cfb.Oleps.{
  cp_win_unicode, byte_order, vt_i2, vt_i4, vt_ui4, vt_lpstr, vt_file_time, Value, i2, i4, ui4,
  lpstr, file_time, Property, PropertySet, PropertySetStream, OlepsError, bad_byte_order,
  bad_version, bad_count, bad_offset, bad_size, bad_property_offset, bad_code_page, no_code_page,
  truncated, bad_padding, no_terminator, bad_string, many_sets, named_properties, unknown_code_page,
  unknown_type, unexpected_eof, Coded,
}
use go_cfb.Oleps.Codepage.{Charset, Texts, codepage_encoding}

-- A read of the decoder: the value, and what is left of `buf`.
abbrev pub Decodes : Type 0 → Type 0
Decodes A = List ℕ → Coded (A × List ℕ)

-- decoder.bytes
unfoldable pub take_bytes : ℕ → Decodes (List ℕ)
take_bytes n b = if ltb (length b) n then err unexpected_eof else ok (take n b, drop n b)

-- binary.LittleEndian
unfoldable pub little_endian : List ℕ → ℕ
little_endian [] = 0
little_endian (x ∷ xs) = x + 256 * little_endian xs

-- decoder.uint16, uint32 and uint64, for 2, 4 and 8 bytes.
unfoldable pub take_uint : ℕ → Decodes ℕ
unfolding take_bytes little_endian
take_uint n b = take_bytes n b >>= λ r. ok (little_endian r.0, r.1)

-- `v, _ := …`: a read that fails gives the zero value and takes nothing.
unfoldable pub ignoring : {A : Type 0} → A → List ℕ → Coded (A × List ℕ) → A × List ℕ
ignoring d b (ok r) = r
ignoring d b _ = (d, b)

unfoldable pub take_uint_ : ℕ → List ℕ → ℕ × List ℕ
unfolding take_uint ignoring
take_uint_ n b = ignoring 0 b (take_uint n b)

-- `[16]byte(b)`, which panics on a shorter slice.
unfoldable pub to_array : List ℕ → Coded (List ℕ)
to_array b = if ltb (length b) 16 then panic else ok (take 16 b)

-- bytes.CutSuffix
unfoldable pub cut_suffix : List ℕ → ℕ → Option (List ℕ)
cut_suffix raw zeros =
    let n = length raw - zeros in
    if ltb (length raw) zeros
    then none
    else if little_endian (drop n raw) == 0
    then some (take n raw)
    else none

module _ (texts : Texts) where
  -- decoder.codePageString
  unfoldable pub take_string : ℕ → Charset → Decodes (List ℕ)
  unfolding take_uint take_bytes cut_suffix
  take_string cp enc b = take_uint 4 b >>= λ n.
      if n.0 == 0
      then ok ([], n.1)
      else (take_bytes n.0 n.1 >>= λ raw.
          or_err (cut_suffix raw.0 (if cp == cp_win_unicode then 2 else 1)) no_terminator
          >>= λ text. or_err (texts.to_utf8 enc text) bad_string >>= λ out. ok (out, raw.1))

  -- resolveCoder, and the method `decode` of the coder.
  unfoldable pub take_value : ℕ → Charset → ℕ → Decodes Value
  unfolding take_string
  take_value cp enc vt b =
      if vt == vt_i2
      then (take_uint 2 b >>= λ r. ok (i2 r.0, r.1))
      else if vt == vt_i4
      then (take_uint 4 b >>= λ r. ok (i4 r.0, r.1))
      else if vt == vt_ui4
      then (take_uint 4 b >>= λ r. ok (ui4 r.0, r.1))
      else if vt == vt_lpstr
      then (take_string cp enc b >>= λ r. ok (lpstr r.0, r.1))
      else if vt == vt_file_time
      then (take_uint 8 b >>= λ r. ok (file_time (F.decode r.0), r.1))
      else err (unknown_type vt)

-- binary.LittleEndian.Uint32(b[pos:]), which panics out of range.
unfoldable pub uint32_at : List ℕ → ℕ → Coded ℕ
unfolding little_endian
uint32_at b pos =
    if ltb (length b) (pos + 4) then panic else ok (little_endian (take 4 (drop pos b)))

-- `b[off:end]`
unfoldable pub sub_slice : List ℕ → ℕ → ℕ → Coded (List ℕ)
sub_slice b off end =
    if leb off end && leb end (length b) then ok (take (end - off) (drop off b)) else panic

-- The PID and the byte range of a property.
pub record Packet : Type 0 where
  pub pid : ℕ
  pub off : ℕ
  pub end : ℕ

-- decoder.propertyPacket, for the set's bytes and its number of properties. The callers have checked
-- that the table lies in the set, whose size is below 2 ^ 32, so the sums in uint32 do not wrap.
unfoldable pub property_packet : List ℕ → ℕ → ℕ → Coded Packet
unfolding uint32_at
property_packet set num i = do
  pid ← uint32_at set (8 + i * 8)
  off ← uint32_at set (8 + i * 8 + 4)
  end ← if ltb (i + 1) num then uint32_at set (8 + i * 8 + 12) else ok (length set)
  ok (record { pid = pid; off = off; end = end })

-- The first loop of decoder.properties, which checks the byte ranges: `n` more properties from `i`.
unfoldable pub check_packets : List ℕ → ℕ → ℕ → ℕ → Coded (Unit {0})
check_packets set num zero i = ok tt
check_packets set num (suc n) i = do
  p ← property_packet set num i
  fail_if
      (ltb p.off (8 + num * 8)
        || ltb p.end p.off
        || ltb (p.end - p.off) 4
        || ltb (length set) p.end)
      bad_property_offset
  check_packets set num n (i + 1)

-- What decoder.codePage does with the packet of PID 1.
unfoldable pub code_page_of : List ℕ → Coded ℕ
unfolding take_uint_
code_page_of b =
    let vt = take_uint_ 2 b in
    let pad = ignoring [] vt.1 (take_bytes 2 vt.1) in
    if not (vt.0 == vt_i2)
    then err bad_code_page
    else (map_err (λ _. truncated) (take_uint 2 pad.1) >>= λ r. ok r.0)

-- decoder.codePage: `n` more properties from `i`.
unfoldable pub code_page : List ℕ → ℕ → ℕ → ℕ → Coded ℕ
unfolding code_page_of
code_page set num zero i = err no_code_page
code_page set num (suc n) i =
    let next = code_page set num n (i + 1) in
    property_packet set num i >>= λ p.
    if not (p.pid == 1) then next else (sub_slice set p.off p.end >>= code_page_of)

-- The error for a value that is cut short.
unfoldable pub as_truncated : OlepsError → OlepsError
as_truncated unexpected_eof = truncated
as_truncated e = e

unfoldable pub to_property : ℕ → Coded (Value × List ℕ) → Coded Property
unfolding as_truncated
to_property pid m = map_err as_truncated m >>= λ r. ok (record { id = pid; value = r.0 })

module _ (texts : Texts) where
  -- decoder.property, behind its packet.
  unfoldable pub property_of : ℕ → Charset → ℕ → List ℕ → Coded Property
  unfolding take_uint_ to_property
  property_of cp enc pid b =
      let vt = take_uint_ 2 b in
      let pad = take_uint_ 2 vt.1 in
      if not (pad.0 == 0)
      then err bad_padding
      else to_property pid (take_value texts cp enc vt.0 pad.1)

  -- decoder.property
  unfoldable pub take_property : ℕ → Charset → List ℕ → ℕ → ℕ → Coded Property
  unfolding property_of
  take_property cp enc set num i = do
    p ← property_packet set num i
    fail_if (p.pid == 0) named_properties
    b ← sub_slice set p.off p.end
    property_of cp enc p.pid b

  -- The last loop of decoder.properties.
  unfoldable pub take_properties : ℕ → Charset → List ℕ → ℕ → ℕ → ℕ → Coded (List Property)
  take_properties cp enc set num zero i = ok []
  take_properties cp enc set num (suc n) i = do
    p ← take_property cp enc set num i
    ps ← take_properties cp enc set num n (i + 1)
    ok (p ∷ ps)

  -- decoder.properties, behind the checks of the size.
  unfoldable pub set_properties : List ℕ → ℕ → Coded (List Property)
  set_properties set num = do
    check_packets set num num 0
    cp ← code_page set num num 0
    enc ← or_err (codepage_encoding cp) (unknown_code_page cp)
    take_properties cp enc set num num 0

  unfoldable pub decode_properties : List ℕ → Coded (List Property)
  unfolding set_properties
  decode_properties b = do
    size ← take_uint 4 b
    num ← take_uint 4 size.1
    fail_if (ltb (length b) size.0) unexpected_eof
    fail_if (ltb size.0 8 || ltb size.0 (8 + 8 * num.0)) bad_size
    set_properties (take size.0 b) num.0

  -- One round of the loop over the property sets. `data` is the whole stream.
  unfoldable pub decode_set : List ℕ → ℕ → List ℕ → Coded (PropertySet × List ℕ)
  unfolding decode_properties
  decode_set stream first b = do
    let fmtid = ignoring [] b (take_bytes 16 b)
    let off = take_uint_ 4 fmtid.1
    fail_if (ltb off.0 first) bad_offset
    fail_if (ltb (length stream) off.0) unexpected_eof
    props ← decode_properties (drop off.0 stream)
    id ← to_array fmtid.0
    ok (record { fmtid = id; properties = props }, off.1)

  unfoldable pub decode_sets : List ℕ → ℕ → ℕ → List ℕ → Coded (List PropertySet)
  unfolding decode_set
  decode_sets stream first zero b = ok []
  decode_sets stream first (suc n) b = do
    s ← decode_set stream first b
    rest ← decode_sets stream first n (s.1)
    ok (s.0 ∷ rest)

  -- The number of property sets: the switch of decoder.propertySetStream.
  abbrev pub check_count : ℕ → Coded (Unit {0})
  check_count n = if n == 1 then ok tt else if n == 2 then err many_sets else err bad_count

  -- Unmarshal
  unfoldable pub unmarshal : List ℕ → Coded PropertySetStream
  unfolding decode_sets
  unmarshal stream = do
    bo ← take_uint 2 stream
    fail_if (not (bo.0 == byte_order)) bad_byte_order
    fail_if (ltb (length stream) 28) unexpected_eof
    let version = take_uint_ 2 bo.1
    fail_if (ltb 1 version.0) bad_version
    let system = take_uint_ 4 version.1
    let clsid = ignoring [] system.1 (take_bytes 16 system.1)
    id ← to_array clsid.0
    let num = take_uint_ 4 clsid.1
    check_count num.0
    let first = 28 + num.0 * 20
    fail_if (ltb (length stream) first) unexpected_eof
    sets ← decode_sets stream first num.0 num.1
    ok (record {
      clsid = id;
      version = version.0;
      system_identifier = system.0;
      property_sets = sets;
    })

-- ===== src/Oleps/Encode/Written.antt =====
-- What encoder.properties writes of a set, and how the decoder reads a packet of it.
use go_cfb.Base.{
  ℕ, ◌+◌, ◌-◌, ◌*◌, ◌%◌, ◌^◌, ◌<◌, ◌≡◌, refl, sym, ap, ◌∙◌, List, [], ◌++◌, some, ok, arith, length,
  length-append, replicate,
}
use mathlib.Core.List.{append_assoc, append-nil}
use go_cfb.Bytes.{put_u16, put_u32}
use go_cfb.Bytes.Laws.{length-put_u16, length-put_u32}
use go_cfb.Oleps.{vt_i2, Value, i2, i4, ui4, lpstr, file_time, property_type, Property}
use go_cfb.Oleps.Codepage.{Charset, Texts, codepage_encoding}
use go_cfb.Oleps.Decode.{
  little_endian, ignoring, take_uint_, code_page_of, to_property, property_of,
}
use go_cfb.Oleps.Encode.{align, find_code_page, put_properties}
use go_cfb.Oleps.Encode.Layout.{
  pad, align_lem, pad-append, Item, table, bodies, length-table, IsReadable, AllReadable, item,
  items, length-items, put_property_list_lem,
}
use go_cfb.Oleps.Encode.Values.{
  patch32-append, take_bytes-append, take_uint-append, little_endian-put_u16, take_value-code,
}

-- A property set that can be written and read back: its code page is known, and its properties are
-- readable in it.
pub record IsReadableSet (texts : Texts) (props : List Property) : Type 0 where
  pub cp : ℕ
  pub enc : Charset
  pub found : find_code_page props ≡ ok cp
  pub known : codepage_encoding cp ≡ some enc
  pub readable : AllReadable texts cp enc props

-- The bytes of a set.
abbrev pub set_base : List Item → ℕ
set_base qs = 8 + length qs * 8

abbrev pub set_body : List Item → List ℕ
set_body qs = table (set_base qs) [] qs ++ pad (bodies [] qs)

abbrev pub set_bytes : List Item → List ℕ
set_bytes qs =
    put_u32 (set_base qs + length (pad (bodies [] qs))) ++ (put_u32 (length qs) ++ set_body qs)

pub put_properties_lem :
    (texts : Texts) (props : List Property) (s : IsReadableSet texts props) (buf : List ℕ)
    → length buf % 4 ≡ 0
    → put_properties texts props buf
      ≡ ok (buf ++ set_bytes (items texts s.cp s.enc props s.readable))
unfolding put_properties
put_properties_lem texts props s buf even =
    let qs = items texts s.cp s.enc props s.readable in
    let n = length-items texts s.cp s.enc props s.readable in
    let start = length buf in
    let front : List ℕ = (buf ++ put_u32 0) ++ put_u32 (length props) in
    let base = set_base qs in
    let size : length front ≡ start + 8 + 0 * 8 = omega (
      arith,
      length-append (buf ++ put_u32 0) (put_u32 (length props)),
      length-append buf (put_u32 0),
      length-put_u32 0,
      length-put_u32 (length props),
    ) in
    let t = table base [] qs in
    let room : front ++ replicate (8 * length props) 0
        ≡ front ++ (replicate (8 * length props) 0 ++ []) =
      ap (λ x. front ++ x) (sym (append-nil _)) in
    let list =
      put_property_list_lem texts s.cp s.enc start base 0 front [] props s.readable size even
        (omega (arith, n)) in
    let even_front : length front % 4 ≡ 0 = omega (arith, size, even) in
    let even_table : length t % 4 ≡ 0 = omega (arith, length-table base [] qs) in
    let aligned : align (front ++ (t ++ bodies [] qs))
        ≡ buf ++ (put_u32 0 ++ (put_u32 (length props) ++ set_body qs)) =
      align_lem _
      ∙ pad-append front _ even_front
      ∙ ap (λ x. front ++ x) (pad-append t (bodies [] qs) even_table)
      ∙ simp append_assoc in
    let total : length (buf ++ (put_u32 0 ++ (put_u32 (length props) ++ set_body qs))) - start
        ≡ base + length (pad (bodies [] qs)) =
      omega (
        arith,
        n,
        length-append buf (put_u32 0 ++ (put_u32 (length props) ++ set_body qs)),
        length-append (put_u32 0) (put_u32 (length props) ++ set_body qs),
        length-append (put_u32 (length props)) (set_body qs),
        length-append t (pad (bodies [] qs)),
        length-put_u32 0,
        length-put_u32 (length props),
        length-table base [] qs,
      ) in
    let patched =
      patch32-append buf (put_u32 0) (put_u32 (length props) ++ set_body qs) start
        (base + length (pad (bodies [] qs))) refl (length-put_u32 0) in
    rw s.found (
      rw s.known (
        rw room (
          rw list (
            rw (aligned, total)
              (patched
                ∙ ap
                    (λ k. ok (
                      buf
                      ++ (put_u32 (base + length (pad (bodies [] qs)))
                          ++ (put_u32 k ++ set_body qs))))
                    (sym n))))))

pub take_uint_-append :
    (s rest : List ℕ) (n v : ℕ)
    → length s ≡ n
    → little_endian s ≡ v
    → take_uint_ n (s ++ rest) ≡ (v, rest)
unfolding take_uint_ ignoring
take_uint_-append s rest n v e f = rw (take_uint-append s rest n v e f) refl

-- A packet is read back.
property_type-small : (v : Value) → property_type v < 2 ^ 16
unfolding property_type
property_type-small (i2 n) = omega arith
property_type-small (i4 n) = omega arith
property_type-small (ui4 n) = omega arith
property_type-small (lpstr s) = omega arith
property_type-small (file_time t) = omega arith

pub property_of_lem :
    (texts : Texts) (cp : ℕ) (enc : Charset) (p : Property) (r : IsReadable texts cp enc p)
    (rest : List ℕ)
    → property_of texts cp enc p.id ((item texts cp enc p r).code ++ rest) ≡ ok p
unfolding property_of to_property
property_of_lem texts cp enc p r rest =
    let vt = property_type p.value in
    let shape : (put_u16 vt ++ (put_u16 0 ++ r.code)) ++ rest
        ≡ put_u16 vt ++ (put_u16 0 ++ (r.code ++ rest)) =
      simp append_assoc in
    let first =
      take_uint_-append (put_u16 vt) (put_u16 0 ++ (r.code ++ rest)) 2 vt (length-put_u16 vt)
        (little_endian-put_u16 vt (property_type-small p.value)) in
    let second =
      take_uint_-append (put_u16 0) (r.code ++ rest) 2 0 (length-put_u16 0)
        (little_endian-put_u16 0 (omega arith)) in
    rw shape
      (rw first (rw second (rw (take_value-code texts cp enc p.value r.code rest r.coded) refl)))

pub code_page_of_lem :
    (n : ℕ) (rest : List ℕ)
    → n < 2 ^ 16
    → code_page_of ((put_u16 vt_i2 ++ (put_u16 0 ++ put_u16 n)) ++ rest) ≡ ok n
unfolding code_page_of ignoring
code_page_of_lem n rest small =
    let shape : (put_u16 vt_i2 ++ (put_u16 0 ++ put_u16 n)) ++ rest
        ≡ put_u16 vt_i2 ++ (put_u16 0 ++ (put_u16 n ++ rest)) =
      simp append_assoc in
    let first =
      take_uint_-append (put_u16 vt_i2) (put_u16 0 ++ (put_u16 n ++ rest)) 2 vt_i2
        (length-put_u16 vt_i2) (little_endian-put_u16 vt_i2 (omega arith)) in
    let second = take_bytes-append (put_u16 0) (put_u16 n ++ rest) 2 (length-put_u16 0) in
    let third =
      take_uint-append (put_u16 n) rest 2 n (length-put_u16 n) (little_endian-put_u16 n small) in
    rw shape (rw first (rw second (rw third refl)))

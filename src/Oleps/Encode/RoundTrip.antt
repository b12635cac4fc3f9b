-- ===== src/Oleps/Encode/RoundTrip.antt =====
-- Unmarshal reads back what Marshal writes.
use go_cfb.Base.{
  ℕ, ◌+◌, ◌*◌, ◌%◌, ◌^◌, ◌≤◌, ◌<◌, ◌≡◌, refl, sym, ap, ◌∙◌, false, ◌||◌, List, [], ◌∷◌, ◌++◌, ok,
  ltb, arith, length, length-append, take, drop,
}
use mathlib.Core.List.{append_assoc, append-nil}
use mathlib.Core.Path.{subst}
use go_cfb.Base.Slices.{drop_left, take_all}
use go_cfb.Bytes.{put_u16, put_u32}
use go_cfb.Bytes.Laws.{length-put_u16, length-put_u32}
use go_cfb.Oleps.{byte_order, Property, PropertySet, PropertySetStream, Coded}
use go_cfb.Oleps.Codepage.{Texts}
use go_cfb.Oleps.Decode.{
  ignoring, to_array, set_properties, decode_properties, decode_set, decode_sets, unmarshal,
}
use go_cfb.Oleps.Encode.{patch32, put_fmtids, put_sets, marshal}
use go_cfb.Oleps.Encode.Layout.{
  pad, length-pad, Item, table, bodies, length-table, items, length-items,
}
use go_cfb.Oleps.Encode.Packets.{PacketsFrom}
use go_cfb.Oleps.Encode.Sets.{set_properties_lem}
use go_cfb.Oleps.Encode.Values.{
  patch32-append, take_bytes-append, take_uint-append, little_endian-put_u16, little_endian-put_u32,
}
use go_cfb.Oleps.Encode.Written.{
  IsReadableSet, set_base, set_body, set_bytes, put_properties_lem, take_uint_-append,
}

-- A stream that can be written and read back: it has one property set, and fields of the sizes that
-- the source's types have.
pub record IsReadableStream (texts : Texts) (s : PropertySetStream) : Type 0 where
  pub set : PropertySet
  pub one : s.property_sets ≡ set ∷ []
  pub class : length s.clsid ≡ 16
  pub version : s.version ≤ 1
  pub system : s.system_identifier < 2 ^ 32
  pub fmtid_size : length set.fmtid ≡ 16
  pub readable : IsReadableSet texts set.properties

ok-injective : {a b : List ℕ} → ◌≡◌ {A = Coded (List ℕ)} (ok a) (ok b) → a ≡ b
ok-injective h = cc

module _ (texts : Texts) where
  abbrev bytes_of : (ps : List Property) → IsReadableSet texts ps → List ℕ
  bytes_of ps r = set_bytes (items texts r.cp r.enc ps r.readable)

  length-set_bytes :
      (qs : List Item) → length (set_bytes qs) ≡ set_base qs + length (pad (bodies [] qs))
  length-set_bytes qs =
      let t = table (set_base qs) [] qs in
      let p = pad (bodies [] qs) in
      let n = set_base qs + length p in
      omega (
        arith,
        length-append (put_u32 n) (put_u32 (length qs) ++ (t ++ p)),
        length-append (put_u32 (length qs)) (t ++ p),
        length-append t p,
        length-put_u32 n,
        length-put_u32 (length qs),
        length-table (set_base qs) [] qs,
      )

  -- decoder.properties reads back the bytes of a set.
  decode_properties-set_bytes :
      (ps : List Property) (r : IsReadableSet texts ps)
      → length (bytes_of ps r) < 2 ^ 32
      → decode_properties texts (bytes_of ps r) ≡ ok ps
  unfolding decode_properties
  decode_properties-set_bytes ps r small =
      let qs = items texts r.cp r.enc ps r.readable in
      let same : length qs ≡ length ps = length-items texts r.cp r.enc ps r.readable in
      let b = set_bytes qs in
      let size = set_base qs + length (pad (bodies [] qs)) in
      let whole = length-set_bytes qs in
      let first =
        take_uint-append (put_u32 size) (put_u32 (length qs) ++ set_body qs) 4 size
          (length-put_u32 size) (little_endian-put_u32 size (omega (arith, small, whole))) in
      let second =
        take_uint-append (put_u32 (length qs)) (set_body qs) 4 (length qs)
          (length-put_u32 (length qs))
          (little_endian-put_u32 (length qs) (omega (arith, small, whole))) in
      let long : ltb (length b) size ≡ false = ground (arith, whole) in
      let sized : (ltb size 8 || ltb size (8 + 8 * length qs)) ≡ false = ground arith in
      let all : take size b ≡ b =
        ap (λ n. take n b) (sym whole) ∙ take_all (length b) b (omega arith) in
      let at : PacketsFrom b (8 + length ps * 8) 0 [] qs = record {
        head = put_u32 size ++ put_u32 (length qs);
        split =
            ap
              (λ n.
                put_u32 size
                ++ (put_u32 (length qs) ++ (table (8 + n * 8) [] qs ++ pad (bodies [] qs))))
              same
            ∙ sym (append_assoc (put_u32 size) (put_u32 (length qs)) _);
        size = omega (
          arith,
          length-append (put_u32 size) (put_u32 (length qs)),
          length-put_u32 size,
          length-put_u32 (length qs),
        );
      } in
      rw first (
        rw second (
          rw (long, sized)
            (rw all (
              ap (λ n. set_properties texts b n) same
              ∙ set_properties_lem texts r.cp r.enc b ps r.readable small at r.found r.known))))

  to_array_lem : (b : List ℕ) → length b ≡ 16 → to_array b ≡ ok b
  unfolding to_array
  to_array_lem b e =
      let long : ltb (length b) 16 ≡ false = ground (arith, e) in
      rw long (ap (λ x. ok x) (take_all 16 b (omega (arith, e))))

  -- The fields in front of the property sets, in front of `rest`.
  abbrev leading_bytes : PropertySetStream → List ℕ → List ℕ
  leading_bytes s rest =
      put_u16 byte_order
      ++ (put_u16 s.version ++ (put_u32 s.system_identifier ++ (s.clsid ++ (put_u32 1 ++ rest))))

  abbrev stream_bytes : (s : PropertySetStream) → IsReadableStream texts s → List ℕ
  stream_bytes s r =
      leading_bytes s (r.set.fmtid ++ (put_u32 48 ++ bytes_of r.set.properties r.readable))

  length-leading_bytes :
      (s : PropertySetStream) (rest : List ℕ)
      → length s.clsid ≡ 16
      → length (leading_bytes s rest) ≡ 28 + length rest
  length-leading_bytes s rest class = omega (
    arith,
    class,
    length-append (put_u16 byte_order)
        (put_u16 s.version ++ (put_u32 s.system_identifier ++ (s.clsid ++ (put_u32 1 ++ rest)))),
    length-append (put_u16 s.version)
        (put_u32 s.system_identifier ++ (s.clsid ++ (put_u32 1 ++ rest))),
    length-append (put_u32 s.system_identifier) (s.clsid ++ (put_u32 1 ++ rest)),
    length-append s.clsid (put_u32 1 ++ rest),
    length-append (put_u32 1) rest,
    length-put_u16 byte_order,
    length-put_u16 s.version,
    length-put_u32 s.system_identifier,
    length-put_u32 1,
  )

  -- Marshal writes the bytes of the stream.
  marshal_lem :
      (s : PropertySetStream) (r : IsReadableStream texts s)
      → marshal texts s ≡ ok (stream_bytes s r)
  unfolding marshal put_fmtids put_sets
  marshal_lem s r =
      let head : List ℕ =
        put_u16 byte_order
        ++ (put_u16 s.version ++ (put_u32 s.system_identifier ++ (s.clsid ++ put_u32 1))) in
      let front : List ℕ = head ++ r.set.fmtid in
      let version : ltb 1 s.version ≡ false = ground (arith, r.version) in
      let shape : (h : List ℕ) → head ++ h ≡ leading_bytes s h = λ h. simp append_assoc in
      let size : length front ≡ 44 = omega (
        arith,
        ap length (shape r.set.fmtid),
        length-leading_bytes s r.set.fmtid r.class,
        r.fmtid_size,
      ) in
      let whole : length (front ++ put_u32 0) ≡ 48 =
        omega (arith, size, length-append front (put_u32 0), length-put_u32 0) in
      let patched : patch32 (length front) (length (front ++ put_u32 0)) (front ++ put_u32 0)
          ≡ ok (front ++ put_u32 48) =
        ap (λ x. patch32 (length front) (length (front ++ put_u32 0)) (front ++ x))
          (sym (append-nil (put_u32 0)))
        ∙ patch32-append front (put_u32 0) [] _ _ refl (length-put_u32 0)
        ∙ ap (λ x. ok (front ++ x)) (append-nil _)
        ∙ ap (λ n. ok (front ++ put_u32 n)) whole in
      let aligned : length (front ++ put_u32 48) % 4 ≡ 0 =
        omega (arith, size, length-append front (put_u32 48), length-put_u32 48) in
      let written =
        put_properties_lem texts r.set.properties r.readable (front ++ put_u32 48) aligned in
      let count : length (r.set ∷ []) ≡ 1 = ground arith in
      rw r.one (
        rw (version, count)
          (rw patched (
            rw written (
              ap (λ b. ok b)
                (append_assoc front (put_u32 48) _ ∙ append_assoc head r.set.fmtid _ ∙ shape _)))))

  -- The loop over the property sets.
  set_lem :
      (s : PropertySetStream) (r : IsReadableStream texts s)
      → length (stream_bytes s r) < 2 ^ 32
      → decode_sets texts
          (stream_bytes s r)
          48
          1
          (r.set.fmtid ++ (put_u32 48 ++ bytes_of r.set.properties r.readable))
        ≡ ok (r.set ∷ [])
  unfolding decode_sets decode_set ignoring
  set_lem s r small =
      let ps = r.set.properties in
      let set = bytes_of ps r.readable in
      let front : List ℕ =
        put_u16 byte_order
        ++ (put_u16 s.version
            ++ (put_u32 s.system_identifier
                ++ (s.clsid ++ (put_u32 1 ++ (r.set.fmtid ++ put_u32 48))))) in
      let shape : stream_bytes s r ≡ front ++ set = sym (simp append_assoc) in
      let size : length front ≡ 48 = omega (
        arith,
        length-leading_bytes s (r.set.fmtid ++ put_u32 48) r.class,
        length-append r.set.fmtid (put_u32 48),
        length-put_u32 48,
        r.fmtid_size,
      ) in
      let whole : length (stream_bytes s r) ≡ 48 + length set =
        ap length shape ∙ omega (arith, size, length-append front set) in
      let fmtid = take_bytes-append r.set.fmtid (put_u32 48 ++ set) 16 r.fmtid_size in
      let offset =
        take_uint_-append (put_u32 48) set 4 48 (length-put_u32 48)
          (little_endian-put_u32 48 (omega arith)) in
      let long : ltb (length (stream_bytes s r)) 48 ≡ false = ground (arith, whole) in
      let behind : drop 48 (stream_bytes s r) ≡ set =
        ap (drop 48) shape ∙ drop_left 48 front set size in
      let props = decode_properties-set_bytes ps r.readable (omega (arith, whole, small)) in
      rw fmtid (
        rw offset
          (rw long (rw behind (rw props (rw (to_array_lem r.set.fmtid r.fmtid_size) refl)))))

  -- decoder.propertySetStream reads them back.
  unmarshal_lem :
      (s : PropertySetStream) (r : IsReadableStream texts s)
      → length (stream_bytes s r) < 2 ^ 32
      → unmarshal texts (stream_bytes s r) ≡ ok s
  unfolding unmarshal ignoring
  unmarshal_lem s r small =
      let ps = r.set.properties in
      let set = bytes_of ps r.readable in
      let e5 : List ℕ = r.set.fmtid ++ (put_u32 48 ++ set) in
      let e4 : List ℕ = put_u32 1 ++ e5 in
      let e3 : List ℕ = s.clsid ++ e4 in
      let e2 : List ℕ = put_u32 s.system_identifier ++ e3 in
      let e1 : List ℕ = put_u16 s.version ++ e2 in
      let b : List ℕ = put_u16 byte_order ++ e1 in
      let size : length b ≡ 48 + length set = omega (
        arith,
        length-leading_bytes s e5 r.class,
        length-append r.set.fmtid (put_u32 48 ++ set),
        length-append (put_u32 48) set,
        length-put_u32 48,
        r.fmtid_size,
      ) in
      let order =
        take_uint-append (put_u16 byte_order) e1 2 byte_order (length-put_u16 byte_order)
          (little_endian-put_u16 byte_order (omega arith)) in
      let long : ltb (length b) 28 ≡ false = ground (arith, size) in
      let version =
        take_uint_-append (put_u16 s.version) e2 2 s.version (length-put_u16 s.version)
          (little_endian-put_u16 s.version (omega (arith, r.version))) in
      let known : ltb 1 s.version ≡ false = ground (arith, r.version) in
      let system =
        take_uint_-append (put_u32 s.system_identifier) e3 4 s.system_identifier
          (length-put_u32 s.system_identifier)
          (little_endian-put_u32 s.system_identifier r.system) in
      let class = take_bytes-append s.clsid e4 16 r.class in
      let count =
        take_uint_-append (put_u32 1) e5 4 1 (length-put_u32 1)
          (little_endian-put_u32 1 (omega arith)) in
      let room : ltb (length b) 48 ≡ false = ground (arith, size) in
      rw order (
        rw long (
          rw version (
            rw known (
              rw system (
                rw class (
                  rw (to_array_lem s.clsid r.class) (
                    rw count (
                      rw room (
                        rw (set_lem s r small)
                          (ap (λ ss. ok (record s { property_sets = ss })) (sym r.one)))))))))))

  -- For a stream with one property set, whose header fields have the sizes of their types, whose code
  -- page is known, whose properties have IDs of 32 bits other than 0, and whose values can be encoded
  -- and, each by itself, decoded again, Marshal gives no error, and the number of bytes that it writes
  -- is a multiple of four.
  pub marshal-IsReadableStream :
      (s : PropertySetStream) (r : IsReadableStream texts s)
      → (b : List ℕ) × (marshal texts s ≡ ok b) × (length b % 4 ≡ 0)
  marshal-IsReadableStream s r =
      let ps = r.set.properties in
      let qs = items texts r.readable.cp r.readable.enc ps r.readable.readable in
      let set = bytes_of ps r.readable in
      let (mod4, grows) = length-pad (bodies [] qs) in
      (
        stream_bytes s r,
        marshal_lem s r,
        omega (
          arith,
          length-leading_bytes s (r.set.fmtid ++ (put_u32 48 ++ set)) r.class,
          length-append r.set.fmtid (put_u32 48 ++ set),
          length-append (put_u32 48) set,
          length-put_u32 48,
          r.fmtid_size,
          length-set_bytes qs,
          mod4,
        ),
      )

  -- Unmarshal gives back a stream from what Marshal wrote for it: for a stream with one property set,
  -- whose header fields have the sizes of their types, whose code page is known, whose properties have
  -- IDs of 32 bits other than 0, and whose values can be encoded and, each by itself, decoded again, if what is written is shorter than 2 ^ 32 bytes.
  pub unmarshal-marshal :
      (s : PropertySetStream) (r : IsReadableStream texts s) (b : List ℕ)
      → marshal texts s ≡ ok b
      → length b < 2 ^ 32
      → unmarshal texts b ≡ ok s
  unmarshal-marshal s r b written small =
      let same : stream_bytes s r ≡ b = ok-injective (sym (marshal_lem s r) ∙ written) in
      subst (λ x. unmarshal texts x ≡ ok s) same
        (unmarshal_lem s r (omega (arith, ap length same, small)))

-- ===== src/Oleps/Encode/Sets.antt =====
-- The decoder reads back the properties of an encoded property set.
use go_cfb.Base.{
  ℕ, suc, ◌+◌, ◌-◌, ◌*◌, ◌^◌, ◌<◌, ◌≡◌, ◌≢◌, refl, ◌∙◌, false, ◌||◌, List, [], ◌∷◌, ◌++◌, some, ok,
  err, ltb, ◌==◌, arith, Bool-cases, inl, inr, length, length-append,
}
use go_cfb.Bytes.{put_u16}
use go_cfb.Bytes.Laws.{length-put_u16}
use go_cfb.Oleps.{Value, i2, i4, ui4, lpstr, file_time, property_type, Property, OlepsError, Coded}
use go_cfb.Oleps.Codepage.{Charset, Texts, codepage_encoding}
use go_cfb.Oleps.Decode.{
  check_packets, code_page_of, code_page, take_property, take_properties, set_properties,
}
use go_cfb.Oleps.Encode.{as_code_page, find_code_page}
use go_cfb.Oleps.Encode.Layout.{
  pad, length-pad, Item, IsReadable, AllReadable, item, items, length-items,
}
use go_cfb.Oleps.Encode.Packets.{
  PacketsFrom, PacketsFrom-step, offset_small, found_packet, found_slice,
}
use go_cfb.Oleps.Encode.Written.{property_of_lem, code_page_of_lem}
use go_cfb.Oleps.Encode.Values.{ValueCode}

err≢ok : {e : OlepsError} {n : ℕ} → ◌≢◌ {A = Coded ℕ} (err e) (ok n)
err≢ok h = cc

module _ (texts : Texts) (cp : ℕ) (enc : Charset) where
  -- The packet of the code page.
  code_page-code :
      (v : Value) (code rest : List ℕ)
      → ValueCode texts cp enc v code
      → as_code_page v ≡ ok cp
      → code_page_of ((put_u16 (property_type v) ++ (put_u16 0 ++ code)) ++ rest) ≡ ok cp
  unfolding as_code_page property_type
  code_page-code (i2 n) code rest (small, e) f = rw e (code_page_of_lem n rest small ∙ f)
  code_page-code (i4 n) code rest c f = absurd (err≢ok f)
  code_page-code (ui4 n) code rest c f = absurd (err≢ok f)
  code_page-code (lpstr s) code rest c f = absurd (err≢ok f)
  code_page-code (file_time t) code rest c f = absurd (err≢ok f)

  module _ (set : List ℕ) (num base : ℕ) (sized : base ≡ 8 + num * 8)
      (small : length set < 2 ^ 32) where
    check_packets_lem :
        (i : ℕ) (body : List ℕ) (ps : List Property) (all : AllReadable texts cp enc ps)
        → PacketsFrom set base i body (items texts cp enc ps all)
        → i + length ps ≡ num
        → check_packets set num (length ps) i ≡ ok tt
    unfolding check_packets
    check_packets_lem i body [] all at count = refl
    check_packets_lem i body (p ∷ ps) (r, all) at count =
        let q = item texts cp enc p r in
        let qs = items texts cp enc ps all in
        let n = length-items texts cp enc ps all in
        let next = PacketsFrom-step q qs at in
        let body' = pad body ++ q.code in
        let (mod4, grows) = length-pad body' in
        let fits = offset_small set num base sized small qs next (omega (arith, count, n)) in
        let inside : (ltb (base + length (pad body)) (8 + num * 8)
              || ltb (base + length (pad body')) (base + length (pad body))
              || ltb (base + length (pad body') - (base + length (pad body))) 4
              || ltb (length set) (base + length (pad body')))
            ≡ false =
          ground (
            arith,
            sized,
            grows,
            fits,
            length-append (pad body) q.code,
            length-append (put_u16 (property_type p.value)) (put_u16 0 ++ r.code),
            length-append (put_u16 0) r.code,
            length-put_u16 (property_type p.value),
            length-put_u16 0,
          ) in
        rw (found_packet set num base sized small i body q qs at (omega (arith, count, n)) r.narrow)
          (rw inside (check_packets_lem (i + 1) body' ps all next (omega (arith, count))))

    code_page_lem :
        (i : ℕ) (body : List ℕ) (ps : List Property) (all : AllReadable texts cp enc ps)
        → PacketsFrom set base i body (items texts cp enc ps all)
        → i + length ps ≡ num
        → find_code_page ps ≡ ok cp
        → code_page set num (length ps) i ≡ ok cp
    unfolding code_page find_code_page
    code_page_lem i body [] all at count found = absurd (err≢ok found)
    code_page_lem i body (p ∷ ps) (r, all) at count found =
        let q = item texts cp enc p r in
        let qs = items texts cp enc ps all in
        let n = length-items texts cp enc ps all in
        let packet =
          found_packet set num base sized small i body q qs at (omega (arith, count, n)) r.narrow in
        let slice = found_slice set num base sized small i body q qs at (omega (arith, count, n)) in
        elim (Bool-cases (p.id == 1)) [
          | inl e ↦
              rw packet (rw e (rw slice (code_page-code p.value r.code _ r.coded (rw e at found))))
          | inr e ↦ rw packet (
              rw e (
                code_page_lem (i + 1) (pad body ++ q.code) ps all (PacketsFrom-step q qs at)
                  (omega (arith, count)) (rw e at found)))
        ]

    take_property_lem :
        (i : ℕ) (body : List ℕ) (p : Property) (r : IsReadable texts cp enc p) (qs : List Item)
        → PacketsFrom set base i body (item texts cp enc p r ∷ qs)
        → i + suc (length qs) ≡ num
        → take_property texts cp enc set num i ≡ ok p
    unfolding take_property
    take_property_lem i body p r qs at count =
        let q = item texts cp enc p r in
        let unnamed : (p.id == 0) ≡ false = ground (arith, r.named) in
        rw (found_packet set num base sized small i body q qs at count r.narrow) (
          rw unnamed (
            rw (found_slice set num base sized small i body q qs at count)
              (property_of_lem texts cp enc p r _)))

    take_properties_lem :
        (i : ℕ) (body : List ℕ) (ps : List Property) (all : AllReadable texts cp enc ps)
        → PacketsFrom set base i body (items texts cp enc ps all)
        → i + length ps ≡ num
        → take_properties texts cp enc set num (length ps) i ≡ ok ps
    unfolding take_properties
    take_properties_lem i body [] all at count = refl
    take_properties_lem i body (p ∷ ps) (r, all) at count =
        let q = item texts cp enc p r in
        let qs = items texts cp enc ps all in
        let n = length-items texts cp enc ps all in
        rw (take_property_lem i body p r qs at (omega (arith, count, n))) (
          rw
            (take_properties_lem (i + 1) (pad body ++ q.code) ps all (PacketsFrom-step q qs at)
              (omega (arith, count)))
            refl)

  -- The three passes.
  pub set_properties_lem :
      (set : List ℕ) (ps : List Property) (all : AllReadable texts cp enc ps)
      → length set < 2 ^ 32
      → PacketsFrom set (8 + length ps * 8) 0 [] (items texts cp enc ps all)
      → find_code_page ps ≡ ok cp
      → codepage_encoding cp ≡ some enc
      → set_properties texts set (length ps) ≡ ok ps
  unfolding set_properties
  set_properties_lem set ps all small at found known =
      let base = 8 + length ps * 8 in
      let count : 0 + length ps ≡ length ps = omega arith in
      rw (check_packets_lem set (length ps) base refl small 0 [] ps all at count) (
        rw (code_page_lem set (length ps) base refl small 0 [] ps all at count found)
          (rw known (take_properties_lem set (length ps) base refl small 0 [] ps all at count)))

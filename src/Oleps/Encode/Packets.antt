-- ===== src/Oleps/Encode/Packets.antt =====
-- The decoder finds the packets of an encoded property set.
use go_cfb.Base.{
  ℕ, suc, ◌+◌, ◌-◌, ◌*◌, ◌^◌, ◌≤◌, ◌<◌, ◌≡◌, refl, ap, ◌∙◌, true, false, ◌&&◌, List, [], ◌∷◌, ◌++◌,
  ok, ltb, leb, arith, if◌then◌else◌, length, length-append,
}
use mathlib.Core.List.{append_assoc}
use go_cfb.Base.Slices.{take_left, drop_left}
use go_cfb.Bytes.{put_u32}
use go_cfb.Bytes.Laws.{length-put_u32}
use go_cfb.Oleps.Decode.{uint32_at, sub_slice, Packet, property_packet}
use go_cfb.Oleps.Encode.Layout.{
  padding, pad, pad-pad, Item, table, bodies, length-table, pad-bodies,
}
use go_cfb.Oleps.Encode.Values.{little_endian-put_u32}

uint32_at-append :
    (a b : List ℕ) (pos v : ℕ)
    → length a ≡ pos
    → v < 2 ^ 32
    → uint32_at (a ++ (put_u32 v ++ b)) pos ≡ ok v
unfolding uint32_at
uint32_at-append a b pos v e small =
    let long : ltb (length (a ++ (put_u32 v ++ b))) (pos + 4) ≡ false =
      ground (
        arith,
        e,
        length-append a (put_u32 v ++ b),
        length-append (put_u32 v) b,
        length-put_u32 v,
      ) in
    rw
      (
        long,
        drop_left pos a (put_u32 v ++ b) e,
        take_left 4 (put_u32 v) b (length-put_u32 v),
        little_endian-put_u32 v small,
      )
      refl

-- A slice in the middle.
sub_slice-append :
    (a s b : List ℕ) (off end : ℕ)
    → length a ≡ off
    → off + length s ≡ end
    → sub_slice (a ++ (s ++ b)) off end ≡ ok s
unfolding sub_slice
sub_slice-append a s b off end e f =
    let inside : (leb off end && leb end (length (a ++ (s ++ b)))) ≡ true =
      ground (arith, e, f, length-append a (s ++ b), length-append s b) in
    let size : end - off ≡ length s = omega (arith, f) in
    rw (inside, drop_left off a (s ++ b) e, size, take_left (length s) s b refl) refl

-- From the entry `i` of the table on, the set has the entries and the packets of `qs`, behind the
-- packets `body`.
pub record PacketsFrom (set : List ℕ) (base i : ℕ) (body : List ℕ) (qs : List Item) : Type 0 where
  pub head : List ℕ
  pub split : set ≡ head ++ (table base body qs ++ pad (bodies body qs))
  pub size : length head ≡ 8 + i * 8

pub PacketsFrom-step :
    {set : List ℕ} {base i : ℕ} {body : List ℕ} (q : Item) (qs : List Item)
    → PacketsFrom set base i body (q ∷ qs)
    → PacketsFrom set base (i + 1) (pad body ++ q.code) qs
unfolding table bodies
PacketsFrom-step {base} {body} q qs at =
    let off = base + length (pad body) in
    record {
      head = at.head ++ (put_u32 q.id ++ put_u32 off);
      split = at.split ∙ simp append_assoc;
      size = omega (
        arith,
        at.size,
        length-append at.head (put_u32 q.id ++ put_u32 off),
        length-append (put_u32 q.id) (put_u32 off),
        length-put_u32 q.id,
        length-put_u32 off,
      );
    }

module _ (set : List ℕ) (num base : ℕ) (sized : base ≡ 8 + num * 8)
    (small : length set < 2 ^ 32) where
  abbrev pub packet_of : List ℕ → Item → Packet
  packet_of body q = record {
    pid = q.id;
    off = base + length (pad body);
    end = base + length (pad (pad body ++ q.code));
  }

  -- The set, up to its packets.
  length-PacketsFrom :
      {i : ℕ} {body : List ℕ} (qs : List Item)
      → PacketsFrom set base i body qs
      → i + length qs ≡ num
      → length set ≡ base + length (pad (bodies body qs))
  length-PacketsFrom {i} {body} qs at count = omega (
    arith,
    ap length at.split,
    at.size,
    sized,
    count,
    length-append at.head (table base body qs ++ pad (bodies body qs)),
    length-append (table base body qs) (pad (bodies body qs)),
    length-table base body qs,
  )

  -- The packets that are still to come end the set.
  pub offset_small :
      {i : ℕ} {body : List ℕ} (qs : List Item)
      → PacketsFrom set base i body qs
      → i + length qs ≡ num
      → base + length (pad body) ≤ length set
  offset_small {body} qs at count =
      let (more, e) = pad-bodies body qs in
      omega (arith, length-PacketsFrom qs at count, ap length e, length-append (pad body) more)

  id_at :
      (i : ℕ) (body : List ℕ) (q : Item) (qs : List Item)
      → PacketsFrom set base i body (q ∷ qs)
      → q.id < 2 ^ 32
      → uint32_at set (8 + i * 8) ≡ ok q.id
  unfolding table
  id_at i body q qs at narrow =
      ap (λ s. uint32_at s (8 + i * 8))
        (at.split ∙ ap (λ x. at.head ++ x) (append_assoc (put_u32 q.id) _ _))
      ∙ uint32_at-append at.head _ (8 + i * 8) q.id at.size narrow

  off_at :
      (i : ℕ) (body : List ℕ) (q : Item) (qs : List Item)
      → PacketsFrom set base i body (q ∷ qs)
      → i + suc (length qs) ≡ num
      → uint32_at set (8 + i * 8 + 4) ≡ ok (base + length (pad body))
  unfolding table
  off_at i body q qs at count =
      let off = base + length (pad body) in
      let shape : set
          ≡ (at.head ++ put_u32 q.id)
            ++ (put_u32 off ++ (table base (pad body ++ q.code) qs ++ pad (bodies body (q ∷ qs)))) =
        at.split ∙ simp append_assoc in
      ap (λ s. uint32_at s (8 + i * 8 + 4)) shape
      ∙ uint32_at-append (at.head ++ put_u32 q.id) _ (8 + i * 8 + 4) off
          (omega (arith, at.size, length-append at.head (put_u32 q.id), length-put_u32 q.id))
          (omega (arith, small, offset_small (q ∷ qs) at count))

  -- The end of a packet: the next one's offset, or the size of the set.
  end_at :
      (i : ℕ) (body : List ℕ) (q : Item) (qs : List Item)
      → PacketsFrom set base i body (q ∷ qs)
      → i + suc (length qs) ≡ num
      → (if ltb (i + 1) num then uint32_at set (8 + i * 8 + 12) else ok (length set))
        ≡ ok (base + length (pad (pad body ++ q.code)))
  unfolding bodies
  end_at i body q [] at count =
      let last : ltb (i + 1) num ≡ false = ground (arith, count) in
      rw last
        (ap (λ n. ok n) (length-PacketsFrom [] (PacketsFrom-step q [] at) (omega (arith, count))))
  end_at i body q (q' ∷ qs) at count =
      let more : ltb (i + 1) num ≡ true = ground (arith, count) in
      let next : 8 + i * 8 + 12 ≡ 8 + (i + 1) * 8 + 4 = omega arith in
      rw (more, next)
        (off_at (i + 1) (pad body ++ q.code) q' qs (PacketsFrom-step q (q' ∷ qs) at)
          (omega (arith, count)))

  pub found_packet :
      (i : ℕ) (body : List ℕ) (q : Item) (qs : List Item)
      → PacketsFrom set base i body (q ∷ qs)
      → i + suc (length qs) ≡ num
      → q.id < 2 ^ 32
      → property_packet set num i ≡ ok (packet_of body q)
  unfolding property_packet
  found_packet i body q qs at count narrow =
      rw (id_at i body q qs at narrow)
        (rw (off_at i body q qs at count) (rw (end_at i body q qs at count) refl))

  -- The bytes of the packet, with the padding behind it.
  pub found_slice :
      (i : ℕ) (body : List ℕ) (q : Item) (qs : List Item)
      → PacketsFrom set base i body (q ∷ qs)
      → i + suc (length qs) ≡ num
      → sub_slice set (base + length (pad body)) (base + length (pad (pad body ++ q.code)))
        ≡ ok (q.code ++ padding (length (pad body ++ q.code)))
  unfolding bodies
  found_slice i body q qs at count =
      let p = pad body in
      let (more, e) = pad-bodies (p ++ q.code) qs in
      let pd = padding (length (p ++ q.code)) in
      let t = table base body (q ∷ qs) in
      let shape : set ≡ (at.head ++ (t ++ p)) ++ ((q.code ++ pd) ++ more) =
        at.split
        ∙ ap (λ x. at.head ++ (t ++ x)) (e ∙ ap (λ x. x ++ more) (pad-pad body q.code))
        ∙ simp append_assoc in
      let here : length (at.head ++ (t ++ p)) ≡ base + length p = omega (
        arith,
        length-append at.head (t ++ p),
        length-append t p,
        length-table base body (q ∷ qs),
        at.size,
        sized,
        count,
      ) in
      let there : base + length p + length (q.code ++ pd) ≡ base + length (pad (p ++ q.code)) =
        omega (arith, ap length (pad-pad body q.code), length-append p (q.code ++ pd)) in
      ap (λ s. sub_slice s (base + length p) (base + length (pad (p ++ q.code)))) shape
      ∙ sub_slice-append (at.head ++ (t ++ p)) (q.code ++ pd) more _ _ here there

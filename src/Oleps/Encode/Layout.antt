-- ===== src/Oleps/Encode/Layout.antt =====
-- The layout of an encoded property set: its table of properties, and the packets behind it, each at
-- a multiple of four bytes.
use go_cfb.Base.{
  ℕ, zero, suc, ◌+◌, ◌-◌, ◌*◌, ◌%◌, ◌^◌, ◌≤◌, ◌<◌, ◌≡◌, ◌≢◌, refl, sym, ap, ◌∙◌, true, false, List,
  [], ◌∷◌, ◌++◌, ok, ◌==◌, arith, length, length-append, replicate, length-replicate,
}
use mathlib.Core.List.{append_assoc, append-nil}
use go_cfb.Bytes.{put_u16, put_u32}
use go_cfb.Bytes.Laws.{length-put_u32}
use go_cfb.Oleps.{property_type, Property}
use go_cfb.Oleps.Codepage.{Charset, Texts}
use go_cfb.Oleps.Encode.{align_loop, align, put_property, put_property_list}
use go_cfb.Oleps.Encode.Values.{ValueCode, patch32-append, put_value_lem}

-- The zeros that fill up `n` bytes.
abbrev pub padding : ℕ → List ℕ
padding n = replicate ((4 - n % 4) % 4) 0

unfoldable pub pad : List ℕ → List ℕ
pad b = b ++ padding (length b)

pub length-pad : (b : List ℕ) → (length (pad b) % 4 ≡ 0) × (length b ≤ length (pad b))
unfolding pad
length-pad b =
    let size = length-append b (padding (length b)) in
    let zeros = length-replicate {A = ℕ} ((4 - length b % 4) % 4) 0 in
    (omega (arith, size, zeros), omega (arith, size))

align_done : (n : ℕ) (b : List ℕ) → length b % 4 ≡ 0 → align_loop n b ≡ b
unfolding align_loop
align_done zero b e = refl
align_done (suc n) b e = let t : (length b % 4 == 0) ≡ true = ground (arith, e) in rw t refl

align_loop_lem :
    (n : ℕ) (b : List ℕ) (k : ℕ)
    → (4 - length b % 4) % 4 ≡ k
    → k ≤ n
    → align_loop n b ≡ b ++ replicate k 0
unfolding align_loop
align_loop_lem zero b k e enough =
    let none_left : k ≡ 0 = omega arith in rw none_left (sym (append-nil b))
align_loop_lem (suc n) b zero e enough =
    align_done (suc n) b (omega (arith, e)) ∙ sym (append-nil b)
align_loop_lem (suc n) b (suc k) e enough =
    let t : (length b % 4 == 0) ≡ false = ground (arith, e) in
    rw t (
      align_loop_lem n (b ++ 0 ∷ []) k (omega (arith, e, length-append b (0 ∷ []))) (omega arith)
      ∙ append_assoc b (0 ∷ []) (replicate k 0))

pub align_lem : (b : List ℕ) → align b ≡ pad b
unfolding align pad
align_lem b = align_loop_lem 3 b _ refl (omega arith)

pub pad-pad :
    (body code : List ℕ)
    → pad (pad body ++ code) ≡ pad body ++ (code ++ padding (length (pad body ++ code)))
unfolding pad
pad-pad body code = append_assoc (body ++ padding (length body)) code _

pub pad-append : (a b : List ℕ) → length a % 4 ≡ 0 → pad (a ++ b) ≡ a ++ pad b
unfolding pad
pad-append a b e =
    let same : (4 - length (a ++ b) % 4) % 4 ≡ (4 - length b % 4) % 4 =
      omega (arith, e, length-append a b) in
    rw same (append_assoc a b (padding (length b)))

-- A property as it is written: its ID, and its packet.
pub record Item : Type 0 where
  pub id : ℕ
  pub code : List ℕ

-- The table, for packets behind `body`, the first `base` bytes of the set being before the packets.
unfoldable pub table : ℕ → List ℕ → List Item → List ℕ
table base body [] = []
table base body (q ∷ qs) =
    put_u32 q.id ++ (put_u32 (base + length (pad body)) ++ table base (pad body ++ q.code) qs)

-- The packets.
unfoldable pub bodies : List ℕ → List Item → List ℕ
bodies body [] = body
bodies body (q ∷ qs) = bodies (pad body ++ q.code) qs

pub length-table :
    (base : ℕ) (body : List ℕ) (qs : List Item) → length (table base body qs) ≡ 8 * length qs
unfolding table
length-table base body [] = omega arith
length-table base body (q ∷ qs) = omega (
  arith,
  length-append (put_u32 q.id)
      (put_u32 (base + length (pad body)) ++ table base (pad body ++ q.code) qs),
  length-append (put_u32 (base + length (pad body))) (table base (pad body ++ q.code) qs),
  length-put_u32 q.id,
  length-put_u32 (base + length (pad body)),
  length-table base (pad body ++ q.code) qs,
)

-- The packets stand in front of what follows them.
pub pad-bodies :
    (body : List ℕ) (qs : List Item) → (more : List ℕ) × (pad (bodies body qs) ≡ pad body ++ more)
unfolding bodies
pad-bodies body [] = ([], sym (append-nil (pad body)))
pad-bodies body (q ∷ qs) =
    let (more, e) = pad-bodies (pad body ++ q.code) qs in
    (
      (q.code ++ padding (length (pad body ++ q.code))) ++ more,
      e
          ∙ ap (λ b. b ++ more) (pad-pad body q.code)
          ∙ append_assoc (pad body) (q.code ++ padding (length (pad body ++ q.code))) more,
    )

module _ (texts : Texts) (cp : ℕ) (enc : Charset) where
  -- A property that can be written and read back, with what is written of its value.
  pub record IsReadable (p : Property) : Type 0 where
    pub named : p.id ≢ 0
    pub narrow : p.id < 2 ^ 32
    pub code : List ℕ
    pub coded : ValueCode texts cp enc p.value code

  abbrev pub AllReadable : List Property → Type 0
  AllReadable [] = Unit
  AllReadable (p ∷ ps) = IsReadable p × AllReadable ps

  abbrev pub item : (p : Property) → IsReadable p → Item
  item p r = record { id = p.id; code = put_u16 (property_type p.value) ++ (put_u16 0 ++ r.code) }

  abbrev pub items : (ps : List Property) → AllReadable ps → List Item
  items [] all = []
  items (p ∷ ps) (r, all) = item p r ∷ items ps all

  pub length-items : (ps : List Property) (all : AllReadable ps) → length (items ps all) ≡ length ps
  length-items [] all = refl
  length-items (p ∷ ps) (r, all) = ap suc (length-items ps all)

  -- One property: its table entry and its packet.
  put_property_lem :
      (start base i k : ℕ) (front body : List ℕ) (p : Property) (r : IsReadable p)
      → length front ≡ start + 8 + i * 8
      → length front % 4 ≡ 0
      → base ≡ 8 + i * 8 + (8 * suc k)
      → put_property texts cp enc start i p (front ++ (replicate (8 * suc k) 0 ++ body))
        ≡ ok (
            (front ++ (put_u32 p.id ++ put_u32 (base + length (pad body))))
            ++ (replicate (8 * k) 0 ++ (pad body ++ (item p r).code)))
  unfolding put_property
  put_property_lem start base i k front body p r at even room =
      let four : List ℕ = replicate 4 0 in
      let left : List ℕ = replicate (8 * k) 0 in
      let off = base + length (pad body) in
      let named : List ℕ = front ++ put_u32 p.id in
      let eight : 8 * suc k ≡ suc (suc (suc (suc (suc (suc (suc (suc (8 * k)))))))) = omega arith in
      let zeros : replicate (8 * suc k) 0 ≡ four ++ (four ++ left) = rw eight refl in
      let aligned : align (front ++ (replicate (8 * suc k) 0 ++ body))
          ≡ front ++ (four ++ ((four ++ left) ++ pad body)) =
        align_lem _
        ∙ pad-append front _ even
        ∙ ap (λ x. front ++ x)
            (pad-append (replicate (8 * suc k) 0) body
                (omega (arith, length-replicate {A = ℕ} (8 * suc k) 0))
              ∙ ap (λ z. z ++ pad body) zeros
              ∙ append_assoc four (four ++ left) (pad body)) in
      let first =
        patch32-append front four ((four ++ left) ++ pad body) (start + 8 + i * 8) p.id at refl in
      let shape : front ++ (put_u32 p.id ++ ((four ++ left) ++ pad body))
          ≡ named ++ (four ++ (left ++ pad body)) =
        simp append_assoc in
      let size : length (named ++ (four ++ (left ++ pad body))) - start ≡ off = omega (
        arith,
        length-append named (four ++ (left ++ pad body)),
        length-append front (put_u32 p.id),
        length-put_u32 p.id,
        length-append four (left ++ pad body),
        length-append left (pad body),
        length-replicate {A = ℕ} (8 * k) 0,
        at,
        room,
      ) in
      let second =
        patch32-append named four (left ++ pad body) (start + 8 + i * 8 + 4) off
          (omega (arith, length-append front (put_u32 p.id), length-put_u32 p.id, at)) refl in
      let unnamed : (p.id == 0) ≡ false = ground (arith, r.named) in
      rw (unnamed, aligned)
        (rw first (
          rw (shape, size)
            (rw second (
              put_value_lem texts cp enc p.value r.code _ r.coded
              ∙ ap (λ x. ok x) (simp append_assoc)))))

  -- All properties.
  pub put_property_list_lem :
      (start base i : ℕ) (front body : List ℕ) (ps : List Property) (all : AllReadable ps)
      → length front ≡ start + 8 + i * 8
      → start % 4 ≡ 0
      → base ≡ 8 + i * 8 + 8 * length ps
      → put_property_list texts cp enc start i ps (front ++ (replicate (8 * length ps) 0 ++ body))
        ≡ ok (front ++ (table base body (items ps all) ++ bodies body (items ps all)))
  unfolding put_property_list table bodies
  put_property_list_lem start base i front body [] all at even room = refl
  put_property_list_lem start base i front body (p ∷ ps) (r, all) at even room =
      let off = base + length (pad body) in
      let front' = front ++ (put_u32 p.id ++ put_u32 off) in
      let size : length front' ≡ start + 8 + (i + 1) * 8 = omega (
        arith,
        at,
        length-append front (put_u32 p.id ++ put_u32 off),
        length-append (put_u32 p.id) (put_u32 off),
        length-put_u32 p.id,
        length-put_u32 off,
      ) in
      rw
        (put_property_lem start base i (length ps) front body p r at (omega (arith, at, even)) room)
        (put_property_list_lem start base (i + 1) front' (pad body ++ (item p r).code) ps all size
            even (omega (arith, room))
          ∙ ap (λ x. ok x) (simp append_assoc))

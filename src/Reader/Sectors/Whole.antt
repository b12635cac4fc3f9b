-- ===== src/Reader/Sectors/Whole.antt =====
-- The sectors are read whole, in order.
use go_cfb.Base.{
  ℕ, zero, suc, ◌+◌, ◌*◌, ◌/◌, ◌%◌, ◌^◌, ◌≤◌, ◌<◌, ◌≡◌, refl, sym, ap, ◌∙◌, List, [], ◌∷◌, ◌++◌,
  none, some, arith, ok, Bool-cases, inl, inr, ==_iff, ◌==◌, length, length-append, length-drop,
  take, drop, take-append-drop,
}
use mathlib.Core.Path.{subst}
use mathlib.Core.List.{append_assoc, append-nil}
use go_cfb.Bytes.{get_u32, get_u32s}
use go_cfb.Bytes.Laws.{bind-eq_some}
use go_cfb.Format.{max_reg_sect}
use go_cfb.Reader.Runs.{sector_offset}
use go_cfb.Reader.Stream.{ReaderAt}
use go_cfb.Reader.Stream.Content.{slice, length-slice, slice-add}
use go_cfb.Reader.Sectors.{
  read_group, read_groups, read_sectors, decode_words, load_batches, load_table,
}

-- A reader that serves the file without an error.
abbrev pub ServesClean : List ℕ → ReaderAt → Type 0
ServesClean file r = (off n : ℕ) → off + n ≤ length file → r off n ≡ (slice file off n, none)

-- The bytes of a list of sectors.
abbrev pub sectors_bytes : List ℕ → ℕ → List ℕ → List ℕ
sectors_bytes file sec_size [] = []
sectors_bytes file sec_size (s ∷ ss) =
    slice file (sector_offset sec_size s) sec_size ++ sectors_bytes file sec_size ss

-- Regular sectors that lie in the file.
abbrev pub AreSectors : List ℕ → ℕ → List ℕ → Type 0
AreSectors file sec_size [] = Unit
AreSectors file sec_size (s ∷ ss) =
    (s ≤ max_reg_sect)
    × (sector_offset sec_size s + sec_size ≤ length file)
    × AreSectors file sec_size ss

module _ (file : List ℕ) (r : ReaderAt) (serves : ServesClean file r) (sec_size : ℕ) where
  pub read_group_lem :
      (from n : ℕ)
      → sector_offset sec_size from + n * sec_size ≤ length file
      → read_group r sec_size from n ≡ ok (slice file (sector_offset sec_size from) (n * sec_size))
  unfolding read_group
  read_group_lem from n h =
      let got = serves (sector_offset sec_size from) (n * sec_size) h in
      rw (got, read_group) (ap (λ a. ok (a.0)) got)

  -- A group and the sector that follows it.
  group-step :
      (from n : ℕ)
      → slice file (sector_offset sec_size from) ((n + 1) * sec_size)
        ≡ slice file (sector_offset sec_size from) (n * sec_size)
          ++ slice file (sector_offset sec_size (from + n)) sec_size
  group-step from n =
      let size : (n + 1) * sec_size ≡ n * sec_size + sec_size = omega arith in
      let off : sector_offset sec_size from + n * sec_size ≡ sector_offset sec_size (from + n) =
        omega arith in
      rw size (
        slice-add file (sector_offset sec_size from) (n * sec_size) sec_size
        ∙ ap (λ k. slice file (sector_offset sec_size from) (n * sec_size) ++ slice file k sec_size)
            off)

  read_groups_lem :
      (from n prev : ℕ) (ss : List ℕ)
      → prev + 1 ≡ from + n
      → prev ≤ max_reg_sect
      → sector_offset sec_size from + n * sec_size ≤ length file
      → AreSectors file sec_size ss
      → read_groups r sec_size from n prev ss
        ≡ ok (
            slice file (sector_offset sec_size from) (n * sec_size)
            ++ sectors_bytes file sec_size ss)
  unfolding read_groups
  read_groups_lem from n prev [] e small h hs =
      read_group_lem from n h ∙ ap (λ xs. ok xs) (sym (append-nil _))
  read_groups_lem from n prev (s ∷ ss) e small h (low, fits, hs) =
      elim (Bool-cases (s == (prev + 1) % 2 ^ 32)) [
        | inl next ↦
            let same : s ≡ from + n = omega (arith, (==_iff s ((prev + 1) % 2 ^ 32)).0 next) in
            let off : sector_offset sec_size from + n * sec_size ≡ sector_offset sec_size s =
              rw same (omega arith) in
            rw next (
              read_groups_lem from (n + 1) s ss (omega arith) low (omega (arith, off)) hs
              ∙ ap (λ xs. ok xs)
                  (ap (λ xs. xs ++ sectors_bytes file sec_size ss) (group-step from n)
                    ∙ append_assoc (slice file (sector_offset sec_size from) (n * sec_size)) _ _
                    ∙ ap
                        (λ k.
                          slice file (sector_offset sec_size from) (n * sec_size)
                          ++ (slice file (sector_offset sec_size k) sec_size
                              ++ sectors_bytes file sec_size ss))
                        (sym same)))
        | inr apart ↦
            let one : 1 * sec_size ≡ sec_size = omega arith in
            let rest = read_groups_lem s 1 s ss (omega arith) low (omega arith) hs in
            rw (apart, read_group_lem from n h, rest, one) refl
      ]

  read_sectors_lem :
      (ss : List ℕ)
      → AreSectors file sec_size ss
      → read_sectors r sec_size ss ≡ ok (sectors_bytes file sec_size ss)
  unfolding read_sectors
  read_sectors_lem [] h = refl
  read_sectors_lem (s ∷ ss) (low, fits, hs) =
      let one : 1 * sec_size ≡ sec_size = omega arith in
      read_groups_lem s 1 s ss (omega arith) low (omega arith) hs ∙ rw one refl

-- The 32-bit words of a buffer; a rest of fewer than 4 bytes is left out.
abbrev pub words : List ℕ → List ℕ
words (a ∷ b ∷ c ∷ d ∷ r) = (a + b * 256 + c * 65536 + d * 16777216) ∷ words r
words _ = []

get_u32s-words : (n : ℕ) (b : List ℕ) → length b ≡ n * 4 → get_u32s n b ≡ some (words b, [])
unfolding get_u32s get_u32
get_u32s-words zero [] h = refl
get_u32s-words zero (a ∷ r) h = absurd (omega arith)
get_u32s-words (suc n) (a ∷ b ∷ c ∷ d ∷ r) h =
    bind-eq_some (get_u32s n) _ r (get_u32s-words n r (omega arith))
get_u32s-words (suc n) _ h = absurd (omega arith)

words-append : (n : ℕ) (a b : List ℕ) → length a ≡ n * 4 → words (a ++ b) ≡ words a ++ words b
words-append zero [] b h = refl
words-append zero (x ∷ a) b h = absurd (omega arith)
words-append (suc n) (x ∷ y ∷ z ∷ w ∷ a) b h =
    ap (λ vs. (x + y * 256 + z * 65536 + w * 16777216) ∷ vs) (words-append n a b (omega arith))
words-append (suc n) _ b h = absurd (omega arith)

decode_words_lem : (n : ℕ) (b : List ℕ) → length b ≡ n * 4 → decode_words b ≡ ok (words b)
unfolding decode_words
decode_words_lem n b h =
    let count : length b / 4 ≡ n = omega (arith, h) in
    rw (count, get_u32s-words n b h, decode_words) refl

module _ (file : List ℕ) (sec_size : ℕ) where
  sectors_bytes-append :
      (ss ts : List ℕ)
      → sectors_bytes file sec_size (ss ++ ts)
        ≡ sectors_bytes file sec_size ss ++ sectors_bytes file sec_size ts
  sectors_bytes-append [] ts = refl
  sectors_bytes-append (s ∷ ss) ts =
      let head = slice file (sector_offset sec_size s) sec_size in
      ap (λ xs. head ++ xs) (sectors_bytes-append ss ts)
      ∙ sym (append_assoc head (sectors_bytes file sec_size ss) _)

  AreSectors-append :
      (ss ts : List ℕ)
      → AreSectors file sec_size (ss ++ ts)
      → AreSectors file sec_size ss × AreSectors file sec_size ts
  AreSectors-append [] ts h = (tt, h)
  AreSectors-append (s ∷ ss) ts (low, fits, h) =
      let (a, b) = AreSectors-append ss ts h in ((low, fits, a), b)

  pub length-sectors_bytes :
      (ss : List ℕ)
      → AreSectors file sec_size ss
      → length (sectors_bytes file sec_size ss) ≡ length ss * sec_size
  length-sectors_bytes [] h = omega arith
  length-sectors_bytes (s ∷ ss) (low, fits, h) = omega (
    arith,
    length-append (slice file (sector_offset sec_size s) sec_size) (sectors_bytes file sec_size ss),
    length-slice file (sector_offset sec_size s) sec_size fits,
    length-sectors_bytes ss h,
  )

-- Reading sector by sector, in batches of coalesced groups.
module _ (file : List ℕ) (r : ReaderAt) (serves : ServesClean file r) (per batch : ℕ)
    (some_batch : 0 < batch) where
  load_batches_lem :
      (fuel : ℕ) (ss : List ℕ)
      → length ss ≤ fuel
      → AreSectors file (per * 4) ss
      → load_batches r (per * 4) batch fuel ss ≡ ok (words (sectors_bytes file (per * 4) ss))
  unfolding load_batches
  load_batches_lem fuel [] enough h = refl
  load_batches_lem zero (s ∷ ss) enough h = absurd (omega arith)
  load_batches_lem (suc fuel) (s ∷ ss) enough h =
      let a = take batch (s ∷ ss) in
      let b = drop batch (s ∷ ss) in
      let (ha, hb) =
        AreSectors-append file (per * 4) a b
          (subst (AreSectors file (per * 4)) (sym (take-append-drop batch (s ∷ ss))) h) in
      let size : length (sectors_bytes file (per * 4) a) ≡ length a * per * 4 =
        length-sectors_bytes file (per * 4) a ha ∙ omega arith in
      let rest = load_batches_lem fuel b (omega (arith, length-drop batch (s ∷ ss))) hb in
      let both : words (sectors_bytes file (per * 4) a) ++ words (sectors_bytes file (per * 4) b)
          ≡ words (sectors_bytes file (per * 4) (s ∷ ss)) =
        sym (
          words-append (length a * per) (sectors_bytes file (per * 4) a)
            (sectors_bytes file (per * 4) b) size)
        ∙ ap words (sym (sectors_bytes-append file (per * 4) a b))
        ∙ ap (λ xs. words (sectors_bytes file (per * 4) xs)) (take-append-drop batch (s ∷ ss)) in
      rw
        (
          read_sectors_lem file r serves (per * 4) a ha,
          decode_words_lem (length a * per) (sectors_bytes file (per * 4) a) size,
          rest,
        )
        (ap (λ xs. ok xs) both)

  -- The table that loadFAT and loadMiniFAT read is the words of its sectors, in order, whatever the
  -- size of a batch and whichever sectors are read together. A sector has `per` words, the reader
  -- serves the file without an error, and the sectors are regular ones that lie in the file.
  pub load_table-words :
      (ss : List ℕ)
      → AreSectors file (per * 4) ss
      → load_table r (per * 4) batch ss ≡ ok (words (sectors_bytes file (per * 4) ss))
  unfolding load_table
  load_table-words ss h = load_batches_lem (length ss) ss (omega arith) h

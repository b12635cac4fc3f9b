-- ===== src/Writer/Difat/Words.antt =====
-- readDIFAT finds the FAT in a file that holds the DIFAT.
use go_cfb.Base.{
  ℕ, zero, suc, ◌+◌, ◌-◌, ◌*◌, ◌%◌, ◌^◌, min, ◌≤◌, ◌<◌, ◌≡◌, refl, sym, ap, ◌∙◌, true, false, List,
  [], ◌∷◌, ◌++◌, map, some, arith, ok, ltb, ◌==◌, if◌then◌else◌, length, replicate,
}
use mathlib.Core.Path.{ap₂}
use native.Mathlib.Decide.{dec_lt}
use native.Mathlib.Nat.{mul-le-mul_right}
use mathlib.Core.List.{append-nil}
use go_cfb.Bytes.{◌>>=◌, return, get_u32, put_u32}
use go_cfb.Bytes.Laws.{bind-put_u32, bind-put_u32s}
use go_cfb.Format.{max_reg_sect, end_of_chain, free_sect, inline_difat}
use go_cfb.Reader.Errors.{Error, difat_entry, difat_sector_entry}
use go_cfb.Reader.Runs.{sector_offset}
use go_cfb.Reader.Sectors.{read_group}
use go_cfb.Reader.Sectors.Whole.{ServesClean, read_group_lem}
use go_cfb.Reader.Stream.{ReaderAt}
use go_cfb.Reader.Stream.Content.{slice}
use go_cfb.Reader.Difat.{keep_words, decode_difat, difat_loop, read_difat}
use go_cfb.Reader.Difat.Fields.{get_difat}
use go_cfb.Writer.Header.{Regions, count_from, inline_of, inline_entries}
use go_cfb.Writer.Header.Parse.{written, length-count_from}
use go_cfb.Writer.Difat.{difat_words, per_difat, difat_index, difat_next, difat_bytes}

keep_words-count_from :
    (e : Error) (start n : ℕ) (vs out : List ℕ)
    → start + n ≤ max_reg_sect + 1
    → keep_words e vs ≡ ok out
    → keep_words e (count_from start n ++ vs) ≡ ok (count_from start n ++ out)
unfolding keep_words
keep_words-count_from e start zero vs out small kept = kept
keep_words-count_from e start (suc n) vs out small kept =
    let rest = keep_words-count_from e (start + 1) n vs out (omega arith) kept in
    ground (arith, rest)

keep_words-replicate : (e : Error) (n : ℕ) → keep_words e (replicate n free_sect) ≡ ok []
unfolding keep_words
keep_words-replicate e zero = refl
keep_words-replicate e (suc n) = keep_words-replicate e n

-- Of the words of a sector, those for the FAT sectors that are left are kept.
keep_words-difat_words :
    (e : Error) (s : Regions) (idx n : ℕ)
    → s.fat_start + s.fat_count ≤ max_reg_sect + 1
    → keep_words e (difat_words s idx n)
      ≡ ok (count_from (s.fat_start + idx) (min n (s.fat_count - idx)))
unfolding keep_words difat_words
keep_words-difat_words e s idx zero small =
    let none_left : min 0 (s.fat_count - idx) ≡ 0 = omega arith in rw none_left refl
keep_words-difat_words e s idx (suc n) small =
    let rest = keep_words-difat_words e s (idx + 1) n small in
    elim (dec_lt idx s.fat_count) [
      | yes h ↦
          let at : ltb idx s.fat_count ≡ true = ground (arith, h) in
          let count : min (suc n) (s.fat_count - idx) ≡ suc (min n (s.fat_count - (idx + 1))) =
            omega (arith, h) in
          let next : s.fat_start + (idx + 1) ≡ s.fat_start + idx + 1 = omega arith in
          let used : ((s.fat_start + idx) == free_sect) ≡ false = ground (arith, h, small) in
          let regular : ltb max_reg_sect (s.fat_start + idx) ≡ false = ground (arith, h, small) in
          rw (at, count, used, regular, rest, next) refl
      | no h ↦
          let at : ltb idx s.fat_count ≡ false = ground (arith, h) in
          let count : min (suc n) (s.fat_count - idx) ≡ 0 = omega (arith, h) in
          let after : min n (s.fat_count - (idx + 1)) ≡ 0 = omega (arith, h) in
          let free : (free_sect == free_sect) ≡ true = refl in rw (at, count, rest, after) refl
    ]

pub length-difat_words : (s : Regions) (idx n : ℕ) → length (difat_words s idx n) ≡ n
unfolding difat_words
length-difat_words s idx zero = refl
length-difat_words s idx (suc n) = ap suc (length-difat_words s (idx + 1) n)

map-difat_words :
    (s : Regions) (idx n : ℕ)
    → s.fat_start + s.fat_count < 2 ^ 32
    → map (λ v. v % 2 ^ 32) (difat_words s idx n) ≡ difat_words s idx n
unfolding difat_words
map-difat_words s idx zero small = refl
map-difat_words s idx (suc n) small =
    ap₂ (λ v vs. v ∷ vs) (ground (arith, small)) (map-difat_words s (idx + 1) n small)

get_difat-difat_bytes :
    (s : Regions) (i : ℕ)
    → s.fat_start + s.fat_count < 2 ^ 32
    → s.difat_start + s.difat_count < 2 ^ 32
    → decode_difat (per_difat s) (difat_bytes s i)
      ≡ ok (difat_words s (difat_index s i) (per_difat s), difat_next s i)
unfolding decode_difat get_difat difat_bytes
get_difat-difat_bytes s i small small' =
    let next : difat_next s i % 2 ^ 32 ≡ difat_next s i = ground (arith, small') in
    let got : get_difat (per_difat s) (difat_bytes s i)
        ≡ some ((difat_words s (difat_index s i) (per_difat s), difat_next s i), []) =
      bind-put_u32s (per_difat s) (difat_words s (difat_index s i) (per_difat s)) _
        (put_u32 (difat_next s i)) (length-difat_words s (difat_index s i) (per_difat s))
      ∙ ap
          (λ b.
            (get_u32 >>= λ n.
            return (map (λ v. v % 2 ^ 32) (difat_words s (difat_index s i) (per_difat s)), n))
              b)
          (sym (append-nil (put_u32 (difat_next s i))))
      ∙ bind-put_u32 (difat_next s i) _ []
      ∙ rw (map-difat_words s (difat_index s i) (per_difat s) small, next) refl in
    rw (got, decode_difat) refl

count_from-append : (a m n : ℕ) → count_from a m ++ count_from (a + m) n ≡ count_from a (m + n)
count_from-append a zero n =
    let e : a + 0 ≡ a = omega arith in let k : 0 + n ≡ n = omega arith in rw (e, k) refl
count_from-append a (suc m) n =
    let e : a + suc m ≡ a + 1 + m = omega arith in
    let k : suc m + n ≡ suc (m + n) = omega arith in
    rw (e, k) (ap (λ vs. a ∷ vs) (count_from-append (a + 1) m n))

-- Two neighbouring parts of the sectors that are left.
count_from-min :
    (a p q f : ℕ)
    → count_from a (min p f) ++ count_from (a + p) (min q (f - p)) ≡ count_from a (min (p + q) f)
count_from-min a p q f = elim (dec_lt f p) [
  | yes h ↦
      let one : min p f ≡ f = omega (arith, h) in
      let two : min q (f - p) ≡ 0 = omega (arith, h) in
      let all : min (p + q) f ≡ f = omega (arith, h) in
      rw (one, two, all) (append-nil (count_from a f))
  | no h ↦
      let one : min p f ≡ p = omega (arith, h) in
      let all : min (p + q) f ≡ p + min q (f - p) = omega (arith, h) in
      rw (one, all) (count_from-append a p (min q (f - p)))
]

-- The DIFAT stands in the file.
pub record HoldsDifat (file : List ℕ) (s : Regions) : Type 0 where
  pub inside : sector_offset s.sec_size (s.difat_start + s.difat_count) ≤ length file
  pub sectors :
      (i : ℕ)
      → i < s.difat_count
      → slice file (sector_offset s.sec_size (s.difat_start + i)) s.sec_size ≡ difat_bytes s i

module _ (file : List ℕ) (r : ReaderAt) (serves : ServesClean file r) (s : Regions)
    (h : HoldsDifat file s) (fat : s.fat_start + s.fat_count ≤ max_reg_sect + 1)
    (chain : s.difat_start + s.difat_count ≤ max_reg_sect + 1) where
  -- The sector that the loop is at after `i` rounds.
  sector_at : ℕ → ℕ
  sector_at i = if ltb i s.difat_count then s.difat_start + i else end_of_chain

  read_sector :
      (i : ℕ)
      → i < s.difat_count
      → read_group r s.sec_size (s.difat_start + i) 1 ≡ ok (difat_bytes s i)
  read_sector i below =
      let one : 1 * s.sec_size ≡ s.sec_size = omega arith in
      let room : (s.difat_start + i + 2) * s.sec_size
          ≤ (s.difat_start + s.difat_count + 1) * s.sec_size =
        mul-le-mul_right s.sec_size (omega arith) in
      read_group_lem file r serves s.sec_size (s.difat_start + i) 1 (omega (arith, room, h.inside))
      ∙ rw one (ap (λ b. ok b) (h.sectors i below))

  difat_loop_lem :
      (n i : ℕ)
      → i + n ≡ s.difat_count
      → difat_loop r s.sec_size n (sector_at i)
        ≡ ok (
          count_from
              (s.fat_start + difat_index s i)
              (min (n * per_difat s) (s.fat_count - difat_index s i)),
          end_of_chain,
        )
  unfolding difat_loop sector_at
  difat_loop_lem zero i e =
      let end : ltb i s.difat_count ≡ false = ground (arith, e) in
      let none_left : min (0 * per_difat s) (s.fat_count - difat_index s i) ≡ 0 = omega arith in
      rw (end, none_left) refl
  difat_loop_lem (suc n) i e =
      let below : ltb i s.difat_count ≡ true = ground (arith, e) in
      let open_chain : ((s.difat_start + i) == end_of_chain) ≡ false = ground (arith, e, chain) in
      let regular : ltb max_reg_sect (s.difat_start + i) ≡ false = ground (arith, e, chain) in
      let next : difat_next s i ≡ sector_at (i + 1) =
        ap (λ k. if ltb (i + 1) s.difat_count then k else end_of_chain) (omega arith) in
      let kept = keep_words-difat_words difat_sector_entry s (difat_index s i) (per_difat s) fat in
      let rest = difat_loop_lem n (i + 1) (omega (arith, e)) in
      rw
        (
          below,
          open_chain,
          regular,
          read_sector i (omega (arith, e)),
          get_difat-difat_bytes s i (omega (arith, fat)) (omega (arith, chain)),
          kept,
          next,
          rest,
        )
        (let start : s.fat_start + difat_index s (i + 1)
              ≡ s.fat_start + difat_index s i + per_difat s =
            omega arith in
          let left : s.fat_count - difat_index s (i + 1)
              ≡ s.fat_count - difat_index s i - per_difat s =
            omega arith in
          let size : suc n * per_difat s ≡ per_difat s + n * per_difat s = omega arith in
          rw (start, left, size)
            (ap (λ xs. ok (xs, end_of_chain))
              (count_from-min (s.fat_start + difat_index s i) (per_difat s) (n * per_difat s)
                (s.fat_count - difat_index s i))))

  pub read_difat_lem :
      s.fat_count ≤ inline_difat + s.difat_count * per_difat s
      → read_difat r s.sec_size (written s) ≡ ok (count_from s.fat_start s.fat_count)
  unfolding read_difat sector_at
  read_difat_lem named =
      let inline : keep_words difat_entry (inline_entries s)
          ≡ ok (count_from s.fat_start (inline_of s) ++ []) =
        keep_words-count_from difat_entry s.fat_start (inline_of s) _ [] (omega (arith, fat))
          (keep_words-replicate difat_entry _) in
      let first : (if ltb 0 s.difat_count then s.difat_start else end_of_chain) ≡ sector_at 0 =
        ap (λ k. if ltb 0 s.difat_count then k else end_of_chain) (omega arith) in
      let chained = difat_loop_lem s.difat_count 0 (omega arith) in
      let all : (count_from s.fat_start (inline_of s) ++ [])
            ++ count_from (s.fat_start + difat_index s 0)
                (min (s.difat_count * per_difat s) (s.fat_count - difat_index s 0))
          ≡ count_from s.fat_start s.fat_count =
        let start : s.fat_start + difat_index s 0 ≡ s.fat_start + inline_difat = omega arith in
        let left : s.fat_count - difat_index s 0 ≡ s.fat_count - inline_difat = omega arith in
        let inline_count : inline_of s ≡ min inline_difat s.fat_count = omega arith in
        let total : min (inline_difat + s.difat_count * per_difat s) s.fat_count ≡ s.fat_count =
          omega (arith, named) in
        rw (append-nil (count_from s.fat_start (inline_of s)), start, left, inline_count)
          (count_from-min s.fat_start inline_difat (s.difat_count * per_difat s) s.fat_count
            ∙ ap (count_from s.fat_start) total) in
      let count : (length (count_from s.fat_start s.fat_count) == s.fat_count) ≡ true =
        ground (arith, length-count_from s.fat_start s.fat_count) in
      rw (inline, first, chained, all, count) refl

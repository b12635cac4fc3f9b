-- ===== src/Writer/Header/Parse.antt =====
-- The parser accepts the header that the writer writes.
use go_cfb.Base.{
  ℕ, zero, suc, ◌+◌, ◌-◌, ◌*◌, ◌/◌, ◌%◌, ◌^◌, ◌≤◌, ◌<◌, ◌≡◌, ◌≢◌, ◌⊎◌, inl, inr, refl, sym, ap, ◌∙◌,
  List, [], ◌∷◌, ◌++◌, map, some, none, ok, arith, ltb, ◌==◌, if◌then◌else◌, replicate, length,
  take, length-append, length-replicate,
}
use mathlib.Core.Path.{ap₂}
use mathlib.Core.List.{append_assoc, append-nil, map-append}
use go_cfb.Bytes.{get_sub}
use go_cfb.Bytes.Laws.{
  length-put_u16, length-put_u32, length-put_u64, length-put_u32s, round_trips, bind-put_u32s,
}
use go_cfb.Format.{
  header_size, inline_difat, header_signature, minor_version, byte_order_le, mini_sector_shift,
  mini_stream_cutoff, end_of_chain, free_sect,
}
use go_cfb.Reader.Stream.{ReaderAt}
use go_cfb.Base.Slices.{take_left}
use go_cfb.Reader.Stream.Read.{Serves}
use go_cfb.Reader.Header.Fields.{Header, get_header}
use go_cfb.Reader.Header.{validate_header, parse_header}
use go_cfb.Writer.Header.{
  Regions, trailing_zeros, count_from, major_of, inline_of, inline_entries, header_bytes,
  patch_header,
}

-- The header that stands for the regions, as its reader has it.
abbrev pub written : Regions → Header
written s = record {
  signature = header_signature;
  minor = minor_version;
  major = major_of s;
  byte_order = byte_order_le;
  sector_shift = if s.sec_size == 4096 then 12 else 9;
  mini_shift = mini_sector_shift;
  num_dir_sectors = if s.sec_size == 4096 then s.dir_secs else 0;
  num_fat_sectors = s.fat_count;
  first_dir_sector = s.dir_start;
  cutoff = mini_stream_cutoff;
  first_mini_fat_sector = if ltb 0 s.mini_fat_secs then s.mini_fat_start else end_of_chain;
  num_mini_fat_sectors = s.mini_fat_secs;
  first_difat_sector = if ltb 0 s.difat_count then s.difat_start else end_of_chain;
  num_difat_sectors = s.difat_count;
  difat = inline_entries s;
}

pub length-count_from : (start n : ℕ) → length (count_from start n) ≡ n
length-count_from start zero = refl
length-count_from start (suc n) = ap suc (length-count_from (start + 1) n)

pub length-inline_entries : (s : Regions) → length (inline_entries s) ≡ inline_difat
length-inline_entries s = omega (
  arith,
  length-append (count_from s.fat_start (inline_of s))
      (replicate (inline_difat - inline_of s) free_sect),
  length-count_from s.fat_start (inline_of s),
  length-replicate (inline_difat - inline_of s) free_sect,
)

-- The regions fit the 32-bit fields of the header.
pub record IsSized (s : Regions) : Type 0 where
  pub sector : (s.sec_size ≡ 512) ⊎ (s.sec_size ≡ 4096)
  pub dir_secs : s.dir_secs < 2 ^ 32
  pub dir_start : s.dir_start < 2 ^ 32
  pub fat_end : s.fat_start + s.fat_count < 2 ^ 32
  pub mini_fat_start : s.mini_fat_start < 2 ^ 32
  pub mini_fat_secs : s.mini_fat_secs < 2 ^ 32
  pub difat_start : s.difat_start < 2 ^ 32
  pub difat_count : s.difat_count < 2 ^ 32

map-count_from :
    (start n : ℕ)
    → start + n ≤ 2 ^ 32
    → map (λ v. v % 2 ^ 32) (count_from start n) ≡ count_from start n
map-count_from start zero h = refl
map-count_from start (suc n) h =
    ap₂ (λ x xs. x ∷ xs) (omega arith) (map-count_from (start + 1) n (omega arith))

map-replicate : (n v : ℕ) → map (λ v. v % 2 ^ 32) (replicate n v) ≡ replicate n (v % 2 ^ 32)
map-replicate zero v = refl
map-replicate (suc n) v = ap (λ xs. (v % 2 ^ 32) ∷ xs) (map-replicate n v)

map-inline_entries :
    (s : Regions) → IsSized s → map (λ v. v % 2 ^ 32) (inline_entries s) ≡ inline_entries s
map-inline_entries s v =
    map-append _ (count_from s.fat_start (inline_of s)) _
    ∙ ap₂ (λ xs ys. xs ++ ys) (map-count_from s.fat_start (inline_of s) (omega (arith, v.fat_end)))
        (map-replicate (inline_difat - inline_of s) free_sect)

shift_of : (n : ℕ) → (n ≡ 512) ⊎ (n ≡ 4096) → trailing_zeros 64 n ≡ (if n == 4096 then 12 else 9)
unfolding trailing_zeros
shift_of n (inl e) = rw e
shift_of n (inr e) = rw e

get_header-header_bytes :
    (s : Regions) (r : List ℕ) → IsSized s → get_header (header_bytes s ++ r) ≡ some (written s, r)
unfolding get_header header_bytes get_sub
get_header-header_bytes s r v =
    simp (round_trips, bind-put_u32s 109 (inline_entries s), length-inline_entries s)
      (rw (map-inline_entries s v, shift_of s.sec_size v.sector)
        (ground (arith, v.sector, v.fat_end, v.dir_start)))

-- What the serializer's counts satisfy: there is a FAT, which has a word for every sector of the
-- directory and of the mini FAT, and a DIFAT of no more sectors than the FAT needs.
pub record IsConsistent (s : Regions) : Type 0 where
  pub some_fat : 0 < s.fat_count
  pub dir_fits : s.dir_secs ≤ s.fat_count * (s.sec_size / 4)
  pub mini_fits : s.mini_fat_secs ≤ s.fat_count * (s.sec_size / 4)
  pub difat_fits : s.difat_count ≤ s.fat_count / (s.sec_size / 4 - 1) + 1
  pub mini_start : s.mini_fat_start ≢ end_of_chain

validate-written :
    (s : Regions) → IsSized s → IsConsistent s → validate_header (written s) ≡ ok (written s)
unfolding validate_header
validate-written s v c = elim v.sector [
  | inl e ↦
      let dirs = rw e at c.dir_fits in
      let minis = rw e at c.mini_fits in
      let difats = rw e at c.difat_fits in rw e (ground (arith, dirs, minis, difats))
  | inr e ↦
      let dirs = rw e at c.dir_fits in
      let minis = rw e at c.mini_fits in
      let difats = rw e at c.difat_fits in rw e (ground (arith, dirs, minis, difats))
]

-- The header is just as long as its buffer.
pub length-header_bytes : (s : Regions) → length (header_bytes s) ≡ header_size
unfolding header_bytes
length-header_bytes s =
    simp (length-append, length-put_u16, length-put_u32, length-put_u64, length-put_u32s)
      (omega (
        arith,
        length-append (count_from s.fat_start (inline_of s))
            (replicate (inline_difat - inline_of s) free_sect),
        length-inline_entries s,
      ))

-- What the writer puts at the start of a file, parseHeader reads back and accepts: the sizes, the
-- first sectors of the regions and the inline DIFAT are those of the serializer. The regions fit
-- 32 bits, and the reader serves the file without an error.
pub parse_header-patch_header :
    (s : Regions) (r : ReaderAt) (rest : List ℕ)
    → IsSized s
    → IsConsistent s
    → Serves (patch_header s ++ rest) r
    → (r 0 header_size).1 ≡ none
    → parse_header r ≡ ok (written s)
unfolding parse_header patch_header
parse_header-patch_header s r rest v c serves clean =
    rw (clean, got, get_header-header_bytes s [] v, parse_header) (validate-written s v c)
  where
    size : header_size ≤ length (patch_header s ++ rest)
    size = omega (
      arith,
      length-header_bytes s,
      length-append (header_bytes s) (replicate (s.sec_size - header_size) 0),
      length-append (patch_header s) rest,
    )

    got : (r 0 header_size).0 ≡ header_bytes s ++ []
    got =
        serves 0 header_size size
        ∙ ap (take header_size) (append_assoc (header_bytes s) _ rest)
        ∙ take_left header_size (header_bytes s) _ (length-header_bytes s)
        ∙ sym (append-nil (header_bytes s))

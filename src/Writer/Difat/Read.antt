-- ===== src/Writer/Difat/Read.antt =====
-- readDIFAT finds the FAT through the header and the DIFAT that the writer writes.
use go_cfb.Base.{
  ℕ, zero, suc, ◌+◌, ◌*◌, ◌≤◌, ◌<◌, ◌≡◌, ◌⊎◌, sym, ap, ◌∙◌, true, List, [], ◌++◌, arith, ok, length,
  length-append, take, drop,
}
use mathlib.Core.Path.{subst}
use mathlib.Core.List.{append_assoc, append-nil}
use go_cfb.Base.Slices.{take_left, drop_left, drop-drop}
use go_cfb.Bytes.{put_u32, put_u32s}
use go_cfb.Bytes.Laws.{length-put_u32, length-put_u32s}
use go_cfb.Format.{max_reg_sect, inline_difat}
use go_cfb.Reader.Runs.{sector_offset}
use go_cfb.Reader.Sectors.Whole.{ServesClean}
use go_cfb.Reader.Stream.{ReaderAt}
use go_cfb.Reader.Difat.{read_difat}
use go_cfb.Writer.Header.{Regions, count_from}
use go_cfb.Writer.Header.Parse.{written}
use go_cfb.Writer.Difat.{
  difat_words, per_difat, difat_index, difat_next, difat_bytes, difat_sectors, emit_difat,
}
use go_cfb.Writer.Stream.{Sink, Shared}
use go_cfb.Writer.Stream.Flush.{Accepts, cw_write-Accepts}
use go_cfb.Writer.Difat.Words.{HoldsDifat, read_difat_lem, length-difat_words}

-- What the loop of emitDIFAT writes.
abbrev all_difat : Regions → ℕ → ℕ → List ℕ
all_difat s zero i = []
all_difat s (suc n) i = difat_bytes s i ++ all_difat s n (i + 1)

difat_sectors-eq :
    (sink : Sink)
    → Accepts sink
    → (s : Regions) (n i : ℕ) (w : Shared)
    → difat_sectors sink w s n i
      ≡ (record { sec_size = w.sec_size; out = w.out ++ all_difat s n i }, true)
unfolding difat_sectors
difat_sectors-eq sink accepts s zero i w =
    ap (λ o. (record { sec_size = w.sec_size; out = o }, true)) (sym (append-nil w.out))
difat_sectors-eq sink accepts s (suc n) i w =
    let w' : Shared = record { sec_size = w.sec_size; out = w.out ++ difat_bytes s i } in
    rw (cw_write-Accepts sink accepts w (difat_bytes s i)) (
      difat_sectors-eq sink accepts s n (i + 1) w'
      ∙ ap (λ o. (record { sec_size = w.sec_size; out = o }, true))
          (append_assoc w.out (difat_bytes s i) _))

length-difat_bytes :
    (s : Regions) (i : ℕ)
    → (s.sec_size ≡ 512) ⊎ (s.sec_size ≡ 4096)
    → length (difat_bytes s i) ≡ s.sec_size
unfolding difat_bytes
length-difat_bytes s i sized =
    let size : 4 * per_difat s + 4 ≡ s.sec_size = omega (arith, sized) in
    omega (
      arith,
      length-append (put_u32s (difat_words s (difat_index s i) (per_difat s)))
          (put_u32 (difat_next s i)),
      length-put_u32s (difat_words s (difat_index s i) (per_difat s)),
      length-difat_words s (difat_index s i) (per_difat s),
      length-put_u32 (difat_next s i),
      size,
    )

-- The sector at place `i` of what is written.
take-all_difat :
    (s : Regions) (n j i : ℕ) (more : List ℕ)
    → (s.sec_size ≡ 512) ⊎ (s.sec_size ≡ 4096)
    → i < n
    → take s.sec_size (drop (i * s.sec_size) (all_difat s n j ++ more)) ≡ difat_bytes s (j + i)
take-all_difat s zero j i more sized h = absurd (omega arith)
take-all_difat s (suc n) j zero more sized h =
    let none_before : 0 * s.sec_size ≡ 0 = omega arith in
    let here : j + 0 ≡ j = omega arith in
    rw (none_before, here, append_assoc (difat_bytes s j) (all_difat s n (j + 1)) more)
      (take_left s.sec_size (difat_bytes s j) _ (length-difat_bytes s j sized))
take-all_difat s (suc n) j (suc i) more sized h =
    let size : suc i * s.sec_size ≡ s.sec_size + i * s.sec_size = omega arith in
    let here : j + suc i ≡ j + 1 + i = omega arith in
    rw (size, here)
      (ap (take s.sec_size) (
          sym (drop-drop (i * s.sec_size) s.sec_size _)
          ∙ ap (λ xs. drop (i * s.sec_size) (drop s.sec_size xs))
              (append_assoc (difat_bytes s j) (all_difat s n (j + 1)) more)
          ∙ ap (drop (i * s.sec_size))
              (drop_left s.sec_size (difat_bytes s j) _ (length-difat_bytes s j sized)))
        ∙ take-all_difat s n (j + 1) i more sized (omega arith))

-- The file: a first sector, the output, and what follows.
module _ (s : Regions) (head out more : List ℕ) (sized : (s.sec_size ≡ 512) ⊎ (s.sec_size ≡ 4096))
    (first : length head ≡ s.sec_size) (at : length out ≡ s.difat_start * s.sec_size) where
  abbrev file : List ℕ
  file = head ++ (out ++ (all_difat s s.difat_count 0 ++ more))

  drop-file :
      (i : ℕ)
      → drop (sector_offset s.sec_size (s.difat_start + i)) file
        ≡ drop (i * s.sec_size) (all_difat s s.difat_count 0 ++ more)
  drop-file i =
      let far : sector_offset s.sec_size (s.difat_start + i)
          ≡ s.sec_size + (s.difat_start * s.sec_size + i * s.sec_size) =
        omega arith in
      rw far (
        sym (drop-drop (s.difat_start * s.sec_size + i * s.sec_size) s.sec_size file)
        ∙ ap (drop (s.difat_start * s.sec_size + i * s.sec_size))
            (drop_left s.sec_size head _ first)
        ∙ sym (drop-drop (i * s.sec_size) (s.difat_start * s.sec_size) _)
        ∙ ap (drop (i * s.sec_size)) (drop_left (s.difat_start * s.sec_size) out _ at))

  length-all_difat : (n i : ℕ) → length (all_difat s n i) ≡ n * s.sec_size
  length-all_difat zero i = omega arith
  length-all_difat (suc n) i = omega (
    arith,
    length-append (difat_bytes s i) (all_difat s n (i + 1)),
    length-difat_bytes s i sized,
    length-all_difat n (i + 1),
  )

  file-HoldsDifat : HoldsDifat file s
  file-HoldsDifat = record {
    inside = omega (
      arith,
      first,
      at,
      length-append head (out ++ (all_difat s s.difat_count 0 ++ more)),
      length-append out (all_difat s s.difat_count 0 ++ more),
      length-append (all_difat s s.difat_count 0) more,
      length-all_difat s.difat_count 0,
    );
    sectors = λ i below.
        ap (take s.sec_size) (drop-file i)
        ∙ take-all_difat s s.difat_count 0 i more sized below
        ∙ ap (difat_bytes s) (omega arith);
  }

-- emitDIFAT over an underlying writer that takes everything succeeds, and readDIFAT finds just the
-- sectors of the FAT, in order, in any file that starts with a sector and has the output and then
-- anything behind it. The output was at the first sector of the DIFAT, the counts suffice, and the
-- sectors of the FAT and of the DIFAT are regular ones.
pub read_difat-emit_difat :
    (s : Regions) (sink : Sink) (w : Shared) (head more : List ℕ) (r : ReaderAt)
    → (s.sec_size ≡ 512) ⊎ (s.sec_size ≡ 4096)
    → Accepts sink
    → length head ≡ s.sec_size
    → length w.out ≡ s.difat_start * s.sec_size
    → s.fat_count ≤ inline_difat + s.difat_count * per_difat s
    → s.fat_start + s.fat_count ≤ max_reg_sect + 1
    → s.difat_start + s.difat_count ≤ max_reg_sect + 1
    → ServesClean (head ++ ((emit_difat sink w s).0.out ++ more)) r
    → ((emit_difat sink w s).1 ≡ true)
      × (read_difat r s.sec_size (written s) ≡ ok (count_from s.fat_start s.fat_count))
unfolding emit_difat
read_difat-emit_difat s sink w head more r sized accepts first at named fat chain serves =
    let done = difat_sectors-eq sink accepts s s.difat_count 0 w in
    let bytes : (emit_difat sink w s).0.out ++ more
        ≡ w.out ++ (all_difat s s.difat_count 0 ++ more) =
      ap (λ d. d.0.out ++ more) done ∙ append_assoc w.out (all_difat s s.difat_count 0) more in
    let served = subst (λ xs. ServesClean (head ++ xs) r) bytes serves in
    (
      ap (λ d. d.1) done,
      read_difat_lem (file s head w.out more sized first at) r served s
          (file-HoldsDifat s head w.out more sized first at) fat chain named,
    )

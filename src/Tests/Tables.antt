-- ===== src/Tests/Tables.antt =====
-- Runs of the code that writes and reads the tables of a file.
use go_cfb.Base.{
  ℕ, ◌≡◌, inl, refl, arith, List, [], ◌∷◌, ◌++◌, inr, none, true, false, ok, replicate,
}
use go_cfb.Bytes.{put_u32s}
use go_cfb.Format.{end_of_chain, fat_sect}
use go_cfb.Reader.Difat.{read_difat}
use go_cfb.Reader.Sectors.{load_table}
use go_cfb.Reader.Sectors.Whole.{words, sectors_bytes, load_table-words}
use go_cfb.Reader.Stream.{ReaderAt}
use go_cfb.Reader.Stream.Content.{slice}
use go_cfb.Writer.Header.{Regions, count_from}
use go_cfb.Writer.Header.Parse.{written}
use go_cfb.Writer.Difat.{emit_difat}
use go_cfb.Writer.Difat.Read.{read_difat-emit_difat}
use go_cfb.Writer.Stream.{Sink, Shared}
use go_cfb.Writer.Table.{FatRun, write_chain_table}
use go_cfb.Writer.Table.Words.{Agree}
use go_cfb.Writer.Table.Written.{extend, Tabulates, write_chain_table-Tabulates}

-- Three sectors of two words behind the header's.
abbrev file : List ℕ
file = replicate 8 0 ++ (replicate 8 1 ++ (replicate 8 2 ++ replicate 8 3))

abbrev serve : ReaderAt
serve off n = (slice file off n, none)

load_table-words_example :
    load_table serve 8 2 (2 ∷ 0 ∷ 1 ∷ []) ≡ ok (words (sectors_bytes file 8 (2 ∷ 0 ∷ 1 ∷ [])))
load_table-words_example =
    load_table-words file serve (λ off n h. refl) 2 2 (omega arith) (2 ∷ 0 ∷ 1 ∷ []) (omega arith)

abbrev takes_all : Sink
takes_all count n = none

-- 110 FAT sectors: one more than the header names.
abbrev regions : Regions
regions = record {
  sec_size = 512;
  dir_start = 112;
  dir_secs = 1;
  mini_fat_start = 113;
  mini_fat_secs = 0;
  fat_start = 1;
  fat_count = 110;
  difat_start = 0;
  difat_count = 1;
}

abbrev empty : Shared
empty = record { sec_size = 512; out = [] }

abbrev whole : List ℕ
whole = replicate 512 0 ++ ((emit_difat takes_all empty regions).0.out ++ [])

abbrev serve_whole : ReaderAt
serve_whole off n = (slice whole off n, none)

read_difat-emit_difat_example :
    ((emit_difat takes_all empty regions).1 ≡ true)
    × (read_difat serve_whole 512 (written regions) ≡ ok (count_from 1 110))
read_difat-emit_difat_example =
    read_difat-emit_difat regions takes_all empty (replicate 512 0) [] serve_whole (inl refl)
      (λ count n. refl) refl refl (omega arith) (omega arith) (omega arith) (λ off n h. refl)

-- A chain of two sectors, and two sectors of a FAT.
abbrev runs : List FatRun
runs =
    record { first = 5; count = 2; terminal = fat_sect; linear = false }
    ∷ record { first = 1; count = 2; terminal = end_of_chain; linear = true }
    ∷ []

runs-Agree : Agree runs
runs-Agree r s x (inl a) (inl b) i j = rw (a, b) refl
runs-Agree r s x (inl a) (inr (inl b)) i j = absurd (ground (arith, a, b, i, j))
runs-Agree r s x (inl a) (inr (inr b)) i j = absurd b
runs-Agree r s x (inr (inl a)) (inl b) i j = absurd (ground (arith, a, b, i, j))
runs-Agree r s x (inr (inl a)) (inr (inl b)) i j = rw (a, b) refl
runs-Agree r s x (inr (inl a)) (inr (inr b)) i j = absurd b
runs-Agree r s x (inr (inr a)) h i j = absurd a

write_chain_table-Tabulates_example :
    (words : List ℕ) × (write_chain_table takes_all empty 1 runs
      ≡ (extend empty (put_u32s words), true))
    × Tabulates runs 128 words
write_chain_table-Tabulates_example =
    write_chain_table-Tabulates takes_all empty 1 runs (λ count n. refl) (omega arith) (omega arith)
      runs-Agree

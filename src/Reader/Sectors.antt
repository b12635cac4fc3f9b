-- ===== src/Reader/Sectors.antt =====
-- readSectors of reader.go, and the loops of loadFAT and loadMiniFAT that read a table of words.
pub mod Whole
pub mod Total
use go_cfb.Base.{
  ℕ, zero, suc, ◌+◌, ◌*◌, ◌/◌, ◌%◌, ◌^◌, List, [], ◌∷◌, ◌++◌, Option, none, some, ok, err, panic,
  stuck, ◌>>=◌, ◌==◌, if◌then◌else◌, length, take, drop,
}
use go_cfb.Bytes.{get_u32s}
use go_cfb.Reader.Errors.{Parsed}
use go_cfb.Reader.Runs.{sector_offset}
use go_cfb.Reader.Stream.{ReaderAt}

-- One call of ReadAt, for `n` sectors that follow each other from `from` on. Any error is returned.
unfoldable pub read_group : ReaderAt → ℕ → ℕ → ℕ → Parsed (List ℕ)
read_group r sec_size from n =
    let got = r (sector_offset sec_size from) (n * sec_size) in
    elim (got.1) [ none ↦ ok (got.0) | some e ↦ err e ]

-- The loop: `from` is `sectors[first]`, `n` is `i - first`, and `prev` is `sectors[i-1]`. What is
-- read fills `out` from the front.
unfoldable pub read_groups : ReaderAt → ℕ → ℕ → ℕ → ℕ → List ℕ → Parsed (List ℕ)
unfolding read_group
read_groups r sec_size from n prev [] = read_group r sec_size from n
read_groups r sec_size from n prev (s ∷ ss) =
    let joined = read_groups r sec_size from (n + 1) s ss in
    let split = do
      got ← read_group r sec_size from n
      rest ← read_groups r sec_size s 1 s ss
      ok (got ++ rest)
    in if s == (prev + 1) % 2 ^ 32 then joined else split

unfoldable pub read_sectors : ReaderAt → ℕ → List ℕ → Parsed (List ℕ)
unfolding read_groups
read_sectors r sec_size [] = ok []
read_sectors r sec_size (s ∷ ss) = read_groups r sec_size s 1 s ss

-- `for range len(buf) / 4 { … b.uint32() }`
unfoldable pub decode_words : List ℕ → Parsed (List ℕ)
decode_words buf = elim (get_u32s (length buf / 4) buf) [ none ↦ panic | some (ws, rest) ↦ ok ws ]

-- The loop over batches. A round takes one sector at least, if `batch` is not 0, so as many rounds
-- as there are sectors are enough.
unfoldable pub load_batches : ReaderAt → ℕ → ℕ → ℕ → List ℕ → Parsed (List ℕ)
load_batches r sec_size batch fuel [] = ok []
load_batches r sec_size batch zero (s ∷ ss) = stuck
load_batches r sec_size batch (suc fuel) (s ∷ ss) = do
  buf ← read_sectors r sec_size (take batch (s ∷ ss))
  ws ← decode_words buf
  rest ← load_batches r sec_size batch fuel (drop batch (s ∷ ss))
  ok (ws ++ rest)

unfoldable pub load_table : ReaderAt → ℕ → ℕ → List ℕ → Parsed (List ℕ)
load_table r sec_size batch sectors = load_batches r sec_size batch (length sectors) sectors

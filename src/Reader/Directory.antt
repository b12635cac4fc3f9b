-- ===== src/Reader/Directory.antt =====
-- parseEntries of reader.go.
pub mod Total
use go_cfb.Base.{
  ℕ, zero, suc, ◌+◌, ◌-◌, ◌*◌, ◌/◌, ◌%◌, ◌^◌, Bool, not, ◌&&◌, ◌||◌, List, [], ◌∷◌, ◌++◌, ok, err,
  stuck, ◌>>=◌, ◌>>◌, fail_if, ltb, ◌==◌, if◌then◌else◌, length, take, drop, get_elem?, none, some,
}
use go_cfb.Format.{
  direntry_size, mini_sector_size, mini_stream_cutoff, stream_size_max_v3, object_stream,
  object_root,
}
use go_cfb.Reader.Chain.{walk_chain}
use go_cfb.Reader.Entry.{RawEntry, parse_entry}
use go_cfb.Reader.Errors.{Parsed, dir_size, stream_size, stream_capacity, no_entries, no_root}
use go_cfb.Reader.Sectors.{read_sectors}
use go_cfb.Reader.Stream.{ReaderAt}

-- What parseEntries reads of the parser: `batch` is the number of sectors of its buffer.
pub record Tables : Type 0 where
  pub major : ℕ
  pub sec_size : ℕ
  pub batch : ℕ
  pub fat : List ℕ
  pub mini_fat : List ℕ

-- The bytes that the FAT can hold for a stream of a size.
abbrev pub capacity : Tables → ℕ → ℕ
capacity t size =
    if ltb size mini_stream_cutoff
    then length t.mini_fat * mini_sector_size % 2 ^ 64
    else length t.fat * t.sec_size % 2 ^ 64

-- The checks of the size of a stream.
unfoldable pub check_size : Tables → RawEntry → Parsed RawEntry
check_size t e =
    if not (e.object_type == object_stream)
    then ok e
    else if ltb (2 ^ 63 - 1) e.stream_size || (t.major == 3 && ltb stream_size_max_v3 e.stream_size)
    then err stream_size
    else if ltb (capacity t e.stream_size) e.stream_size
    then err stream_capacity
    else ok e

-- The loop over the entries of a buffer: `n` more.
unfoldable pub parse_buffer : Tables → ℕ → List ℕ → Parsed (List RawEntry)
parse_buffer t zero buf = ok []
parse_buffer t (suc n) buf = do
  parsed ← parse_entry buf t.major
  e ← check_size t parsed
  rest ← parse_buffer t n (drop direntry_size buf)
  ok (e ∷ rest)

-- The loop over the batches. A round takes one sector at least, if `batch` is not 0.
unfoldable pub parse_batches : ReaderAt → Tables → ℕ → List ℕ → Parsed (List RawEntry)
parse_batches r t fuel [] = ok []
parse_batches r t zero (s ∷ ss) = stuck
parse_batches r t (suc fuel) (s ∷ ss) = do
  buf ← read_sectors r t.sec_size (take t.batch (s ∷ ss))
  es ← parse_buffer t ((length buf + (direntry_size - 1)) / direntry_size) buf
  rest ← parse_batches r t fuel (drop t.batch (s ∷ ss))
  ok (es ++ rest)

-- The checks behind the loop.
unfoldable pub check_root : List RawEntry → Parsed (List RawEntry)
check_root [] = err no_entries
check_root (e ∷ es) = if e.object_type == object_root then ok (e ∷ es) else err no_root

unfoldable pub parse_entries : ReaderAt → Tables → ℕ → ℕ → Parsed (List RawEntry)
unfolding parse_batches check_root
parse_entries r t first num = do
  chain ← walk_chain t.fat first num
  fail_if (not (length chain * t.sec_size % direntry_size == 0)) dir_size
  es ← parse_batches r t (length chain) chain
  check_root es

-- ===== src/Reader/Open.antt =====
-- loadFAT, loadMiniFAT and NewReader of reader.go.
pub mod Total
use go_cfb.Base.{
  none, some, panic, get_elem?, ℕ, ◌^◌, ◌*◌, ◌/◌, min, max, List, [], ok, ◌>>=◌, ◌>>◌, ◌==◌,
  if◌then◌else◌,
}
use go_cfb.Reader.Build.{load_mini_stream}
use go_cfb.Reader.Chain.{walk_chain}
use go_cfb.Reader.Difat.{read_difat}
use go_cfb.Reader.Directory.{Tables, parse_entries}
use go_cfb.Reader.Entry.{RawEntry, StorageInfo}
use go_cfb.Reader.Errors.{Parsed}
use go_cfb.Reader.Header.{sec_size, parse_header, check_file_size}
use go_cfb.Reader.Header.Fields.{Header}
use go_cfb.Reader.Lookup.{Entries}
use go_cfb.Reader.Sectors.{load_table}
use go_cfb.Reader.Stream.{ReaderAt}
use go_cfb.Reader.Tree.{Parser, build_root}

-- The number of sectors that the parser's buffer has room for.
unfoldable pub batch_of : Header → ℕ
batch_of h =
    min (max (max h.num_fat_sectors h.num_mini_fat_sectors) h.num_dir_sectors * sec_size h)
      (64 * 2 ^ 10)
    / sec_size h

unfoldable pub load_fat : ReaderAt → Header → Parsed (List ℕ)
load_fat r h = do
  sectors ← read_difat r (sec_size h) h
  load_table r (sec_size h) (batch_of h) sectors

unfoldable pub load_mini_fat : ReaderAt → Header → List ℕ → Parsed (List ℕ)
load_mini_fat r h fat =
    if h.num_mini_fat_sectors == 0
    then ok []
    else (walk_chain fat h.first_mini_fat_sector h.num_mini_fat_sectors
        >>= load_table r (sec_size h) (batch_of h))

-- The mini stream, from the root entry.
unfoldable pub load_root_stream : ℕ → List ℕ → List RawEntry → Parsed (List ℕ)
load_root_stream size fat raw = elim (get_elem? raw 0) [
  | none ↦ panic
  | some de ↦ load_mini_stream size fat de
]

-- Reader
pub record Reader : Type 0 where
  pub version : ℕ
  pub root : StorageInfo
  pub entries : Entries

-- The FAT, the mini FAT and the directory: the parser before loadMiniStream.
unfoldable pub load_parser : ReaderAt → Header → Parsed Parser
load_parser r h = do
  fat ← load_fat r h
  mini_fat ← load_mini_fat r h fat
  let tables : Tables = record {
    major = h.major;
    sec_size = sec_size h;
    batch = batch_of h;
    fat = fat;
    mini_fat = mini_fat;
  }
  raw ← parse_entries r tables h.first_dir_sector h.num_dir_sectors
  ok (record { sec_size = sec_size h; fat = fat; mini_fat = mini_fat; mini_stream = []; raw = raw })

-- The calls of NewReader up to parseEntries.
unfoldable pub open_parser : ReaderAt → Parsed (Header × Parser)
unfolding load_parser
open_parser r = do h ← parse_header r; check_file_size r h; p ← load_parser r h; ok (h, p)

-- The calls behind them.
unfoldable pub build_reader : Header → Parser → Parsed Reader
unfolding load_root_stream
build_reader h p = do
  mini_stream ← load_root_stream p.sec_size p.fat p.raw
  root ← build_root (record {
    sec_size = p.sec_size;
    fat = p.fat;
    mini_fat = p.mini_fat;
    mini_stream = mini_stream;
    raw = p.raw;
  })
  ok (record { version = h.major; root = root.0; entries = root.1 })

unfoldable pub new_reader : ReaderAt → Parsed Reader
unfolding open_parser build_reader
new_reader r = do x ← open_parser r; build_reader (x.0) (x.1)

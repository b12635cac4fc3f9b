-- ===== src/Reader/Open/Total.antt =====
-- NewReader ends on every file.
use go_cfb.Base.{ℕ, ◌*◌, ◌^◌, ◌<◌, ◌≤◌, ◌≡◌, ◌≢◌, List, some, ok, length, get_elem?}
use go_cfb.Format.{end_of_chain}
use go_cfb.Reader.Build.{sectors_for}
use go_cfb.Reader.Directory.Total.{IsDirectory}
use go_cfb.Reader.Entry.{RawEntry}
use go_cfb.Reader.Header.{sec_size}
use go_cfb.Reader.Header.Fields.{Header}
use go_cfb.Reader.Header.Total.{IsAccepted}
use go_cfb.Reader.Sectors.Total.{Fills}
use go_cfb.Reader.Stream.{ReaderAt}
use go_cfb.Reader.Tree.{Parser}
use go_cfb.Reader.Tree.Total.{SectorSize}
use go_cfb.Reader.Open.{open_parser, Reader}

module _ (r : ReaderAt) (fills : Fills r) (h : Header) (accepted : IsAccepted h) where
  -- What the FAT can hold.
  abbrev Holds : List ℕ → Type 0
  Holds fat = length fat * sec_size h ≤ 2 ^ 54

  -- The directory has a root in front, and the sectors a size of the format.
  abbrev Loaded : Parser → Type 0
  Loaded p = IsDirectory p.raw × SectorSize p.sec_size

-- The root entry of the directory has a mini stream of more than 2 ^ 46 sectors.
pub record IsOversized (p : Parser) : Type 0 where
  pub root : RawEntry
  pub first : get_elem? p.raw 0 ≡ some root
  pub used : root.stream_size ≢ 0
  pub chained : root.start_sector ≢ end_of_chain
  pub large : 2 ^ 46 < sectors_for p.sec_size root.stream_size

-- Up to parseEntries, NewReader has read a root entry with a mini stream of more than 2 ^ 46 sectors.
abbrev pub ReadsOversized : ReaderAt → Type 0
ReadsOversized r = (h : Header) × (p : Parser) × (open_parser r ≡ ok (h, p)) × IsOversized p

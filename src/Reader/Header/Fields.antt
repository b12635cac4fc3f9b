-- ===== src/Reader/Header/Fields.antt =====
-- The on-disk header of reader.go and the reads of parseHeader.
use go_cfb.Base.{ℕ, List}
use go_cfb.Bytes.{Reads, ◌>>=◌, get_u16, get_u32, get_u64, get_sub, get_u32s, return}
use go_cfb.Format.{inline_difat}

-- header. `minor`, `major` and `mini_shift` are MinorVersion, MajorVersion and MiniSectorShift.
pub record Header : Type 0 where
  pub signature : ℕ
  pub minor : ℕ
  pub major : ℕ
  pub byte_order : ℕ
  pub sector_shift : ℕ
  pub mini_shift : ℕ
  pub num_dir_sectors : ℕ
  pub num_fat_sectors : ℕ
  pub first_dir_sector : ℕ
  pub cutoff : ℕ
  pub first_mini_fat_sector : ℕ
  pub num_mini_fat_sectors : ℕ
  pub first_difat_sector : ℕ
  pub num_difat_sectors : ℕ
  pub difat : List ℕ

-- The reads of parseHeader. The class id, the reserved bytes and the transaction signature are not
-- used.
unfoldable pub get_header : Reads Header
get_header = do
  signature ← get_u64
  clsid ← get_sub 16
  minor ← get_u16
  major ← get_u16
  byte_order ← get_u16
  sector_shift ← get_u16
  mini_shift ← get_u16
  reserved ← get_sub 6
  num_dir_sectors ← get_u32
  num_fat_sectors ← get_u32
  first_dir_sector ← get_u32
  txn_signature ← get_u32
  cutoff ← get_u32
  first_mini_fat_sector ← get_u32
  num_mini_fat_sectors ← get_u32
  first_difat_sector ← get_u32
  num_difat_sectors ← get_u32
  difat ← get_u32s inline_difat
  return (record {
    signature = signature;
    minor = minor;
    major = major;
    byte_order = byte_order;
    sector_shift = sector_shift;
    mini_shift = mini_shift;
    num_dir_sectors = num_dir_sectors;
    num_fat_sectors = num_fat_sectors;
    first_dir_sector = first_dir_sector;
    cutoff = cutoff;
    first_mini_fat_sector = first_mini_fat_sector;
    num_mini_fat_sectors = num_mini_fat_sectors;
    first_difat_sector = first_difat_sector;
    num_difat_sectors = num_difat_sectors;
    difat = difat;
  })

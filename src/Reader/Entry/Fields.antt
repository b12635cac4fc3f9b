-- ===== src/Reader/Entry/Fields.antt =====
-- The reads of parseEntry of reader.go: the fields of a directory entry on disk.
use go_cfb.Base.{ℕ, List}
use go_cfb.Bytes.{Reads, ◌>>=◌, get_u8, get_u16, get_u32, get_u64, get_sub, get_u16s, return}
use go_cfb.Format.{name_max_units}

pub record EntryFields : Type 0 where
  pub units : List ℕ
  pub name_len : ℕ
  pub object_type : ℕ
  pub left_sib : ℕ
  pub right_sib : ℕ
  pub child_id : ℕ
  pub clsid : List ℕ
  pub state_bits : ℕ
  pub created : ℕ
  pub modified : ℕ
  pub start_sector : ℕ
  pub stream_size : ℕ

unfoldable pub get_entry : Reads EntryFields
get_entry = do
  units ← get_u16s name_max_units
  name_len ← get_u16
  object_type ← get_u8
  color ← get_u8
  left_sib ← get_u32
  right_sib ← get_u32
  child_id ← get_u32
  clsid ← get_sub 16
  state_bits ← get_u32
  created ← get_u64
  modified ← get_u64
  start_sector ← get_u32
  stream_size ← get_u64
  return (record {
    units = units;
    name_len = name_len;
    object_type = object_type;
    left_sib = left_sib;
    right_sib = right_sib;
    child_id = child_id;
    clsid = clsid;
    state_bits = state_bits;
    created = created;
    modified = modified;
    start_sector = start_sector;
    stream_size = stream_size;
  })

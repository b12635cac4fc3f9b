-- ===== src/Reader/Entry.antt =====
-- rawEntry and parseEntry of reader.go.
pub mod Fields
use go_cfb.Base.{
  ℕ, zero, suc, ◌+◌, ◌-◌, ◌*◌, ◌/◌, ◌%◌, ◌^◌, List, [], Option, none, some, Bool, ◌&&◌, ◌||◌, not,
  ok, err, panic, ◌>>=◌, ◌>>◌, fail_if, ltb, leb, ◌==◌, if◌then◌else◌, take, get_or,
}
use go_cfb.FileTime.{Time, decode}
use go_cfb.Format.{name_max_units, object_unallocated, object_storage, object_stream, object_root}
use go_cfb.Name.{contains_any}
use go_cfb.Name.Utf16.{decode_utf16}
use go_cfb.Reader.Errors.{Parsed, name_length, name_end, name_text}
use Fields.{EntryFields, get_entry}

-- The part of Storage and of Stream that parseEntry fills.
pub record StorageInfo : Type 0 where
  pub name : List ℕ
  pub clsid : List ℕ
  pub state_bits : ℕ
  pub created : Time
  pub modified : Time

pub record StreamInfo : Type 0 where
  pub name : List ℕ
  pub state_bits : ℕ
  pub size : ℕ

-- The pointers `storage` and `stream` of rawEntry, of which at most one is set.
pub data Object : Type 0 where
  no_object : Object
  a_storage : StorageInfo → Object
  a_stream : StreamInfo → Object

-- rawEntry, without the mark `visited`.
pub record RawEntry : Type 0 where
  pub object : Object
  pub object_type : ℕ
  pub left_sib : ℕ
  pub right_sib : ℕ
  pub child_id : ℕ
  pub start_sector : ℕ
  pub stream_size : ℕ

-- The high bits of the size are masked off in version 3.
unfoldable pub masked_size : ℕ → ℕ → ℕ
masked_size major size = if major == 3 then size % 2 ^ 32 else size

-- The name of an allocated entry. The index is in range, by the test of the length.
unfoldable pub entry_name : EntryFields → Parsed (List ℕ)
entry_name f = do
  fail_if (ltb f.name_len 4 || not (f.name_len % 2 == 0) || ltb (2 * name_max_units) f.name_len)
      name_length
  let n = f.name_len / 2 - 1
  fail_if (not (get_or f.units n 0 == 0)) name_end
  let name = decode_utf16 (take n f.units)
  fail_if (contains_any name) name_text
  ok name

unfoldable pub object_of : ℕ → EntryFields → List ℕ → Object
object_of size f name =
    if f.object_type == object_storage || f.object_type == object_root
    then a_storage (record {
      name = name;
      clsid = f.clsid;
      state_bits = f.state_bits;
      created = decode f.created;
      modified = decode f.modified;
    })
    else if f.object_type == object_stream
    then a_stream (record { name = name; state_bits = f.state_bits; size = size })
    else no_object

unfoldable pub entry_of : ℕ → EntryFields → Parsed RawEntry
unfolding masked_size
entry_of major f = do
  name ← if f.object_type == object_unallocated then ok [] else entry_name f
  let size = masked_size major f.stream_size
  ok (record {
    object = object_of size f name;
    object_type = f.object_type;
    left_sib = f.left_sib;
    right_sib = f.right_sib;
    child_id = f.child_id;
    start_sector = f.start_sector;
    stream_size = size;
  })

unfoldable pub parse_entry : List ℕ → ℕ → Parsed RawEntry
parse_entry buf major = elim (get_entry buf) [ none ↦ panic | some (f, rest) ↦ entry_of major f ]

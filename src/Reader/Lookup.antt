-- ===== src/Reader/Lookup.antt =====
-- findEntry, OpenStream and OpenStorage of reader.go.
pub mod Unique
use go_cfb.Base.{
  ℕ, zero, suc, Bool, true, false, ◌&&◌, List, [], ◌∷◌, Option, none, some, Result, ok, err, ◌==◌,
  if◌then◌else◌,
}
use go_cfb.Base.Int.{ℤ, pos, negsuc}
use go_cfb.Name.{compare_names_str}
use go_cfb.Reader.Entry.{StorageInfo, StreamInfo}
use go_cfb.Reader.Runs.{Run}

-- ErrNotFound
pub data LookupError : Type 0 where
  not_found : LookupError

-- Entry: a Storage with its Entries, or a Stream with its runs.
mutual
  pub data Entry : Type 0 where
    storage : StorageInfo → Entries → Entry
    stream : StreamInfo → List Run → Entry

  pub data Entries : Type 0 where
    no_entries : Entries
    entries : Entry → Entries → Entries

-- entryName
unfoldable pub name_of : Entry → List ℕ
name_of (storage info es) = info.name
name_of (stream info runs) = info.name

-- The type assertions `e.(*Stream)` and `e.(*Storage)`.
unfoldable pub as_stream : Entry → Option (StreamInfo × List Run)
as_stream (stream info runs) = some (info, runs)
as_stream (storage info es) = none

unfoldable pub as_storage : Entry → Option (StorageInfo × Entries)
as_storage (stream info runs) = none
as_storage (storage info es) = some (info, es)

unfoldable pub is_named : List ℕ → Entry → Bool
is_named name e = elim (compare_names_str name (name_of e)) [ pos n ↦ n == 0 | negsuc n ↦ false ]

unfoldable pub find_entry : {T : Type 0} → (Entry → Option T) → Entries → List ℕ → Option T
find_entry as_type no_entries name = none
find_entry as_type (entries e es) name =
    let rest = find_entry as_type es name in
    elim (as_type e) [ none ↦ rest | some v ↦ if is_named name e then some v else rest ]

abbrev found : {T : Type 0} → Option T → Result LookupError T
found none = err not_found
found (some v) = ok v

unfoldable pub open_stream : Entries → List ℕ → Result LookupError (StreamInfo × List Run)
open_stream es name = found (find_entry as_stream es name)

unfoldable pub open_storage : Entries → List ℕ → Result LookupError (StorageInfo × Entries)
open_storage es name = found (find_entry as_storage es name)

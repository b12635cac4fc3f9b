-- ===== src/Tests/Files.antt =====
-- Runs of the code of the file system view.
use go_cfb.Base.{ℕ, ◌+◌, ◌≡◌, ◌↔◌, refl, List, [], ◌∷◌, ok, err, false, arith, length, drop}
use go_cfb.FileTime.{zero_time}
use go_cfb.Fs.{
  invalid, slash, is_dot, elements, valid_elements, valid_path, file_handle, handle_of, open_path,
  entry_list, read_dir_rest,
}
use go_cfb.Fs.Pages.{read_pages, read_pages-read_dir_rest}
use go_cfb.Fs.Paths.{Leads, open_path_iff, open_path_invalid_iff}
use go_cfb.Name.{compare_names_str, compare_names, append_name, compare_units, to_upper}
use go_cfb.Name.Utf16.{append_rune}
use go_cfb.Reader.Entry.{StorageInfo, StreamInfo}
use go_cfb.Reader.Lookup.{
  Entry, Entries, storage, stream, no_entries, entries, find_entry, as_storage, is_named, name_of,
}

abbrev a_storage : ℕ → StorageInfo
a_storage c = record {
  name = c ∷ [];
  clsid = [];
  state_bits = 0;
  created = zero_time;
  modified = zero_time;
}

abbrev a_stream : ℕ → StreamInfo
a_stream c = record { name = c ∷ []; state_bits = 0; size = 0 }

-- A stream A, and a storage B that holds a stream C.
abbrev root : Entries
root =
    entries (stream (a_stream 0x41) []) (
      entries (storage (a_storage 0x42) (entries (stream (a_stream 0x43) []) no_entries))
        no_entries)

-- b/c
abbrev path : List ℕ
path = 0x62 ∷ slash ∷ 0x63 ∷ []

open_path_iff_example :
    (open_path (a_storage 0x52) root path ≡ ok (file_handle (a_stream 0x43) [])) ↔ (
      (e : Entry) × Leads root ((0x62 ∷ []) ∷ []) (0x63 ∷ []) e
      × (handle_of e ≡ file_handle (a_stream 0x43) []))
unfolding valid_path valid_elements elements is_dot
open_path_iff_example =
    open_path_iff (a_storage 0x52) root path ((0x62 ∷ []) ∷ []) (0x63 ∷ [])
      (file_handle (a_stream 0x43) []) refl refl refl

opened : open_path (a_storage 0x52) root path ≡ ok (file_handle (a_stream 0x43) [])
unfolding open_path find_entry as_storage is_named name_of compare_names_str compare_names
    append_name append_rune compare_units to_upper
opened = refl

open_path_invalid_iff_example :
    (open_path (a_storage 0x52) root (slash ∷ path) ≡ err invalid)
    ↔ (valid_path (slash ∷ path) ≡ false)
open_path_invalid_iff_example = open_path_invalid_iff (a_storage 0x52) root (slash ∷ path)

read_pages-read_dir_rest_example :
    read_dir_rest (entry_list root) 0
    ≡ ok (read_pages 3 (entry_list root) 0 1, 0 + length (drop 0 (entry_list root)))
unfolding entry_list
read_pages-read_dir_rest_example =
    read_pages-read_dir_rest 3 (entry_list root) 0 1 (omega arith) (omega arith)

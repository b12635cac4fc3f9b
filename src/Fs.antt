-- ===== src/Fs.antt =====
-- fs.go: a compound file as a file system of the package io/fs.
--
-- A path is its list of code points. The methods of fileInfo but its fields, and the calls of a file
-- handle, which go to io.NewSectionReader, are left out.
pub mod Paths
pub mod Pages
use go_cfb.Base.{
  ℕ, zero, suc, ◌+◌, ◌-◌, Bool, true, false, not, ◌&&◌, ◌||◌, List, [], ◌∷◌, ◌++◌, map, Option,
  none, some, Result, ok, err, ltb, ◌==◌, if◌then◌else◌, length, take, drop, min,
}
use go_cfb.FileTime.{Time, zero_time}
use go_cfb.Reader.Entry.{StorageInfo, StreamInfo}
use go_cfb.Reader.Lookup.{
  Entry, Entries, storage, stream, no_entries, entries, as_storage, find_entry,
}
use go_cfb.Reader.Runs.{Run}

pub data FsError : Type 0 where
  -- fs.ErrInvalid, fs.ErrNotExist and io.EOF
  invalid not_exist eof : FsError

abbrev pub slash : ℕ
slash = 0x2F

abbrev pub dot : ℕ
dot = 0x2E

-- The element in front of the first one goes on with `c`.
unfoldable pub prepend : ℕ → List (List ℕ) → List (List ℕ)
prepend c [] = (c ∷ []) ∷ []
prepend c (e ∷ es) = (c ∷ e) ∷ es

-- strings.SplitSeq at the slashes.
unfoldable pub elements : List ℕ → List (List ℕ)
unfolding prepend
elements [] = [] ∷ []
elements (c ∷ cs) = let es = elements cs in if c == slash then [] ∷ es else prepend c es

unfoldable pub is_dot : List ℕ → Bool
is_dot (c ∷ []) = c == dot
is_dot _ = false

abbrev pub is_two_dots : List ℕ → Bool
is_two_dots (c ∷ d ∷ []) = c == dot && d == dot
is_two_dots _ = false

abbrev pub is_empty : List ℕ → Bool
is_empty [] = true
is_empty (c ∷ cs) = false

unfoldable pub valid_elements : List (List ℕ) → Bool
unfolding is_dot
valid_elements [] = true
valid_elements (e ∷ es) = not (is_empty e || is_dot e || is_two_dots e) && valid_elements es

-- fs.ValidPath, for valid Unicode.
unfoldable pub valid_path : List ℕ → Bool
unfolding valid_elements elements is_dot
valid_path name = is_dot name || valid_elements (elements name)

-- strings.LastIndexByte
unfoldable pub last_slash : List ℕ → Option ℕ
last_slash [] = none
last_slash (c ∷ cs) = elim (last_slash cs) [
  | none ↦ if c == slash then some 0 else none
  | some i ↦ some (suc i)
]

-- splitPath
unfoldable pub split_path : List ℕ → List ℕ × List ℕ
unfolding last_slash
split_path p = elim (last_slash p) [ none ↦ ([], p) | some i ↦ (take i p, drop (i + 1) p) ]

-- fsFileHandle and fsDirHandle
pub data Handle : Type 0 where
  file_handle : StreamInfo → List Run → Handle
  dir_handle : StorageInfo → Entries → ℕ → Handle

-- The handle of a file or directory that is opened.
unfoldable pub handle_of : Entry → Handle
handle_of (stream info runs) = file_handle info runs
handle_of (storage info es) = dir_handle info es 0

-- The loop of Open over the elements of the directory.
unfoldable pub descend : Entries → List (List ℕ) → Option Entries
descend es [] = some es
descend es (part ∷ parts) = elim (find_entry as_storage es part) [
  | none ↦ none
  | some sub ↦ descend (sub.1) parts
]

unfoldable pub open_base : List ℕ → Option Entries → Result FsError Handle
unfolding handle_of
open_base base none = err not_exist
open_base base (some es) = elim (find_entry (λ e. some e) es base) [
  | none ↦ err not_exist
  | some e ↦ ok (handle_of e)
]

-- Reader.Open
unfoldable pub open_path : StorageInfo → Entries → List ℕ → Result FsError Handle
unfolding valid_path split_path elements descend open_base
open_path root es name =
    let (dir, base) = split_path name in
    if not (valid_path name)
    then err invalid
    else if is_dot name
    then ok (dir_handle root es 0)
    else open_base base (if is_empty dir then some es else descend es (elements dir))

-- path.Base: the last element, behind slashes that are cut off.
unfoldable pub cut_slashes : List ℕ → List ℕ
cut_slashes [] = []
cut_slashes (c ∷ cs) =
    let rest = cut_slashes cs in if c == slash && is_empty rest then [] else c ∷ rest

unfoldable pub path_base : List ℕ → List ℕ
unfolding cut_slashes split_path
path_base p =
    let base = (split_path (cut_slashes p)).1 in
    if is_empty p then dot ∷ [] else if is_empty base then slash ∷ [] else base

-- fileInfo
pub record FileInfo : Type 0 where
  pub name : List ℕ
  pub size : ℕ
  pub is_dir : Bool
  pub mod_time : Time
  pub sys : Entry

-- streamInfo and storageInfo
unfoldable pub info_of : Entry → FileInfo
unfolding path_base
info_of (stream info runs) = record {
  name = path_base info.name;
  size = info.size;
  is_dir = false;
  mod_time = zero_time;
  sys = stream info runs;
}
info_of (storage info es) = record {
  name = path_base info.name;
  size = 0;
  is_dir = true;
  mod_time = info.modified;
  sys = storage info es;
}

unfoldable pub entry_list : Entries → List Entry
entry_list no_entries = []
entry_list (entries e es) = e ∷ entry_list es

-- fsDirHandle.ReadDir with `n` above zero, at most `n` entries: what it returns, and the next `pos`.
unfoldable pub read_dir_page : List Entry → ℕ → ℕ → Result FsError (List FileInfo × ℕ)
unfolding info_of
read_dir_page es at n =
    let remaining = drop at es in
    let count = min (length remaining) n in
    if count == 0 then err eof else ok (map info_of (take count remaining), at + count)

-- With `n` zero or below: all that is left.
unfoldable pub read_dir_rest : List Entry → ℕ → Result FsError (List FileInfo × ℕ)
unfolding info_of
read_dir_rest es at =
    let remaining = drop at es in ok (map info_of remaining, at + length remaining)

-- ===== src/Reader/Tree.antt =====
-- buildStorage and walkBST of reader.go: the directory's search trees, followed from the root.
pub mod Total
pub mod Listed
pub mod Sound
pub mod Complete
use go_cfb.Base.{
  ℕ, zero, suc, ◌+◌, Bool, true, false, List, [], ◌∷◌, ◌++◌, Option, none, some, ok, err, panic,
  stuck, ◌>>=◌, ◌==◌, if◌then◌else◌, length, get_elem?, get_or, set, replicate,
}
use go_cfb.Format.{no_stream, object_unallocated, object_storage, object_stream, object_root}
use go_cfb.Reader.Build.{build_stream}
use go_cfb.Reader.Entry.{RawEntry, Object, no_object, a_storage, a_stream, StorageInfo, StreamInfo}
use go_cfb.Reader.Errors.{Parsed, no_entry, twice_visited, second_root, object_type}
use go_cfb.Reader.Lookup as L
use go_cfb.Reader.Lookup.{Entry, Entries, storage, stream, entries}

-- The parser with its directory and its mini stream.
pub record Parser : Type 0 where
  pub sec_size : ℕ
  pub fat : List ℕ
  pub mini_fat : List ℕ
  pub mini_stream : List ℕ
  pub raw : List RawEntry

-- The marks `visited`, by the index of the entry.
abbrev pub Marks : Type 0
Marks = List Bool

-- The marks after a walk, and the entries that it appends.
abbrev pub Walked : Type 0
Walked = Marks × List Entry

abbrev pub to_entries : List Entry → Entries
to_entries [] = L.no_entries
to_entries (e ∷ es) = entries e (to_entries es)

-- buildStorage: the entries of the storage; `walk` is walkBST.
unfoldable pub build_storage :
    (Marks → ℕ → Parsed Walked) → Marks → RawEntry → Parsed (Marks × Entries)
build_storage walk marks de =
    if de.child_id == no_stream
    then ok (marks, L.no_entries)
    else (walk marks de.child_id >>= λ w. ok (w.0, to_entries w.1))

-- Where the entry has no Storage or Stream to fill, the source follows a nil pointer.
unfoldable pub storage_entry :
    (Marks → ℕ → Parsed Walked) → Marks → RawEntry → Object → Parsed Walked
unfolding build_storage
storage_entry walk marks de (a_storage info) =
    build_storage walk marks de >>= λ w. ok (w.0, storage info w.1 ∷ [])
storage_entry walk marks de _ = panic

unfoldable pub stream_entry : Parser → Marks → RawEntry → Object → Parsed Walked
stream_entry p marks de (a_stream info) =
    build_stream p.sec_size p.fat p.mini_fat p.mini_stream de >>= λ runs.
    ok (marks, stream info runs ∷ [])
stream_entry p marks de _ = panic

-- The switch over the object type.
unfoldable pub visit_entry : Parser → (Marks → ℕ → Parsed Walked) → Marks → RawEntry → Parsed Walked
unfolding storage_entry stream_entry
visit_entry p walk marks de =
    if de.object_type == object_storage
    then storage_entry walk marks de de.object
    else if de.object_type == object_stream
    then stream_entry p marks de de.object
    else if de.object_type == object_unallocated
    then ok (marks, [])
    else if de.object_type == object_root
    then err second_root
    else err object_type

-- An entry that the walk reaches: first what is left of it, then itself, then what is right of it.
unfoldable pub walk_entry :
    Parser → (Marks → ℕ → Parsed Walked) → Marks → ℕ → RawEntry → Parsed Walked
unfolding visit_entry
walk_entry p walk marks id de =
    if get_or marks id false
    then err twice_visited
    else (walk (set marks id true) de.left_sib >>= λ left. visit_entry p walk left.0 de >>= λ own.
        walk own.0 de.right_sib >>= λ right. ok (right.0, left.1 ++ (own.1 ++ right.1)))

-- Each call below the first has marked another entry, so there are no more calls inside each other
-- than entries, and one more for the marker noStream.
unfoldable pub walk_bst : Parser → ℕ → Marks → ℕ → Parsed Walked
unfolding walk_entry
walk_bst p zero marks id = stuck
walk_bst p (suc fuel) marks id =
    let walk = walk_entry p (walk_bst p fuel) marks id in
    if id == no_stream
    then ok (marks, [])
    else elim (get_elem? p.raw id) [ none ↦ err no_entry | some de ↦ walk de ]

-- `p.buildStorage(0)`: the root storage and its children.
unfoldable pub root_storage : Parser → RawEntry → Object → Parsed (StorageInfo × Entries)
root_storage p de (a_storage info) =
    build_storage (walk_bst p (length p.raw + 1)) (replicate (length p.raw) false) de >>= λ w.
    ok (info, w.1)
root_storage p de _ = panic

unfoldable pub build_root : Parser → Parsed (StorageInfo × Entries)
unfolding root_storage
build_root p = elim (get_elem? p.raw 0) [ none ↦ panic | some de ↦ root_storage p de de.object ]

-- ===== src/Reader/Tree/Listed.antt =====
-- What walkBST lists: the specification of a tree of entries, and of the marks.
use go_cfb.Base.{
  ℕ, ◌≡◌, ◌≢◌, ◌↔◌, refl, true, false, List, [], ◌∷◌, ◌++◌, some, ok, ◌==◌, get_elem?, get_or, set,
  if◌then◌else◌,
}
use go_cfb.Format.{no_stream, object_unallocated, object_storage, object_stream}
use go_cfb.Reader.Build.{build_stream}
use go_cfb.Reader.Entry.{RawEntry, a_storage, a_stream, StorageInfo, StreamInfo}
use go_cfb.Reader.Lookup.{Entry, storage, stream}
use go_cfb.Reader.Runs.{Run}
use go_cfb.Reader.Tree.{Parser, Marks, Walked, to_entries}

-- The children of an entry stand below the root of its own tree; only a storage has one.
abbrev pub below : RawEntry → ℕ
below de = if de.object_type == object_storage then de.child_id else no_stream

-- What an entry stands for, with the entries `cs` of its own tree. An unallocated entry is passed
-- over.
pub data Own (p : Parser) (de : RawEntry) (cs es : List Entry) : Type 0 where
  own_stream :
      {info : StreamInfo} {runs : List Run}
      → de.object_type ≡ object_stream
      → de.object ≡ a_stream info
      → build_stream p.sec_size p.fat p.mini_fat p.mini_stream de ≡ ok runs
      → es ≡ stream info runs ∷ []
      → Own p de cs es
  own_storage :
      {info : StorageInfo}
      → de.object_type ≡ object_storage
      → de.object ≡ a_storage info
      → es ≡ storage info (to_entries cs) ∷ []
      → Own p de cs es
  own_free : de.object_type ≡ object_unallocated → es ≡ [] → Own p de cs es

-- The entries of the tree at `root`: the indices in the order in which they are reached, and what
-- they stand for, in the order of the tree.
pub data Listed (p : Parser) : ℕ → List ℕ → List Entry → Type 0 where
  nothing :
      {root : ℕ} {ids : List ℕ} {es : List Entry}
      → root ≡ no_stream
      → ids ≡ []
      → es ≡ []
      → Listed p root ids es
  branch :
      {root : ℕ} {ids : List ℕ} {es : List Entry} {de : RawEntry} {ls os rs : List ℕ}
      {les cs own res : List Entry}
      → root ≢ no_stream
      → get_elem? p.raw root ≡ some de
      → Listed p de.left_sib ls les
      → Listed p (below de) os cs
      → Own p de cs own
      → Listed p de.right_sib rs res
      → ids ≡ root ∷ (ls ++ (os ++ rs))
      → es ≡ les ++ (own ++ res)
      → Listed p root ids es

-- The marks after the indices have been reached.
unfoldable pub mark_all : Marks → List ℕ → Marks
mark_all ms [] = ms
mark_all ms (i ∷ is) = mark_all (set ms i true) is

-- No index is marked before it is reached: none is marked at first, and none occurs twice.
abbrev pub Fresh : Marks → List ℕ → Type 0
Fresh ms [] = Unit
Fresh ms (i ∷ is) = (get_or ms i false ≡ false) × Fresh (set ms i true) is

pub mark_all-append :
    (ms : Marks) (is js : List ℕ) → mark_all ms (is ++ js) ≡ mark_all (mark_all ms is) js
unfolding mark_all
mark_all-append ms [] js = refl
mark_all-append ms (i ∷ is) js = mark_all-append (set ms i true) is js

pub Fresh-append :
    (ms : Marks) (is js : List ℕ) → Fresh ms (is ++ js) ↔ (Fresh ms is × Fresh (mark_all ms is) js)
unfolding mark_all
Fresh-append ms [] js = (λ h. (tt, h), λ h. h.1)
Fresh-append ms (i ∷ is) js = (
  λ h. let (a, b) = (Fresh-append (set ms i true) is js).0 h.1 in ((h.0, a), b),
  λ h. (h.0.0, (Fresh-append (set ms i true) is js).1 (h.0.1, h.1)),
)

-- What a walk has done.
pub record Reached (p : Parser) (ms : Marks) (root : ℕ) (w : Walked) : Type 0 where
  pub ids : List ℕ
  pub listed : Listed p root ids w.1
  pub fresh : Fresh ms ids
  pub marked : w.0 ≡ mark_all ms ids

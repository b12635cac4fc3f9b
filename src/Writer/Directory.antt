-- ===== src/Writer/Directory.antt =====
-- assignLayout and emitDirectory of writer.go: the directory, from the tree of storages and streams.
--
-- Names of one storage are distinct, so the order of equal names is left open by the sort. The layout
-- has an entry for each number: CreateStream and CreateStorage count `descendants`. The errors of the
-- writer below, and the padding of the last sector, are left out.
pub mod Ordered
pub mod Assigned
pub mod Numbers
use go_cfb.Base.{
  ℕ, zero, suc, ◌+◌, ◌-◌, ◌%◌, Bool, true, false, List, [], ◌∷◌, ◌++◌, Option, none, some, Result,
  ok, err, panic, stuck, ltb, ◌==◌, if◌then◌else◌, get_or, get_elem?, set, update, replicate,
}
use go_cfb.Base.Int.{ℤ, pos, negsuc}
use go_cfb.FileTime as F
use go_cfb.FileTime.{Time}
use go_cfb.Format.{no_stream, end_of_chain, object_storage, object_stream, object_root}
use go_cfb.Name.{compare_names}
use go_cfb.Writer.Direntry.{Direntry, entry_bytes}
use go_cfb.Writer.Layout.{LayoutEntry, link_all}

-- StreamWriter: what the directory has of it. `first` is the first sector of its chain.
pub record StreamNode : Type 0 where
  pub name : List ℕ
  pub state_bits : ℕ
  pub size : ℕ
  pub first : ℕ

-- StorageWriter, without its children.
pub record StorageNode : Type 0 where
  pub name : List ℕ
  pub clsid : List ℕ
  pub state_bits : ℕ
  pub created : Time
  pub modified : Time

-- StorageWriter, with the fields `streams` and `storages`.
mutual
  pub data Tree : Type 0 where
    tree : StorageNode → List StreamNode → Trees → Tree

  pub data Trees : Type 0 where
    no_trees : Trees
    trees : Tree → Trees → Trees

abbrev pub tree_name : Tree → List ℕ
tree_name (tree s streams subs) = s.name

-- compareNames(a, b) < 0
unfoldable pub before : List ℕ → List ℕ → Bool
before a b = elim (compare_names a b) [ pos n ↦ false | negsuc n ↦ true ]

-- slices.SortFunc of the streams and of the storages, by name.
unfoldable pub insert_stream : StreamNode → List StreamNode → List StreamNode
unfolding before
insert_stream s [] = s ∷ []
insert_stream s (t ∷ ts) =
    let rest = insert_stream s ts in if before t.name s.name then t ∷ rest else s ∷ t ∷ ts

unfoldable pub sort_streams : List StreamNode → List StreamNode
unfolding insert_stream
sort_streams [] = []
sort_streams (s ∷ ss) = insert_stream s (sort_streams ss)

unfoldable pub insert_tree : Tree → Trees → Trees
unfolding before
insert_tree t no_trees = trees t no_trees
insert_tree t (trees u us) =
    let rest = insert_tree t us in
    if before (tree_name u) (tree_name t) then trees u rest else trees t (trees u us)

-- The storages after the calls of slices.SortFunc in assignLayout and in its calls of itself, which
-- leave the fields of each storage sorted.
unfoldable mutual
  unfolding insert_tree sort_streams

  pub sort_tree : Tree → Tree
  sort_tree (tree s streams subs) = tree s (sort_streams streams) (sort_trees subs)

  pub sort_trees : Trees → Trees
  sort_trees no_trees = no_trees
  sort_trees (trees t ts) = insert_tree (sort_tree t) (sort_trees ts)

-- An entry of a layout that is not assigned yet.
abbrev pub unset : LayoutEntry
unset = record { left_sib = 0; right_sib = 0; child_id = 0 }

abbrev pub blank : LayoutEntry
blank = record { left_sib = no_stream; right_sib = no_stream; child_id = no_stream }

abbrev set_child : List LayoutEntry → ℕ → ℕ → List LayoutEntry
set_child layout id v =
    update layout id (λ e. record { left_sib = e.left_sib; right_sib = e.right_sib; child_id = v })

-- The layout and the counter after a call of assignLayout. The ID of the entry is the counter before.
abbrev pub Assigned : Type 0
Assigned = List LayoutEntry × ℕ

-- assignLayout, behind the sorts.
unfoldable mutual
  unfolding before

  pub assign : Tree → List LayoutEntry → ℕ → Assigned
  assign (tree s streams subs) layout counter =
      let all = assign_loop streams subs (set layout counter blank) (counter + 1) in
      let linked = link_all ((all.0).0) (all.1) in
      (set_child (linked.0) counter (linked.1), (all.0).1)

  -- Its loop over the streams and the storages, with the IDs of the children. A stream is next where no
  -- storage is left, or where its name is before that of the next storage.
  pub assign_loop : List StreamNode → Trees → List LayoutEntry → ℕ → Assigned × List ℕ
  assign_loop [] no_trees layout counter = ((layout, counter), [])
  assign_loop (s ∷ ss) no_trees layout counter =
      let rest = assign_loop ss no_trees (set layout counter blank) (counter + 1) in
      (rest.0, counter ∷ rest.1)
  assign_loop [] (trees t ts) layout counter =
      let first = assign t layout counter in
      let rest = assign_loop [] ts (first.0) (first.1) in (rest.0, counter ∷ rest.1)
  assign_loop (s ∷ ss) (trees t ts) layout counter =
      let after_stream = assign_loop ss (trees t ts) (set layout counter blank) (counter + 1) in
      let first = assign t layout counter in
      let after_storage = assign_loop (s ∷ ss) ts (first.0) (first.1) in
      let rest = if before s.name (tree_name t) then after_stream else after_storage in
      (rest.0, counter ∷ rest.1)

-- `created, _ := filetime.Encode(…)`: a time that cannot be encoded is written as zero.
abbrev pub ticks : Result F.TimeError ℕ → ℕ
ticks (ok n) = n
ticks _ = 0

unfoldable pub storage_direntry : StorageNode → LayoutEntry → Direntry
storage_direntry s links = record {
  name = s.name;
  clsid = s.clsid;
  state_bits = s.state_bits;
  created = ticks (F.encode s.created);
  modified = ticks (F.encode s.modified);
  size = 0;
  object_type = object_storage;
  left_sib = links.left_sib;
  right_sib = links.right_sib;
  child_id = links.child_id;
  start_sec = end_of_chain;
}

-- The root entry, with the mini stream.
unfoldable pub root_direntry : ℕ → ℕ → Direntry → Direntry
root_direntry mini_start mini_size de = record {
  name = de.name;
  clsid = de.clsid;
  state_bits = de.state_bits;
  created = 0;
  modified = de.modified;
  size = if ltb 0 mini_size then mini_size else de.size;
  object_type = object_root;
  left_sib = de.left_sib;
  right_sib = de.right_sib;
  child_id = de.child_id;
  start_sec = if ltb 0 mini_size then mini_start else de.start_sec;
}

unfoldable pub stream_direntry : StreamNode → LayoutEntry → Direntry
stream_direntry s links = record {
  name = s.name;
  clsid = replicate 16 0;
  state_bits = s.state_bits;
  created = 0;
  modified = 0;
  size = s.size;
  object_type = object_stream;
  left_sib = links.left_sib;
  right_sib = links.right_sib;
  child_id = no_stream;
  start_sec = if ltb 0 s.size then s.first else end_of_chain;
}

-- The entries that `emit` of emitDirectory writes, and its counter.
unfoldable mutual
  unfolding before

  pub emit : Tree → List LayoutEntry → ℕ → List Direntry × ℕ
  emit (tree s streams subs) layout counter =
      let all = emit_loop streams subs layout (counter + 1) in
      (storage_direntry s (get_or layout counter blank) ∷ all.0, all.1)

  -- Its loop, which picks the next child by the same test as that of assignLayout.
  pub emit_loop : List StreamNode → Trees → List LayoutEntry → ℕ → List Direntry × ℕ
  emit_loop [] no_trees layout counter = ([], counter)
  emit_loop (s ∷ ss) no_trees layout counter =
      let rest = emit_loop ss no_trees layout (counter + 1) in
      (stream_direntry s (get_or layout counter blank) ∷ rest.0, rest.1)
  emit_loop [] (trees t ts) layout counter =
      let first = emit t layout counter in
      let rest = emit_loop [] ts layout (first.1) in (first.0 ++ rest.0, rest.1)
  emit_loop (s ∷ ss) (trees t ts) layout counter =
      let rest = emit_loop ss (trees t ts) layout (counter + 1) in
      let first = emit t layout counter in
      let later = emit_loop (s ∷ ss) ts layout (first.1) in
      if before s.name (tree_name t)
      then (stream_direntry s (get_or layout counter blank) ∷ rest.0, rest.1)
      else (first.0 ++ later.0, later.1)

-- layoutDirectory for the sorted tree, on the layout that serializer.init makes.
unfoldable pub lay_out : ℕ → Tree → List LayoutEntry
unfolding assign
lay_out descendants t = (assign t (replicate descendants unset) 0).0

-- The entries of `emit` for the root storage, with isRoot.
unfoldable pub emit_root : ℕ → ℕ → Tree → List LayoutEntry → List Direntry
unfolding emit root_direntry storage_direntry
emit_root mini_start mini_size (tree s streams subs) layout =
    root_direntry mini_start mini_size (storage_direntry s (get_or layout 0 blank))
    ∷ (emit_loop streams subs layout 1).0

-- emitDirectory: the entries, without the padding.
unfoldable pub directory : ℕ → ℕ → ℕ → Tree → List Direntry
unfolding lay_out emit_root sort_tree
directory mini_start mini_size descendants t =
    let sorted = sort_tree t in emit_root mini_start mini_size sorted (lay_out descendants sorted)

-- ===== src/Writer/Directory/Ordered.antt =====
-- The specification of the numbers of a directory: all children of a storage in one sequence.
use go_cfb.Base.{
  ℕ, ◌+◌, ◌≡◌, refl, List, [], ◌∷◌, some, if◌then◌else◌, true, false, ltb, get_elem?, get_or,
}
use go_cfb.FileTime as F
use go_cfb.Format.{object_root, end_of_chain}
use go_cfb.Writer.Direntry.{Direntry}
use go_cfb.Writer.Directory.{
  StreamNode, StorageNode, Tree, Trees, tree, no_trees, trees, tree_name, before, blank, ticks,
  storage_direntry, stream_direntry,
}
use go_cfb.Writer.Layout.{LayoutEntry}

-- The specification: a storage with all its children in one sequence.
mutual
  pub data Node : Type 0 where
    stream_node : StreamNode → Node
    storage_node : StorageNode → Nodes → Node

  pub data Nodes : Type 0 where
    no_nodes : Nodes
    nodes : Node → Nodes → Nodes

abbrev pub node_name : Node → List ℕ
node_name (stream_node s) = s.name
node_name (storage_node s ns) = s.name

-- The merge of two sorted sequences: of their first names, the lesser one comes first.
unfoldable pub merge : List StreamNode → Nodes → Nodes
unfolding before
merge [] ns = ns
merge (s ∷ ss) no_nodes = nodes (stream_node s) (merge ss no_nodes)
merge (s ∷ ss) (nodes n ns) =
    let stream_first = nodes (stream_node s) (merge ss (nodes n ns)) in
    let storage_first = nodes n (merge (s ∷ ss) ns) in
    if before s.name (node_name n) then stream_first else storage_first

-- The children of sorted storages.
unfoldable mutual
  unfolding merge

  pub node_of : Tree → Node
  node_of (tree s streams subs) = storage_node s (merge streams (nodes_of subs))

  pub nodes_of : Trees → Nodes
  nodes_of no_trees = no_nodes
  nodes_of (trees t ts) = nodes (node_of t) (nodes_of ts)

-- The number of entries of a child, with what is below it.
unfoldable mutual
  pub count : Node → ℕ
  count (stream_node s) = 1
  count (storage_node s ns) = 1 + count_all ns

  pub count_all : Nodes → ℕ
  count_all no_nodes = 0
  count_all (nodes n ns) = count n + count_all ns

-- The numbers of children that follow each other from `c` on, each with all that is below it behind it.
unfoldable pub numbers : Nodes → ℕ → List ℕ
unfolding count
numbers no_nodes c = []
numbers (nodes n ns) c = c ∷ numbers ns (c + count n)

-- The entries `es` are those of the child with the number `c`, and of all that is below it: each
-- stands at its number, with its links in `links`.
unfoldable mutual
  unfolding count

  pub Numbered : List Direntry → List LayoutEntry → Node → ℕ → Type 0
  Numbered es links (stream_node s) c =
      get_elem? es c ≡ some (stream_direntry s (get_or links c blank))
  Numbered es links (storage_node s ns) c =
      (get_elem? es c ≡ some (storage_direntry s (get_or links c blank)))
      × NumberedAll es links ns (c + 1)

  pub NumberedAll : List Direntry → List LayoutEntry → Nodes → ℕ → Type 0
  NumberedAll es links no_nodes c = Unit
  NumberedAll es links (nodes n ns) c =
      Numbered es links n c × NumberedAll es links ns (c + count n)

-- The root entry: no creation time, and the mini stream if there is one.
abbrev pub root_entry : ℕ → ℕ → StorageNode → LayoutEntry → Direntry
root_entry mini_start mini_size s links = record {
  name = s.name;
  clsid = s.clsid;
  state_bits = s.state_bits;
  created = 0;
  modified = ticks (F.encode s.modified);
  size = if ltb 0 mini_size then mini_size else 0;
  object_type = object_root;
  left_sib = links.left_sib;
  right_sib = links.right_sib;
  child_id = links.child_id;
  start_sec = if ltb 0 mini_size then mini_start else end_of_chain;
}

pub node_name-node_of : (t : Tree) → node_name (node_of t) ≡ tree_name t
unfolding node_of
node_name-node_of (tree s ss ts) = refl

pub merge-before :
    (s : StreamNode) (ss : List StreamNode) (t : Tree) (ns : Nodes)
    → before s.name (tree_name t) ≡ true
    → merge (s ∷ ss) (nodes (node_of t) ns)
      ≡ nodes (stream_node s) (merge ss (nodes (node_of t) ns))
unfolding merge
merge-before s ss t ns e = rw (node_name-node_of t) (rw e refl)

pub merge-after :
    (s : StreamNode) (ss : List StreamNode) (t : Tree) (ns : Nodes)
    → before s.name (tree_name t) ≡ false
    → merge (s ∷ ss) (nodes (node_of t) ns) ≡ nodes (node_of t) (merge (s ∷ ss) ns)
unfolding merge
merge-after s ss t ns e = rw (node_name-node_of t) (rw e refl)

-- ===== src/Tests/Directories.antt =====
-- Runs of the code that writes the directory.
use go_cfb.Base.{ℕ, ◌+◌, ◌≡◌, refl, List, [], ◌∷◌, replicate, map, get_or}
use go_cfb.FileTime.{zero_time}
use go_cfb.Format.{end_of_chain}
use go_cfb.Name.{compare_names, compare_units, to_upper}
use go_cfb.Writer.Directory.{
  StreamNode, StorageNode, Tree, Trees, tree, trees, no_trees, before, unset, assign, assign_loop,
  directory, stream_direntry,
}
use go_cfb.Writer.Directory.Assigned.{assign_loop-numbers}
use go_cfb.Writer.Directory.Ordered.{merge, nodes_of, count_all, numbers}

abbrev a_storage : ℕ → StorageNode
a_storage c = record {
  name = c ∷ [];
  clsid = replicate 16 0;
  state_bits = 0;
  created = zero_time;
  modified = zero_time;
}

abbrev a_stream : ℕ → StreamNode
a_stream c = record { name = c ∷ []; state_bits = 0; size = 0; first = 0 }

-- Two streams, created in the wrong order, and a storage between them that holds a stream.
abbrev streams : List StreamNode
streams = a_stream 0x43 ∷ a_stream 0x41 ∷ []

abbrev subs : Trees
subs = trees (tree (a_storage 0x42) (a_stream 0x44 ∷ []) no_trees) no_trees

-- The root storage.
abbrev root : Tree
root = tree (a_storage 0x52) streams subs

-- The children A, B and C of the root, of which B is a storage that holds one stream.
abbrev sorted : List StreamNode
sorted = a_stream 0x41 ∷ a_stream 0x43 ∷ []

assign_loop-numbers_example :
    ((assign_loop sorted subs (replicate 5 unset) 1).1 ≡ numbers (merge sorted (nodes_of subs)) 1)
    × (((assign_loop sorted subs (replicate 5 unset) 1).0).1
        ≡ 1 + count_all (merge sorted (nodes_of subs)))
assign_loop-numbers_example = assign_loop-numbers sorted subs (replicate 5 unset) 1

given : (assign_loop sorted subs (replicate 5 unset) 1).1 ≡ 1 ∷ 2 ∷ 4 ∷ []
unfolding assign before compare_names compare_units to_upper
given = refl

-- The first unit of each name, in the order of the file.
listed :
    map (λ e. get_or e.name 0 0) (directory end_of_chain 0 5 root)
    ≡ 0x52 ∷ 0x41 ∷ 0x42 ∷ 0x44 ∷ 0x43 ∷ []
unfolding directory compare_names compare_units to_upper stream_direntry
listed = refl

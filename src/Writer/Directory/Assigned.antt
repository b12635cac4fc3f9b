-- ===== src/Writer/Directory/Assigned.antt =====
-- The numbers that assignLayout gives.
use go_cfb.Base.{ℕ, ◌+◌, ◌≡◌, refl, ap, ◌∙◌, List, [], ◌∷◌, arith, Bool-cases, inl, inr, set}
use go_cfb.Writer.Directory.{
  StreamNode, Tree, Trees, tree, no_trees, trees, tree_name, before, blank, assign, assign_loop,
}
use go_cfb.Writer.Layout.{LayoutEntry}
use go_cfb.Writer.Directory.Ordered.{
  merge, node_of, nodes_of, count, count_all, numbers, merge-before, merge-after,
}

-- assignLayout counts, and numbers the children in their order.
abbrev Assigns : List StreamNode → Trees → List LayoutEntry → ℕ → Type 0
Assigns ss ts l c =
    (((assign_loop ss ts l c).0).1 ≡ c + count_all (merge ss (nodes_of ts)))
    × ((assign_loop ss ts l c).1 ≡ numbers (merge ss (nodes_of ts)) c)

mutual
  unfolding assign count numbers merge node_of before

  assign_counts :
      (t : Tree) (l : List LayoutEntry) (c : ℕ) → (assign t l c).1 ≡ c + count (node_of t)
  assign_counts (tree s ss ts) l c =
      omega (arith, (assign_loop_counts ss ts (set l c blank) (c + 1)).0)

  assign_loop_counts :
      (ss : List StreamNode) (ts : Trees) (l : List LayoutEntry) (c : ℕ) → Assigns ss ts l c
  assign_loop_counts [] no_trees l c = (omega arith, refl)
  assign_loop_counts (s ∷ ss) no_trees l c =
      let (next, ids) = assign_loop_counts ss no_trees (set l c blank) (c + 1) in
      (omega (arith, next), ap (λ is. c ∷ is) ids)
  assign_loop_counts [] (trees t ts) l c =
      let own = assign_counts t l c in
      let (next, ids) = assign_loop_counts [] ts ((assign t l c).0) ((assign t l c).1) in
      (omega (arith, own, next), ap (λ is. c ∷ is) (ids ∙ ap (numbers (nodes_of ts)) own))
  assign_loop_counts (s ∷ ss) (trees t ts) l c = elim (Bool-cases (before s.name (tree_name t))) [
    | inl e ↦
        let (next, ids) = assign_loop_counts ss (trees t ts) (set l c blank) (c + 1) in
        rw (merge-before s ss t (nodes_of ts) e) (rw e (omega (arith, next), ap (λ is. c ∷ is) ids))
    | inr e ↦
        let own = assign_counts t l c in
        let (next, ids) = assign_loop_counts (s ∷ ss) ts ((assign t l c).0) ((assign t l c).1) in
        rw (merge-after s ss t (nodes_of ts) e) (
          rw e (
            omega (arith, own, next),
            ap (λ is. c ∷ is) (ids ∙ ap (numbers (merge (s ∷ ss) (nodes_of ts))) own),
          ))
  ]

-- The loop of assignLayout merges the streams and the storages of a storage by their names, in which
-- they are sorted: the child IDs that it hands to linkBST are the numbers of the children in the order
-- of the merge, from the counter on and with room behind each child for all that is below it, and the
-- counter ends behind the last one. This holds for the call for every storage.
pub assign_loop-numbers :
    (ss : List StreamNode) (ts : Trees) (layout : List LayoutEntry) (c : ℕ)
    → ((assign_loop ss ts layout c).1 ≡ numbers (merge ss (nodes_of ts)) c)
      × (((assign_loop ss ts layout c).0).1 ≡ c + count_all (merge ss (nodes_of ts)))
assign_loop-numbers ss ts layout c =
    let (next, ids) = assign_loop_counts ss ts layout c in (ids, next)

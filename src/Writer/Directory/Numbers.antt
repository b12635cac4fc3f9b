-- ===== src/Writer/Directory/Numbers.antt =====
-- The places of the entries that emitDirectory writes.
use go_cfb.Base.{
  ℕ, zero, suc, ◌+◌, ◌≡◌, refl, sym, ap, ◌∙◌, List, [], ◌∷◌, ◌++◌, some, arith, Bool-cases, inl,
  inr, length, length-append, get_elem?, get_or,
}
use mathlib.Core.List.{append_assoc}
use mathlib.Core.Path.{subst}
use go_cfb.Writer.Direntry.{Direntry}
use go_cfb.Writer.Directory.{
  StreamNode, Tree, Trees, tree, no_trees, trees, tree_name, before, blank, storage_direntry,
  stream_direntry, emit, emit_loop,
}
use go_cfb.Writer.Layout.{LayoutEntry}
use go_cfb.Writer.Directory.Ordered.{
  Node, Nodes, no_nodes, nodes, merge, node_of, nodes_of, count, count_all, Numbered, NumberedAll,
  merge-before, merge-after,
}

-- emitDirectory counts alike.
abbrev Emits : List StreamNode → Trees → List LayoutEntry → ℕ → Type 0
Emits ss ts l c =
    ((emit_loop ss ts l c).1 ≡ c + count_all (merge ss (nodes_of ts)))
    × (length ((emit_loop ss ts l c).0) ≡ count_all (merge ss (nodes_of ts)))

mutual
  unfolding emit count merge node_of before

  emit_counts :
      (t : Tree) (l : List LayoutEntry) (c : ℕ)
      → ((emit t l c).1 ≡ c + count (node_of t)) × (length ((emit t l c).0) ≡ count (node_of t))
  emit_counts (tree s ss ts) l c =
      let (next, size) = emit_loop_counts ss ts l (c + 1) in
      (omega (arith, next), omega (arith, size))

  emit_loop_counts :
      (ss : List StreamNode) (ts : Trees) (l : List LayoutEntry) (c : ℕ) → Emits ss ts l c
  emit_loop_counts [] no_trees l c = (omega arith, omega arith)
  emit_loop_counts (s ∷ ss) no_trees l c =
      let (next, size) = emit_loop_counts ss no_trees l (c + 1) in
      (omega (arith, next), omega (arith, size))
  emit_loop_counts [] (trees t ts) l c =
      let (next, size) = emit_counts t l c in
      let (next', size') = emit_loop_counts [] ts l ((emit t l c).1) in
      (
        omega (arith, next, next'),
        omega (
          arith,
          size,
          size',
          length-append ((emit t l c).0) ((emit_loop [] ts l ((emit t l c).1)).0),
        ),
      )
  emit_loop_counts (s ∷ ss) (trees t ts) l c = elim (Bool-cases (before s.name (tree_name t))) [
    | inl e ↦
        let (next, size) = emit_loop_counts ss (trees t ts) l (c + 1) in
        rw (merge-before s ss t (nodes_of ts) e) (rw e (omega (arith, next), omega (arith, size)))
    | inr e ↦
        let (next, size) = emit_counts t l c in
        let (next', size') = emit_loop_counts (s ∷ ss) ts l ((emit t l c).1) in
        let both = length-append ((emit t l c).0) ((emit_loop (s ∷ ss) ts l ((emit t l c).1)).0) in
        rw (merge-after s ss t (nodes_of ts) e)
          (rw e (omega (arith, next, next'), omega (arith, size, size', both)))
  ]

get_elem?-middle :
    {A : Type 0} (front : List A) (x : A) (back : List A) (c : ℕ)
    → length front ≡ c
    → get_elem? (front ++ x ∷ back) c ≡ some x
get_elem?-middle [] x back zero e = refl
get_elem?-middle [] x back (suc c) e = absurd (omega (arith, e))
get_elem?-middle (y ∷ front) x back zero e = absurd (omega (arith, e))
get_elem?-middle (y ∷ front) x back (suc c) e = get_elem?-middle front x back c (omega (arith, e))

-- An entry and what follows it, behind `front`.
behind :
    (P : List Direntry → Type 0) (front : List Direntry) (x : Direntry) (rest back : List Direntry)
    → P ((front ++ x ∷ []) ++ (rest ++ back))
    → P (front ++ ((x ∷ rest) ++ back))
behind P front x rest back p = subst P (append_assoc front (x ∷ []) (rest ++ back)) p

-- The entries of a storage and what follows them, behind `front`.
split_NumberedAll :
    (links : List LayoutEntry) (n : Node) (ns : Nodes) (c next : ℕ)
    (front own rest back : List Direntry)
    → next ≡ c + count n
    → Numbered (front ++ (own ++ (rest ++ back))) links n c
    → NumberedAll ((front ++ own) ++ (rest ++ back)) links ns next
    → NumberedAll (front ++ ((own ++ rest) ++ back)) links (nodes n ns) c
unfolding NumberedAll
split_NumberedAll links n ns c next front own rest back same first others =
    let inner = ap (λ x. front ++ x) (sym (append_assoc own rest back)) in
    (
      subst (λ es. Numbered es links n c) inner first,
      subst (λ k. NumberedAll (front ++ ((own ++ rest) ++ back)) links ns k) same
          (subst (λ es. NumberedAll es links ns next)
            (append_assoc front own (rest ++ back) ∙ inner) others),
    )

mutual
  unfolding emit node_of merge before Numbered count

  emit-Numbered :
      (links : List LayoutEntry) (t : Tree) (c : ℕ) (front back : List Direntry)
      → length front ≡ c
      → Numbered (front ++ ((emit t links c).0 ++ back)) links (node_of t) c
  emit-Numbered links (tree s ss ts) c front back e =
      let own = storage_direntry s (get_or links c blank) in
      (
        get_elem?-middle front own _ c e,
        behind (λ es. NumberedAll es links (merge ss (nodes_of ts)) (c + 1)) front own _ back
            (emit_loop-NumberedAll links ss ts (c + 1) (front ++ own ∷ []) back
              (omega (arith, e, length-append front (own ∷ [])))),
      )

  emit_loop-NumberedAll :
      (links : List LayoutEntry) (ss : List StreamNode) (ts : Trees) (c : ℕ)
      (front back : List Direntry)
      → length front ≡ c
      → NumberedAll
          (front ++ ((emit_loop ss ts links c).0 ++ back))
          links
          (merge ss (nodes_of ts))
          c
  emit_loop-NumberedAll links [] no_trees c front back e = tt
  emit_loop-NumberedAll links (s ∷ ss) no_trees c front back e =
      let own = stream_direntry s (get_or links c blank) in
      (
        get_elem?-middle front own _ c e,
        behind (λ es. NumberedAll es links (merge ss no_nodes) (c + 1)) front own _ back
            (emit_loop-NumberedAll links ss no_trees (c + 1) (front ++ own ∷ []) back
              (omega (arith, e, length-append front (own ∷ [])))),
      )
  emit_loop-NumberedAll links [] (trees t ts) c front back e =
      let own = (emit t links c).0 in
      let next = (emit t links c).1 in
      let rest = (emit_loop [] ts links next).0 in
      let (counted, size) = emit_counts t links c in
      split_NumberedAll links (node_of t) (nodes_of ts) c next front own rest back counted
        (emit-Numbered links t c front (rest ++ back) e)
        (emit_loop-NumberedAll links [] ts next (front ++ own) back
          (omega (arith, e, counted, size, length-append front own)))
  emit_loop-NumberedAll links (s ∷ ss) (trees t ts) c front back e =
      elim (Bool-cases (before s.name (tree_name t))) [
        | inl b ↦
            let own = stream_direntry s (get_or links c blank) in
            rw (merge-before s ss t (nodes_of ts) b) (
              rw b (
                get_elem?-middle front own _ c e,
                behind
                    (λ es.
                      NumberedAll es links (merge ss (nodes (node_of t) (nodes_of ts))) (c + 1))
                    front own _ back
                    (emit_loop-NumberedAll links ss (trees t ts) (c + 1) (front ++ own ∷ []) back
                      (omega (arith, e, length-append front (own ∷ [])))),
              ))
        | inr b ↦
            let own = (emit t links c).0 in
            let next = (emit t links c).1 in
            let rest = (emit_loop (s ∷ ss) ts links next).0 in
            let (counted, size) = emit_counts t links c in
            rw (merge-after s ss t (nodes_of ts) b) (
              rw b (
                split_NumberedAll links (node_of t) (merge (s ∷ ss) (nodes_of ts)) c next front own
                  rest back counted (emit-Numbered links t c front (rest ++ back) e)
                  (emit_loop-NumberedAll links (s ∷ ss) ts next (front ++ own) back
                    (omega (arith, e, counted, size, length-append front own)))))
      ]

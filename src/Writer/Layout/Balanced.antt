-- ===== src/Writer/Layout/Balanced.antt =====
-- linkBST links the children into a balanced search tree.
use go_cfb.Base.{
  ℕ, zero, suc, ◌+◌, ◌-◌, ◌*◌, ◌/◌, ◌^◌, ◌≤◌, ◌<◌, ◌≡◌, ◌≢◌, refl, sym, ◌∙◌, List, some, arith, leb,
  true, false, length, get_elem?, get_or, get_elem?-some, get_elem?-update_self,
  get_elem?-update_ne, length-update,
}
use native.Mathlib.Decide.{dec_le}
use native.Mathlib.Nat.{pow-suc}
use go_cfb.Format.{no_stream}
use go_cfb.Writer.Layout.{LayoutEntry, set_left, set_right, link_bst, link_all, InOrder, leaf, node}

-- `id` is none of the children at positions from `lo` up to `top`.
abbrev pub Outside : List ℕ → ℕ → ℕ → ℕ → Type 0
Outside ids lo top id = (k : ℕ) → lo ≤ k → k < top → get_or ids k 0 ≢ id

-- The tree reads only the entries of its children.
InOrder-agree :
    {l l' : List LayoutEntry} {ids : List ℕ} {h root lo top : ℕ}
    → ((k : ℕ) → lo ≤ k → k < top → get_elem? l' (get_or ids k 0) ≡ get_elem? l (get_or ids k 0))
    → InOrder l ids h root lo top
    → InOrder l' ids h root lo top
InOrder-agree same (leaf h root lo top e p) = leaf h root lo top e p
InOrder-agree same (node h root lo top mid e p q r at left right) =
    node h root lo top mid e p q r (ground (arith, same mid p q))
      (InOrder-agree (λ k a b. same k a (omega arith)) left)
      (InOrder-agree (λ k a b. same k (omega arith) b) right)

-- What a call promises: a tree of the children in the range, with no other entry changed.
record Linked (l : List LayoutEntry) (ids : List ℕ) (h lo top : ℕ) (r : List LayoutEntry × ℕ)
    : Type 0 where
  tree : InOrder r.0 ids h r.1 lo top
  frame : (j : ℕ) → Outside ids lo top j → get_elem? r.0 j ≡ get_elem? l j
  size : length r.0 ≡ length l

-- The children have different IDs, which the layout has entries for.
pub record AreChildren (l : List LayoutEntry) (ids : List ℕ) : Type 0 where
  pub distinct : (i j : ℕ) → i < j → j < length ids → get_or ids i 0 ≢ get_or ids j 0
  pub inside : (i : ℕ) → i < length ids → get_or ids i 0 < length l

-- The two calls for the halves, and the two links of the child between them.
module _ (l : List LayoutEntry) (ids : List ℕ) (h lo top mid : ℕ)
    (left right : List LayoutEntry × ℕ) (c : AreChildren l ids) (low : lo ≤ mid) (high : mid < top)
    (end : top ≤ length ids) (a : Linked l ids h lo mid left)
    (b : Linked (set_left left.0 (get_or ids mid 0) left.1) ids h (mid + 1) top right) where
  abbrev id : ℕ
  id = get_or ids mid 0

  joined-ne :
      (j : ℕ)
      → id ≢ j
      → Outside ids (mid + 1) top j
      → get_elem? (set_right right.0 id right.1) j ≡ get_elem? left.0 j
  unfolding set_left set_right
  joined-ne j other out =
      get_elem?-update_ne right.0 id j _ other
      ∙ b.frame j out
      ∙ get_elem?-update_ne left.0 id j _ other

  joined_entry :
      (e : LayoutEntry) × (get_elem? (set_right right.0 id right.1) id ≡ some e)
      × (e.left_sib ≡ left.1)
      × (e.right_sib ≡ right.1)
  unfolding set_left set_right
  joined_entry =
      let (e, at) = get_elem?-some left.0 id (omega (arith, a.size, c.inside mid (omega arith))) in
      (
        record { left_sib = left.1; right_sib = right.1; child_id = e.child_id },
        get_elem?-update_self right.0 id _ (
            b.frame id (λ k p q same. c.distinct mid k (omega arith) (omega arith) (sym same))
            ∙ get_elem?-update_self left.0 id _ at),
        refl,
        refl,
      )

  joined-Linked : Linked l ids (suc h) lo top (set_right right.0 id right.1, id)
  unfolding set_left set_right
  joined-Linked =
      let (e, at, to_left, to_right) = joined_entry in
      record {
        tree =
            node h id lo top mid e low high refl at
              (rw to_left (
                InOrder-agree
                  (λ k p q.
                    joined-ne (get_or ids k 0) (λ same. c.distinct k mid q (omega arith) (sym same))
                      (λ i r s same. c.distinct k i (omega arith) (omega arith) (sym same)))
                  a.tree))
              (rw to_right (
                InOrder-agree
                  (λ k p q.
                    get_elem?-update_ne right.0 id (get_or ids k 0) _
                      (λ same. c.distinct mid k (omega arith) (omega arith) same))
                  b.tree));
        frame = λ j out.
            joined-ne j (out mid low high) (λ k p q. out k (omega arith) q)
            ∙ a.frame j (λ k p q. out k p (omega arith));
        size = length-update right.0 id _ ∙ b.size ∙ length-update left.0 id _ ∙ a.size;
      }

pow_two : (h : ℕ) → 2 ^ suc h ≡ 2 * 2 ^ h
pow_two h = omega (arith, pow-suc 2 h)

link_bst-empty :
    (fuel : ℕ) (l : List LayoutEntry) (ids : List ℕ) (lo top : ℕ)
    → top ≤ lo
    → link_bst fuel l ids lo top ≡ (l, no_stream)
unfolding link_bst
link_bst-empty zero l ids lo top h = refl
link_bst-empty (suc fuel) l ids lo top h = let e : leb top lo ≡ true = ground arith in rw e

empty-Linked :
    (l : List LayoutEntry) (ids : List ℕ) (h lo top : ℕ)
    → top ≤ lo
    → Linked l ids h lo top (l, no_stream)
empty-Linked l ids h lo top p = record {
  tree = leaf h no_stream lo top refl p;
  frame = λ j out. refl;
  size = refl;
}

AreChildren-size :
    (l l' : List LayoutEntry) (ids : List ℕ)
    → length l' ≡ length l
    → AreChildren l ids
    → AreChildren l' ids
AreChildren-size l l' ids e c = record {
  distinct = c.distinct;
  inside = λ i p. rw e (c.inside i p);
}

length-set_left : (l : List LayoutEntry) (i v : ℕ) → length (set_left l i v) ≡ length l
unfolding set_left
length-set_left l i v = length-update l i _

-- A round on a range that is not empty.
module _ (fuel : ℕ) (l : List LayoutEntry) (ids : List ℕ) (lo top : ℕ) where
  abbrev middle : ℕ
  middle = (lo + top - 1) / 2

  abbrev root : ℕ
  root = get_or ids middle 0

  abbrev left_of : List LayoutEntry × ℕ
  left_of = link_bst fuel l ids lo middle

  abbrev right_of : List LayoutEntry × ℕ
  right_of = link_bst fuel (set_left left_of.0 root left_of.1) ids (middle + 1) top

  link_bst_step :
      ¬ (top ≤ lo) → link_bst (suc fuel) l ids lo top ≡ (set_right right_of.0 root right_of.1, root)
  unfolding link_bst
  link_bst_step h = let e : leb top lo ≡ false = ground arith in rw e

-- Each half has less than half of the range, so the height falls by one.
link_bst-Linked :
    (h fuel : ℕ) (l : List LayoutEntry) (ids : List ℕ) (lo top : ℕ)
    → h ≤ fuel
    → top - lo < 2 ^ h
    → top ≤ length ids
    → AreChildren l ids
    → Linked l ids h lo top (link_bst fuel l ids lo top)
link_bst-Linked zero fuel l ids lo top f n end c =
    rw (link_bst-empty fuel l ids lo top (omega arith))
      (empty-Linked l ids zero lo top (omega arith))
link_bst-Linked (suc h) zero l ids lo top f n end c = absurd (omega arith)
link_bst-Linked (suc h) (suc fuel) l ids lo top f n end c = elim (dec_le top lo) [
  | yes none_left ↦
      rw (link_bst-empty (suc fuel) l ids lo top none_left)
        (empty-Linked l ids (suc h) lo top none_left)
  | no more ↦
      let mid = (lo + top - 1) / 2 in
      let id = get_or ids mid 0 in
      let half : 2 ^ suc h ≡ 2 * 2 ^ h = pow_two h in
      let left = link_bst fuel l ids lo mid in
      let l' = set_left left.0 id left.1 in
      let a =
        link_bst-Linked h fuel l ids lo mid (omega arith) (omega (arith, half)) (omega arith) c in
      let b =
        link_bst-Linked h fuel l' ids (mid + 1) top (omega arith) (omega (arith, half)) end
          (AreChildren-size l l' ids (length-set_left left.0 id left.1 ∙ a.size) c) in
      rw (link_bst_step fuel l ids lo top more) (
        joined-Linked l ids h lo top mid left (link_bst fuel l' ids (mid + 1) top) c (omega arith)
          (omega arith) end a b)
]

lt-pow_two : (n : ℕ) → n < 2 ^ n
lt-pow_two zero = omega arith
lt-pow_two (suc n) = omega (arith, pow_two n, lt-pow_two n)

-- linkBST over the children of a storage: the layout gets a binary tree with all the children, in
-- order, of a height that 2 ^ height > number of children allows, and no other entry changes.
pub link_all-Linked :
    (layout : List LayoutEntry) (ids : List ℕ) (height : ℕ)
    → AreChildren layout ids
    → length ids < 2 ^ height
    → height ≤ length ids
    → InOrder (link_all layout ids).0 ids height (link_all layout ids).1 0 (length ids)
      × ((j : ℕ)
          → Outside ids 0 (length ids) j
          → get_elem? (link_all layout ids).0 j ≡ get_elem? layout j)
unfolding link_all
link_all-Linked layout ids height c n f =
    let r =
      link_bst-Linked height (length ids) layout ids 0 (length ids) f (omega arith) (omega arith)
        c in
    (r.tree, r.frame)

-- ===== src/Writer/Layout.antt =====
-- layoutEntry and linkBST of writer.go. The argument `top` is the source's `hi + 1`, since `hi` is
-- -1 for an empty range.
pub mod Balanced
use go_cfb.Base.{
  ℕ, zero, suc, ◌+◌, ◌-◌, ◌/◌, List, Option, none, some, ◌≡◌, ◌≤◌, ◌<◌, leb, if◌then◌else◌, length,
  get_elem?, get_or, update,
}
use go_cfb.Format.{no_stream}

-- layoutEntry
pub record LayoutEntry : Type 0 where
  pub left_sib : ℕ
  pub right_sib : ℕ
  pub child_id : ℕ

-- `layout[id].leftSib = v` and `layout[id].rightSib = v`, for an index in range.
unfoldable pub set_left : List LayoutEntry → ℕ → ℕ → List LayoutEntry
set_left layout id v =
    update layout id (λ e. record { left_sib = v; right_sib = e.right_sib; child_id = e.child_id })

unfoldable pub set_right : List LayoutEntry → ℕ → ℕ → List LayoutEntry
set_right layout id v =
    update layout id (λ e. record { left_sib = e.left_sib; right_sib = v; child_id = e.child_id })

-- The layout after the call, and the root.
unfoldable pub link_bst : ℕ → List LayoutEntry → List ℕ → ℕ → ℕ → List LayoutEntry × ℕ
link_bst zero layout ids lo top = (layout, no_stream)
link_bst (suc fuel) layout ids lo top =
    let mid = (lo + top - 1) / 2 in
    let id = get_or ids mid 0 in
    let left = link_bst fuel layout ids lo mid in
    let layout' = set_left (left.0) id (left.1) in
    let right = link_bst fuel layout' ids (mid + 1) top in
    if leb top lo then (layout, no_stream) else (set_right (right.0) id (right.1), id)

-- The call of assignLayout, over all children.
unfoldable pub link_all : List LayoutEntry → List ℕ → List LayoutEntry × ℕ
link_all layout ids = link_bst (length ids) layout ids 0 (length ids)

-- The specification: the tree at `root` has the children at positions from `lo` up to `top` in
-- order, and `height` levels at most.
pub data InOrder (layout : List LayoutEntry) (ids : List ℕ) : ℕ → ℕ → ℕ → ℕ → Type 0 where
  leaf :
      (height root lo top : ℕ) → root ≡ no_stream → top ≤ lo → InOrder layout ids height root lo top
  node :
      (height root lo top mid : ℕ) (e : LayoutEntry)
      → lo ≤ mid
      → mid < top
      → root ≡ get_or ids mid 0
      → get_elem? layout root ≡ some e
      → InOrder layout ids height e.left_sib lo mid
      → InOrder layout ids height e.right_sib (mid + 1) top
      → InOrder layout ids (suc height) root lo top

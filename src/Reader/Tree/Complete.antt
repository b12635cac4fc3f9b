-- ===== src/Reader/Tree/Complete.antt =====
-- walkBST lists every tree of entries.
use go_cfb.Base.{
  ℕ, zero, suc, ◌+◌, ◌≤◌, ◌<◌, ◌≡◌, ◌↔◌, refl, sym, ap, ◌∙◌, true, false, List, [], ◌∷◌, ◌++◌, ok,
  ◌==◌, arith, length, get_or, set, length-set, lt_of_get_elem?, Bool-cases, inl, inr, ==_iff,
}
use mathlib.Core.Path.{subst, ap₂}
use go_cfb.Format.{no_stream, object_unallocated, object_storage, object_stream}
use go_cfb.Reader.Build.{build_stream}
use go_cfb.Reader.Entry.{RawEntry, Object, a_storage, a_stream, StorageInfo, StreamInfo}
use go_cfb.Reader.Errors.{Parsed}
use go_cfb.Reader.Lookup.{Entry, Entries, storage, stream}
use go_cfb.Reader.Runs.{Run}
use go_cfb.Reader.Tree.{
  Parser, Marks, Walked, to_entries, build_storage, storage_entry, stream_entry, visit_entry,
  walk_entry, walk_bst,
}
use go_cfb.Reader.Tree.Total.{unmarked, unmarked-set, unmarked-set_le}
use go_cfb.Reader.Tree.Listed.{
  below, Own, own_stream, own_storage, own_free, Listed, nothing, branch, mark_all, Fresh,
  mark_all-append, Fresh-append, Reached,
}
use go_cfb.Reader.Tree.Sound.{walk_bst_sound}

Listed-no_stream :
    {p : Parser} {root : ℕ} {ids : List ℕ} {es : List Entry}
    → Listed p root ids es
    → root ≡ no_stream
    → (ids ≡ []) × (es ≡ [])
Listed-no_stream (nothing e f g) end = (f, g)
Listed-no_stream (branch more there l o own r f g) end = absurd (more end)

-- Marking leaves as many marks, and no more entries without one.
unmarked-mark_all :
    (ms : Marks) (ids : List ℕ)
    → (length (mark_all ms ids) ≡ length ms) × (unmarked (mark_all ms ids) ≤ unmarked ms)
unfolding mark_all
unmarked-mark_all ms [] = (refl, omega arith)
unmarked-mark_all ms (i ∷ is) =
    let (size, less) = unmarked-mark_all (set ms i true) is in
    (size ∙ length-set ms i true, omega (arith, less, unmarked-set_le ms i))

module _ (p : Parser) (walk : Marks → ℕ → Parsed Walked) (ms : Marks) (de : RawEntry) where
  stream_entry_complete :
      (info : StreamInfo) (runs : List Run) (o : Object)
      → o ≡ a_stream info
      → build_stream p.sec_size p.fat p.mini_fat p.mini_stream de ≡ ok runs
      → stream_entry p ms de o ≡ ok (ms, stream info runs ∷ [])
  unfolding stream_entry
  stream_entry_complete info runs o is built = rw is (rw built refl)

  build_storage_complete :
      (os : List ℕ) (cs : List Entry)
      → Listed p de.child_id os cs
      → walk ms de.child_id ≡ ok (mark_all ms os, cs)
      → build_storage walk ms de ≡ ok (mark_all ms os, to_entries cs)
  unfolding build_storage mark_all
  build_storage_complete os cs listed walked = elim (Bool-cases (de.child_id == no_stream)) [
    | inl end ↦
        let (no_ids, no_cs) = Listed-no_stream listed ((==_iff de.child_id no_stream).0 end) in
        rw (end, no_ids, no_cs) refl
    | inr more ↦ rw (more, walked) refl
  ]

  storage_entry_complete :
      (info : StorageInfo) (w : Marks × Entries) (o : Object)
      → o ≡ a_storage info
      → build_storage walk ms de ≡ ok w
      → storage_entry walk ms de o ≡ ok (w.0, storage info w.1 ∷ [])
  unfolding storage_entry
  storage_entry_complete info w o is built = rw is (rw built refl)

  visit_entry_complete :
      {os : List ℕ} {cs es : List Entry}
      → Own p de cs es
      → Listed p (below de) os cs
      → walk ms (below de) ≡ ok (mark_all ms os, cs)
      → visit_entry p walk ms de ≡ ok (mark_all ms os, es)
  unfolding visit_entry mark_all
  visit_entry_complete (own_stream {info} {runs} type is built e) listed walked =
      let out : below de ≡ no_stream = ground (arith, type) in
      let (no_ids, no_cs) = Listed-no_stream listed out in
      let t : (de.object_type == object_storage) ≡ false = ground (arith, type) in
      let u : (de.object_type == object_stream) ≡ true = ground (arith, type) in
      rw (t, u, no_ids, e) (stream_entry_complete info runs de.object is built)
  visit_entry_complete {os} {cs} (own_storage {info} type is e) listed walked =
      let in_it : below de ≡ de.child_id = ground (arith, type) in
      let t : (de.object_type == object_storage) ≡ true = ground (arith, type) in
      let built =
        build_storage_complete os cs (subst (λ c. Listed p c os cs) in_it listed)
          (subst (λ c. walk ms c ≡ ok (mark_all ms os, cs)) in_it walked) in
      rw (t, e) (storage_entry_complete info (mark_all ms os, to_entries cs) de.object is built)
  visit_entry_complete (own_free type e) listed walked =
      let out : below de ≡ no_stream = ground (arith, type) in
      let (no_ids, no_cs) = Listed-no_stream listed out in
      let t : (de.object_type == object_storage) ≡ false = ground (arith, type) in
      let u : (de.object_type == object_stream) ≡ false = ground (arith, type) in
      let v : (de.object_type == object_unallocated) ≡ true = ground (arith, type) in
      rw (t, u, v, no_ids, e) refl

  walk_entry_complete :
      (id : ℕ) (left own right : Walked)
      → get_or ms id false ≡ false
      → walk (set ms id true) de.left_sib ≡ ok left
      → visit_entry p walk left.0 de ≡ ok own
      → walk own.0 de.right_sib ≡ ok right
      → walk_entry p walk ms id de ≡ ok (right.0, left.1 ++ (own.1 ++ right.1))
  unfolding walk_entry
  walk_entry_complete id left own right first l o r = rw first (rw l (rw o (rw r refl)))

walk_bst_complete :
    (p : Parser) (fuel : ℕ) (ms : Marks) {id : ℕ} {ids : List ℕ} {es : List Entry}
    → Listed p id ids es
    → Fresh ms ids
    → length ms ≡ length p.raw
    → unmarked ms < fuel
    → walk_bst p fuel ms id ≡ ok (mark_all ms ids, es)
unfolding walk_bst walk_entry mark_all
walk_bst_complete p zero ms listed fresh size enough = absurd (omega arith)
walk_bst_complete p (suc fuel) ms (nothing e f g) fresh size enough =
    let end = (==_iff _ no_stream).1 e in rw (end, f, g) refl
walk_bst_complete p (suc fuel) ms
      (branch {root} {ids} {es} {de} {ls} {os} {rs} {les} {cs} {own} {res} more there l o own_it r f
        g)
      fresh size enough =
    let (first, rest) = subst (Fresh ms) f fresh in
    let ms' = set ms root true in
    let inside : root < length ms = omega (arith, size, lt_of_get_elem? p.raw root there) in
    let less = unmarked-set ms root inside first in
    let (fl, rest') = (Fresh-append ms' ls (os ++ rs)).0 rest in
    let (fo, fr) = (Fresh-append (mark_all ms' ls) os rs).0 rest' in
    let same = length-set ms root true ∙ size in
    let (same_l, less_l) = unmarked-mark_all ms' ls in
    let (same_o, less_o) = unmarked-mark_all (mark_all ms' ls) os in
    let go : (root == no_stream) ≡ false = ground (arith, more) in
    let wl = walk_bst_complete p fuel ms' l fl same (omega (arith, less, enough)) in
    let wo =
      walk_bst_complete p fuel (mark_all ms' ls) o fo (same_l ∙ same)
        (omega (arith, less, less_l, enough)) in
    let wr =
      walk_bst_complete p fuel (mark_all (mark_all ms' ls) os) r fr (same_o ∙ same_l ∙ same)
        (omega (arith, less, less_l, less_o, enough)) in
    let v = visit_entry_complete p (walk_bst p fuel) (mark_all ms' ls) de own_it o wo in
    let marks : mark_all ms ids ≡ mark_all (mark_all (mark_all ms' ls) os) rs =
      ap (mark_all ms) f
      ∙ mark_all-append ms' ls (os ++ rs)
      ∙ mark_all-append (mark_all ms' ls) os rs in
    rw (go, there)
      (walk_entry_complete p (walk_bst p fuel) ms de root (mark_all ms' ls, les)
          (mark_all (mark_all ms' ls) os, own) (mark_all (mark_all (mark_all ms' ls) os) rs, res)
          first wl v wr
        ∙ ap₂ (λ m xs. ok (m, xs)) (sym marks) (sym g))

unmarked_le_length : (ms : Marks) → unmarked ms ≤ length ms
unfolding unmarked
unmarked_le_length [] = omega arith
unmarked_le_length (true ∷ ms) = omega (arith, unmarked_le_length ms)
unmarked_le_length (false ∷ ms) = omega (arith, unmarked_le_length ms)

-- walkBST, with a mark for each directory entry, succeeds exactly if the entries below `id` form a
-- tree in which no entry occurs twice or is marked already, each is a storage, a stream whose
-- content is found, or unallocated, and the trees of the storages are such trees too. It then
-- returns what the entries stand for, in the order of the tree, and the marks with theirs.
pub walk_bst_iff :
    (p : Parser) (ms : Marks) (id : ℕ) (w : Walked)
    → length ms ≡ length p.raw
    → (walk_bst p (length p.raw + 1) ms id ≡ ok w) ↔ Reached p ms id w
walk_bst_iff p ms id w size = (walk_bst_sound p (length p.raw + 1) ms id w, complete)
  where
    complete : Reached p ms id w → walk_bst p (length p.raw + 1) ms id ≡ ok w
    complete reached =
        walk_bst_complete p (length p.raw + 1) ms reached.listed reached.fresh size
          (omega (arith, unmarked_le_length ms, size))
        ∙ ap (λ m. ok (m, w.1)) (sym reached.marked)

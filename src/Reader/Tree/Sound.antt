-- ===== src/Reader/Tree/Sound.antt =====
-- walkBST accepts nothing but trees, and lists their entries.
use go_cfb.Base.{
  ℕ, zero, suc, ◌≡◌, ◌≢◌, refl, sym, ap, ◌∙◌, true, false, List, [], ◌∷◌, ◌++◌, some, ok, >>=-eq-ok,
  ok-injective, ◌==◌, arith, get_elem?, get_or, set, Bool-cases, Option-cases, inl, inr, ==_iff,
}
use mathlib.Core.Path.{subst}
use go_cfb.Format.{no_stream, object_unallocated, object_storage, object_stream}
use go_cfb.Reader.Build.{build_stream}
use go_cfb.Reader.Entry.{RawEntry, Object, no_object, a_storage, a_stream}
use go_cfb.Reader.Errors.{Parsed}
use go_cfb.Reader.Lookup as L
use go_cfb.Reader.Lookup.{Entry, Entries, storage, stream}
use go_cfb.Reader.Tree.{
  Parser, Marks, Walked, to_entries, build_storage, storage_entry, stream_entry, visit_entry,
  walk_entry, walk_bst,
}
use go_cfb.Reader.Tree.Listed.{
  below, Own, own_stream, own_storage, own_free, Listed, nothing, branch, mark_all, Fresh,
  mark_all-append, Fresh-append, Reached,
}

-- What the visit of an entry has done.
record Visited (p : Parser) (ms : Marks) (de : RawEntry) (w : Walked) : Type 0 where
  ids : List ℕ
  cs : List Entry
  listed : Listed p (below de) ids cs
  own : Own p de cs w.1
  fresh : Fresh ms ids
  marked : w.0 ≡ mark_all ms ids

record Built (p : Parser) (ms : Marks) (de : RawEntry) (w : Marks × Entries) : Type 0 where
  ids : List ℕ
  cs : List Entry
  listed : Listed p de.child_id ids cs
  entries_of : w.1 ≡ to_entries cs
  fresh : Fresh ms ids
  marked : w.0 ≡ mark_all ms ids

module _ (p : Parser) (walk : Marks → ℕ → Parsed Walked) where
  abbrev Sound : Type 0
  Sound = (ms : Marks) (id : ℕ) (w : Walked) → walk ms id ≡ ok w → Reached p ms id w

  build_storage_sound :
      (ms : Marks) (de : RawEntry) (w : Marks × Entries)
      → Sound
      → build_storage walk ms de ≡ ok w
      → Built p ms de w
  unfolding build_storage mark_all
  build_storage_sound ms de w sound e = elim (Bool-cases (de.child_id == no_stream)) [
    | inl none_there ↦
        let e' : ok (ms, L.no_entries) ≡ ok w = rw none_there at e in
        let same = ok-injective e' in
        record {
          ids = [];
          cs = [];
          listed = nothing ((==_iff de.child_id no_stream).0 none_there) refl refl;
          entries_of = sym (ap (λ v. v.1) same);
          fresh = tt;
          marked = sym (ap (λ v. v.0) same);
        }
    | inr some_there ↦
        let (v, walked, e') = >>=-eq-ok (walk ms de.child_id) _ (rw some_there at e) in
        let same = ok-injective e' in
        let r = sound ms de.child_id v walked in
        record {
          ids = r.ids;
          cs = v.1;
          listed = r.listed;
          entries_of = sym (ap (λ u. u.1) same);
          fresh = r.fresh;
          marked = sym (ap (λ u. u.0) same) ∙ r.marked;
        }
  ]

  storage_entry_sound :
      (ms : Marks) (de : RawEntry) (o : Object) (w : Walked)
      → Sound
      → de.object_type ≡ object_storage
      → de.object ≡ o
      → storage_entry walk ms de o ≡ ok w
      → Visited p ms de w
  unfolding storage_entry
  storage_entry_sound ms de (a_storage info) w sound type is e =
      let (v, built, e') = >>=-eq-ok (build_storage walk ms de) _ e in
      let same = ok-injective e' in
      let b = build_storage_sound ms de v sound built in
      let child : de.child_id ≡ below de = ground (arith, type) in
      record {
        ids = b.ids;
        cs = b.cs;
        listed = subst (λ c. Listed p c b.ids b.cs) child b.listed;
        own =
            own_storage type is
              (sym (ap (λ u. u.1) same) ∙ ap (λ es. storage info es ∷ []) b.entries_of);
        fresh = b.fresh;
        marked = sym (ap (λ u. u.0) same) ∙ b.marked;
      }
  storage_entry_sound ms de no_object w sound type is e = cc
  storage_entry_sound ms de (a_stream info) w sound type is e = cc

  stream_entry_sound :
      (ms : Marks) (de : RawEntry) (o : Object) (w : Walked)
      → de.object_type ≡ object_stream
      → de.object ≡ o
      → stream_entry p ms de o ≡ ok w
      → Visited p ms de w
  unfolding stream_entry mark_all
  stream_entry_sound ms de (a_stream info) w type is e =
      let (runs, built, e') =
        >>=-eq-ok (build_stream p.sec_size p.fat p.mini_fat p.mini_stream de) _ e in
      let same = ok-injective e' in
      record {
        ids = [];
        cs = [];
        listed = nothing (ground (arith, type)) refl refl;
        own = own_stream type is built (sym (ap (λ u. u.1) same));
        fresh = tt;
        marked = sym (ap (λ u. u.0) same);
      }
  stream_entry_sound ms de no_object w type is e = cc
  stream_entry_sound ms de (a_storage info) w type is e = cc

  visit_entry_sound :
      (ms : Marks) (de : RawEntry) (w : Walked)
      → Sound
      → visit_entry p walk ms de ≡ ok w
      → Visited p ms de w
  unfolding visit_entry mark_all
  visit_entry_sound ms de w sound e = elim (Bool-cases (de.object_type == object_storage)) [
    | inl t ↦
        storage_entry_sound ms de de.object w sound ((==_iff de.object_type object_storage).0 t)
          refl (rw t at e)
    | inr not_storage ↦ elim (Bool-cases (de.object_type == object_stream)) [
      | inl t ↦
          stream_entry_sound ms de de.object w ((==_iff de.object_type object_stream).0 t) refl
            (rw (not_storage, t) at e)
      | inr not_stream ↦ elim (Bool-cases (de.object_type == object_unallocated)) [
        | inl t ↦
            let e' : ok (ms, []) ≡ ok w = rw (not_storage, not_stream, t) at e in
            let same = ok-injective e' in
            record {
              ids = [];
              cs = [];
              listed = nothing (ground (arith, not_storage)) refl refl;
              own =
                  own_free ((==_iff de.object_type object_unallocated).0 t)
                    (sym (ap (λ u. u.1) same));
              fresh = tt;
              marked = sym (ap (λ u. u.0) same);
            }
        | inr other ↦ absurd (ground (arith, not_storage, not_stream, other, e))
      ]
    ]
  ]

  joined :
      (ms : Marks) (id : ℕ) (de : RawEntry) (left own right : Walked)
      → id ≢ no_stream
      → get_elem? p.raw id ≡ some de
      → get_or ms id false ≡ false
      → Reached p (set ms id true) de.left_sib left
      → Visited p left.0 de own
      → Reached p own.0 de.right_sib right
      → Reached p ms id (right.0, left.1 ++ (own.1 ++ right.1))
  unfolding mark_all
  joined ms id de left own right more there first l o r =
      let ms' = set ms id true in
      let at_own : own.0 ≡ mark_all (mark_all ms' l.ids) o.ids =
        o.marked ∙ ap (λ m. mark_all m o.ids) l.marked in
      record {
        ids = id ∷ (l.ids ++ (o.ids ++ r.ids));
        listed = branch more there l.listed o.listed o.own r.listed refl refl;
        fresh = (
          first,
          (Fresh-append ms' l.ids (o.ids ++ r.ids)).1 (
            l.fresh,
            (Fresh-append (mark_all ms' l.ids) o.ids r.ids).1 (
              subst (λ m. Fresh m o.ids) l.marked o.fresh,
              subst (λ m. Fresh m r.ids) at_own r.fresh,
            ),
          ),
        );
        marked =
            r.marked
            ∙ ap (λ m. mark_all m r.ids) at_own
            ∙ sym (mark_all-append (mark_all ms' l.ids) o.ids r.ids)
            ∙ sym (mark_all-append ms' l.ids (o.ids ++ r.ids));
      }

  walk_entry_sound :
      (ms : Marks) (id : ℕ) (de : RawEntry) (w : Walked)
      → Sound
      → id ≢ no_stream
      → get_elem? p.raw id ≡ some de
      → walk_entry p walk ms id de ≡ ok w
      → Reached p ms id w
  unfolding walk_entry
  walk_entry_sound ms id de w sound more there e = elim (Bool-cases (get_or ms id false)) [
    | inl again ↦ absurd (ground (arith, again, e))
    | inr first ↦
        let (left, l, e1) = >>=-eq-ok (walk (set ms id true) de.left_sib) _ (rw first at e) in
        let (own, o, e2) = >>=-eq-ok (visit_entry p walk left.0 de) _ e1 in
        let (right, r, e3) = >>=-eq-ok (walk own.0 de.right_sib) _ e2 in
        subst (Reached p ms id) (ok-injective e3) (
          joined ms id de left own right more there first
            (sound (set ms id true) de.left_sib left l) (visit_entry_sound left.0 de own sound o)
            (sound own.0 de.right_sib right r))
  ]

pub walk_bst_sound :
    (p : Parser) (fuel : ℕ) (ms : Marks) (id : ℕ) (w : Walked)
    → walk_bst p fuel ms id ≡ ok w
    → Reached p ms id w
unfolding walk_bst mark_all
walk_bst_sound p zero ms id w e = cc
walk_bst_sound p (suc fuel) ms id w e = elim (Bool-cases (id == no_stream)) [
  | inl end ↦
      let e' : ok (ms, []) ≡ ok w = rw end at e in
      let same = ok-injective e' in
      record {
        ids = [];
        listed = nothing ((==_iff id no_stream).0 end) refl (sym (ap (λ u. u.1) same));
        fresh = tt;
        marked = sym (ap (λ u. u.0) same);
      }
  | inr more ↦ elim (Option-cases (get_elem? p.raw id)) [
    | inl out ↦ absurd (ground (arith, more, out, e))
    | inr (de, there) ↦
        walk_entry_sound p (walk_bst p fuel) ms id de w (walk_bst_sound p fuel)
          (ground (arith, more)) there (rw (more, there) at e)
  ]
]

-- ===== src/Reader/Lookup/Unique.antt =====
-- What a lookup finds.
use go_cfb.Base.{
  ℕ, ◌≡◌, ◌↔◌, ◌⊎◌, inl, inr, refl, sym, ap, ◌∙◌, true, false, List, Option, some, ok, arith,
  Bool-cases,
}
use mathlib.Core.Path.{subst}
use go_cfb.Name.Utf16.{encode_utf16}
use go_cfb.Name.Order.{folded}
use go_cfb.Name.Strings.{compare_names_str-zero}
use go_cfb.Reader.Entry.{StorageInfo, StreamInfo}
use go_cfb.Reader.Runs.{Run}
use go_cfb.Reader.Lookup.{
  Entry, Entries, storage, stream, no_entries, entries, name_of, as_stream, as_storage, is_named,
  find_entry, open_stream, open_storage,
}

-- Names that agree up to case.
abbrev pub SameName : List ℕ → List ℕ → Type 0
SameName a b = folded (encode_utf16 a) ≡ folded (encode_utf16 b)

abbrev pub Child : Entry → Entries → Type 0
Child e no_entries = ⊥
Child e (entries x xs) = (e ≡ x) ⊎ Child e xs

-- No two entries have the same name up to case.
abbrev pub Unique : Entries → Type 0
Unique no_entries = Unit
Unique (entries e es) =
    ((e' : Entry) → Child e' es → ¬ SameName (name_of e) (name_of e')) × Unique es

is_named_iff : (name : List ℕ) (e : Entry) → (is_named name e ≡ true) ↔ SameName name (name_of e)
unfolding is_named
is_named_iff name e = ground (arith, compare_names_str-zero name (name_of e))

module _ {T : Type 0} (as_type : Entry → Option T) where
  find_entry-cases :
      (e : Entry) (es : Entries) (name : List ℕ) (v : T)
      → find_entry as_type (entries e es) name ≡ some v
      → ((as_type e ≡ some v) × (is_named name e ≡ true)) ⊎ (find_entry as_type es name ≡ some v)
  unfolding find_entry
  find_entry-cases e es name v h = ground (arith, h)

  find_entry_hit :
      (e : Entry) (es : Entries) (name : List ℕ) (v : T)
      → as_type e ≡ some v
      → is_named name e ≡ true
      → find_entry as_type (entries e es) name ≡ some v
  unfolding find_entry
  find_entry_hit e es name v typed named = ground (arith, typed, named)

  find_entry_skip :
      (e : Entry) (es : Entries) (name : List ℕ)
      → is_named name e ≡ false
      → find_entry as_type (entries e es) name ≡ find_entry as_type es name
  unfolding find_entry
  find_entry_skip e es name named = ground (arith, named)

  -- What is found is a child of that name and type.
  find_entry_sound :
      (es : Entries) (name : List ℕ) (v : T)
      → find_entry as_type es name ≡ some v
      → (e : Entry) × Child e es × SameName name (name_of e) × (as_type e ≡ some v)
  unfolding find_entry
  find_entry_sound no_entries name v h = cc
  find_entry_sound (entries e es) name v h = elim (find_entry-cases e es name v h) [
    | inl (typed, named) ↦ (e, inl refl, (is_named_iff name e).0 named, typed)
    | inr later ↦
        let (x, child, same, typed) = find_entry_sound es name v later in
        (x, inr child, same, typed)
  ]

  -- A child is found by its name.
  find_entry_complete :
      (es : Entries) (name : List ℕ) (v : T) (e : Entry)
      → Unique es
      → Child e es
      → SameName name (name_of e)
      → as_type e ≡ some v
      → find_entry as_type es name ≡ some v
  unfolding find_entry
  find_entry_complete no_entries name v e u c same typed = absurd c
  find_entry_complete (entries x xs) name v e u (inl here) same typed =
      find_entry_hit x xs name v (ap as_type (sym here) ∙ typed)
        ((is_named_iff name x).1 (same ∙ ap (λ y. folded (encode_utf16 (name_of y))) here))
  find_entry_complete (entries x xs) name v e (u, us) (inr later) same typed =
      elim (Bool-cases (is_named name x)) [
        | inl named ↦ absurd (u e later (sym ((is_named_iff name x).0 named) ∙ same))
        | inr other ↦
            find_entry_skip x xs name other ∙ find_entry_complete xs name v e us later same typed
      ]

  find_entry_iff :
      (make : T → Entry)
      → ((v : T) → as_type (make v) ≡ some v)
      → ((e : Entry) (v : T) → as_type e ≡ some v → e ≡ make v)
      → (es : Entries) (name : List ℕ) (v : T) → Unique es
      → (find_entry as_type es name ≡ some v)
        ↔ (Child (make v) es × SameName name (name_of (make v)))
  find_entry_iff make typed only es name v u = (
    λ h.
        let (e, child, same, is) = find_entry_sound es name v h in
        let made = only e v is in
        (subst (λ x. Child x es) made child, subst (λ x. SameName name (name_of x)) made same),
    λ (child, same). find_entry_complete es name v (make v) u child same (typed v),
  )

abbrev make_stream : StreamInfo × List Run → Entry
make_stream s = stream s.0 s.1

abbrev make_storage : StorageInfo × Entries → Entry
make_storage d = storage d.0 d.1

as_stream_only : (e : Entry) (v : StreamInfo × List Run) → as_stream e ≡ some v → e ≡ make_stream v
unfolding as_stream
as_stream_only (stream info runs) v h = cc
as_stream_only (storage info es) v h = cc

as_storage_only :
    (e : Entry) (v : StorageInfo × Entries) → as_storage e ≡ some v → e ≡ make_storage v
unfolding as_storage
as_storage_only (stream info runs) v h = cc
as_storage_only (storage info es) v h = cc

-- In a storage whose entries have different names up to case, OpenStream returns a stream just if it
-- is an entry of that name up to case, and OpenStorage a storage.
pub open_iff :
    (es : Entries) (name : List ℕ) (s : StreamInfo × List Run) (d : StorageInfo × Entries)
    → Unique es
    → ((open_stream es name ≡ ok s) ↔ (Child (stream s.0 s.1) es × SameName name s.0.name))
      × ((open_storage es name ≡ ok d) ↔ (Child (storage d.0 d.1) es × SameName name d.0.name))
unfolding open_stream open_storage as_stream as_storage name_of
open_iff es name s d u = (
  ground (arith, find_entry_iff as_stream make_stream (λ v. refl) as_stream_only es name s u),
  ground (arith, find_entry_iff as_storage make_storage (λ v. refl) as_storage_only es name d u),
)

-- ===== src/Reader/Directory/Total.antt =====
-- parseEntries ends, and an entry of a type that has a Storage or a Stream has one.
use go_cfb.Base.{
  ℕ, zero, suc, ◌+◌, ◌-◌, ◌*◌, ◌/◌, ◌%◌, ◌^◌, ◌≤◌, ◌<◌, ◌≡◌, ◌⊎◌, inl, inr, refl, ap, not, ◌&&◌,
  ◌||◌, List, [], ◌∷◌, ◌++◌, ◌==◌, ltb, false, arith, length, length-drop, take, drop, get_or,
  Bool-cases,
}
use go_cfb.Base.Total.{Ends, value, error, Any, Ends->>=, Ends-fail_if, Ends-if}
use go_cfb.Bytes.{get_u8, get_u16, get_u32, get_u64, get_sub, get_u16s}
use go_cfb.Bytes.Total.{
  Takes, Takes->>=, Takes-return, Takes-get_u8, Takes-get_u16, Takes-get_u32, Takes-get_u64,
  Takes-get_sub, Takes-get_u16s,
}
use go_cfb.Format.{
  direntry_size, name_max_units, mini_stream_cutoff, stream_size_max_v3, object_unallocated,
  object_storage, object_stream, object_root,
}
use go_cfb.Name.{contains_any}
use go_cfb.Name.Utf16.{decode_utf16}
use go_cfb.Reader.Chain.Walk.{Ends-walk_chain}
use go_cfb.Reader.Entry.{
  RawEntry, a_storage, a_stream, StorageInfo, StreamInfo, entry_name, object_of, entry_of,
  parse_entry,
}
use go_cfb.Reader.Entry.Fields.{EntryFields, get_entry}
use go_cfb.Reader.Errors.{name_length, name_end, name_text, dir_size}
use go_cfb.Reader.Sectors.Total.{Fills, Ends-read_sectors}
use go_cfb.Reader.Stream.{ReaderAt}
use go_cfb.Reader.Directory.{
  Tables, capacity, check_size, parse_buffer, parse_batches, check_root, parse_entries,
}

Takes-get_entry : Takes 128 get_entry
unfolding get_entry
Takes-get_entry = Takes->>= 64 64 (get_u16s name_max_units) _ (Takes-get_u16s 32) (λ units.
    Takes->>= 2 62 get_u16 _ Takes-get_u16 (λ name_len.
      Takes->>= 1 61 get_u8 _ Takes-get_u8 (λ object_type.
        Takes->>= 1 60 get_u8 _ Takes-get_u8 (λ color.
          Takes->>= 4 56 get_u32 _ Takes-get_u32 (λ left_sib.
            Takes->>= 4 52 get_u32 _ Takes-get_u32 (λ right_sib.
              Takes->>= 4 48 get_u32 _ Takes-get_u32 (λ child_id.
                Takes->>= 16 32 (get_sub 16) _ (Takes-get_sub 16) (λ clsid.
                  Takes->>= 4 28 get_u32 _ Takes-get_u32 (λ state_bits.
                    Takes->>= 8 20 get_u64 _ Takes-get_u64 (λ created.
                      Takes->>= 8 12 get_u64 _ Takes-get_u64 (λ modified.
                        Takes->>= 4 8 get_u32 _ Takes-get_u32 (λ start.
                          Takes->>= 8 0 get_u64 _ Takes-get_u64 (λ size. Takes-return _)))))))))))))

-- An entry has what its type promises.
pub record HasObject (e : RawEntry) : Type 0 where
  pub storages :
      (e.object_type ≡ object_storage) ⊎ (e.object_type ≡ object_root)
      → (info : StorageInfo) × (e.object ≡ a_storage info)
  pub streams : e.object_type ≡ object_stream → (info : StreamInfo) × (e.object ≡ a_stream info)

-- An entry that the walk of the tree can meet, with a stream no larger than a FAT can hold.
pub record IsTyped (e : RawEntry) : Type 0 where
  pub has : HasObject e
  pub held : e.object_type ≡ object_stream → e.stream_size ≤ 2 ^ 54

Ends-entry_name : (f : EntryFields) → Ends Any (entry_name f)
unfolding entry_name
Ends-entry_name f =
    Ends-fail_if
      (ltb f.name_len 4 || not (f.name_len % 2 == 0) || ltb (2 * name_max_units) f.name_len)
      name_length
      (λ _. Ends-fail_if (not (get_or f.units (f.name_len / 2 - 1) 0 == 0)) name_end (λ _.
        Ends-fail_if (contains_any (decode_utf16 (take (f.name_len / 2 - 1) f.units))) name_text
          (λ _. value tt)))

object_of_storage :
    (size : ℕ) (f : EntryFields) (name : List ℕ)
    → (f.object_type ≡ object_storage) ⊎ (f.object_type ≡ object_root)
    → (info : StorageInfo) × (object_of size f name ≡ a_storage info)
unfolding object_of
object_of_storage size f name (inl e) = rw e (_, refl)
object_of_storage size f name (inr e) = rw e (_, refl)

object_of_stream :
    (size : ℕ) (f : EntryFields) (name : List ℕ)
    → f.object_type ≡ object_stream
    → (info : StreamInfo) × (object_of size f name ≡ a_stream info)
unfolding object_of
object_of_stream size f name e = rw e (_, refl)

Ends-entry_of : (major : ℕ) (f : EntryFields) → Ends HasObject (entry_of major f)
unfolding entry_of
Ends-entry_of major f = elim (Bool-cases (f.object_type == object_unallocated)) [
  | inl free ↦
      rw free
        (value (record { storages = object_of_storage _ f []; streams = object_of_stream _ f [] }))
  | inr used ↦ rw used (
      Ends->>= (Ends-entry_name f) (λ name _.
        value
          (record { storages = object_of_storage _ f name; streams = object_of_stream _ f name })))
]

Ends-parse_entry :
    (buf : List ℕ) (major : ℕ) → 128 ≤ length buf → Ends HasObject (parse_entry buf major)
unfolding parse_entry
Ends-parse_entry buf major long =
    let (f, rest, e, used) = Takes-get_entry buf long in rw (e, parse_entry) (Ends-entry_of major f)

-- What the FAT of the parser can hold.
abbrev pub Holdable : Tables → Type 0
Holdable t = length t.fat * t.sec_size ≤ 2 ^ 54

Ends-check_size :
    (t : Tables) (e : RawEntry) → Holdable t → HasObject e → Ends IsTyped (check_size t e)
unfolding check_size
Ends-check_size t e holds has = elim (Bool-cases (e.object_type == object_stream)) [
  | inr other ↦
      rw (other, check_size)
        (value (record { has = has; held = λ is. absurd (false_stream is other) }))
  | inl is ↦
      rw (is, check_size)
        (Ends-if
          (ltb (2 ^ 63 - 1) e.stream_size || (t.major == 3 && ltb stream_size_max_v3 e.stream_size))
          error
          (elim (Bool-cases (ltb (capacity t e.stream_size) e.stream_size)) [
            | inl beyond ↦ rw beyond error
            | inr within ↦ rw within (value (record { has = has; held = λ _. bound within }))
          ]))
]
  where
    false_stream : e.object_type ≡ object_stream → (e.object_type == object_stream) ≡ false → ⊥
    false_stream is other = ground (arith, is, other)

    bound : ltb (capacity t e.stream_size) e.stream_size ≡ false → e.stream_size ≤ 2 ^ 54
    bound within = elim (Bool-cases (ltb e.stream_size mini_stream_cutoff)) [
      | inl small ↦ ground (arith, small)
      | inr large ↦
          let cap : ltb (length t.fat * t.sec_size % 2 ^ 64) e.stream_size ≡ false =
            rw large at within in
          ground (arith, cap, holds)
    ]

abbrev pub AllTyped : List RawEntry → Type 0
AllTyped [] = Unit
AllTyped (e ∷ es) = IsTyped e × AllTyped es

AllTyped-append : (xs ys : List RawEntry) → AllTyped xs → AllTyped ys → AllTyped (xs ++ ys)
AllTyped-append [] ys a b = b
AllTyped-append (x ∷ xs) ys (p, a) b = (p, AllTyped-append xs ys a b)

Ends-parse_buffer :
    (t : Tables) (holds : Holdable t) (n : ℕ) (buf : List ℕ)
    → n * 128 ≤ length buf
    → Ends AllTyped (parse_buffer t n buf)
unfolding parse_buffer
Ends-parse_buffer t holds zero buf long = value tt
Ends-parse_buffer t holds (suc n) buf long =
    Ends->>= (Ends-parse_entry buf t.major (omega arith)) (λ parsed p.
      Ends->>= (Ends-check_size t parsed holds p) (λ e q.
        Ends->>=
          (Ends-parse_buffer t holds n (drop direntry_size buf)
            (omega (arith, length-drop direntry_size buf)))
          (λ rest qs. value (q, qs))))

module _ (r : ReaderAt) (fills : Fills r) (t : Tables) (some_batch : 0 < t.batch)
    (sized : t.sec_size % 128 ≡ 0) (holds : Holdable t) where
  whole :
      (buf : List ℕ) (n : ℕ)
      → length buf ≡ n * t.sec_size
      → (length buf + 127) / 128 * 128 ≤ length buf
  whole buf n e =
      let k : t.sec_size ≡ t.sec_size / 128 * 128 = omega (arith, sized) in
      omega (arith, e, ap (λ (x : ℕ). n * x) k)

  Ends-parse_batches :
      (fuel : ℕ) (ss : List ℕ) → length ss ≤ fuel → Ends AllTyped (parse_batches r t fuel ss)
  unfolding parse_batches
  Ends-parse_batches fuel [] enough = value tt
  Ends-parse_batches zero (s ∷ ss) enough = absurd (omega arith)
  Ends-parse_batches (suc fuel) (s ∷ ss) enough =
      Ends->>= (Ends-read_sectors r fills t.sec_size (take t.batch (s ∷ ss))) (λ buf e.
        Ends->>=
          (Ends-parse_buffer t holds ((length buf + 127) / 128) buf
            (whole buf (length (take t.batch (s ∷ ss))) e))
          (λ es p.
            Ends->>=
              (Ends-parse_batches fuel (drop t.batch (s ∷ ss))
                (omega (arith, length-drop t.batch (s ∷ ss))))
              (λ rest q. value (AllTyped-append es rest p q))))

-- A directory with a root in front.
pub record IsDirectory (raw : List RawEntry) : Type 0 where
  pub typed : AllTyped raw
  pub root : RawEntry
  pub others : List RawEntry
  pub first : raw ≡ root ∷ others
  pub rooted : root.object_type ≡ object_root

Ends-check_root : (raw : List RawEntry) → AllTyped raw → Ends IsDirectory (check_root raw)
unfolding check_root
Ends-check_root [] p = error
Ends-check_root (e ∷ es) p = elim (Bool-cases (e.object_type == object_root)) [
  | inl r ↦ rw r (
      value (record { typed = p; root = e; others = es; first = refl; rooted = ground (arith, r) }))
  | inr other ↦ rw other error
]

module _ (r : ReaderAt) (fills : Fills r) (t : Tables) (some_batch : 0 < t.batch)
    (sized : t.sec_size % 128 ≡ 0) (holds : Holdable t) where
  pub Ends-parse_entries :
      (first num : ℕ) → num ≤ 2 ^ 46 → Ends IsDirectory (parse_entries r t first num)
  unfolding parse_entries
  Ends-parse_entries first num fits = Ends->>= (Ends-walk_chain t.fat first num fits) (λ chain _.
      Ends-fail_if (not (length chain * t.sec_size % direntry_size == 0)) dir_size (λ _.
        Ends->>=
          (Ends-parse_batches r fills t some_batch sized holds (length chain) chain (omega arith))
          (λ es p. Ends-check_root es p)))

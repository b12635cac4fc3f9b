-- ===== src/Writer/Direntry/Parse.antt =====
-- The parser reads back the directory entries that the writer writes.
use go_cfb.Base.{
  ℕ, zero, suc, ◌+◌, ◌-◌, ◌*◌, ◌%◌, ◌^◌, ◌≤◌, ◌<◌, ◌≡◌, refl, sym, ap, ◌∙◌, List, [], ◌∷◌, ◌++◌,
  map, some, arith, ◌==◌, ◌||◌, if◌then◌else◌, replicate, length, length-append, length-replicate,
}
use mathlib.Core.Path.{ap₂}
use mathlib.Core.List.{append_assoc, map-append}
use go_cfb.Bytes.{put_u16, put_u16s}
use go_cfb.Bytes.Laws.{round_trips, bind-put_u16s, bind-put_sub}
use go_cfb.Format.{name_max_units, object_storage, object_stream, object_root}
use go_cfb.Reader.Entry.Fields.{EntryFields, get_entry}
use go_cfb.FileTime as F
use go_cfb.Reader.Entry.{RawEntry, Object, no_object, a_storage, a_stream}
use go_cfb.Writer.Direntry.{Direntry, entry_bytes}

-- The name field: the name and zeros behind it.
abbrev pub padded : List ℕ → List ℕ
padded name = name ++ replicate (name_max_units - length name) 0

zero_units : (n : ℕ) → replicate (2 * n) 0 ≡ put_u16s (replicate n 0)
unfolding put_u16s put_u16
zero_units zero = refl
zero_units (suc n) =
    let e : 2 * suc n ≡ suc (suc (2 * n)) = omega arith in
    rw e (ap (λ xs. 0 ∷ 0 ∷ xs) (zero_units n))

put_u16s-append : (xs ys : List ℕ) → put_u16s (xs ++ ys) ≡ put_u16s xs ++ put_u16s ys
unfolding put_u16s
put_u16s-append [] ys = refl
put_u16s-append (x ∷ xs) ys =
    ap (λ zs. put_u16 x ++ zs) (put_u16s-append xs ys)
    ∙ sym (append_assoc (put_u16 x) (put_u16s xs) (put_u16s ys))

-- The fields of the entry fit their widths.
pub record IsEntry (de : Direntry) : Type 0 where
  pub name_fits : length de.name ≤ name_max_units - 1
  pub units : map (λ v. v % 65536) de.name ≡ de.name
  pub clsid : length de.clsid ≡ 16
  pub state_bits : de.state_bits < 2 ^ 32
  pub created : de.created < 2 ^ 64
  pub modified : de.modified < 2 ^ 64
  pub size : de.size < 2 ^ 64
  pub object_type : de.object_type < 256
  pub left_sib : de.left_sib < 2 ^ 32
  pub right_sib : de.right_sib < 2 ^ 32
  pub child_id : de.child_id < 2 ^ 32
  pub start_sec : de.start_sec < 2 ^ 32

abbrev pub fields_of : Direntry → EntryFields
fields_of de = record {
  units = padded de.name;
  name_len = (length de.name + 1) * 2;
  object_type = de.object_type;
  left_sib = de.left_sib;
  right_sib = de.right_sib;
  child_id = de.child_id;
  clsid = de.clsid;
  state_bits = de.state_bits;
  created = de.created;
  modified = de.modified;
  start_sector = de.start_sec;
  stream_size = de.size;
}

name_field :
    (name rest : List ℕ)
    → put_u16s name ++ (replicate (2 * (name_max_units - length name)) 0 ++ rest)
      ≡ put_u16s (padded name) ++ rest
name_field name rest =
    sym (append_assoc (put_u16s name) (replicate (2 * (name_max_units - length name)) 0) rest)
    ∙ ap (λ xs. xs ++ rest)
        (ap (λ xs. put_u16s name ++ xs) (zero_units (name_max_units - length name))
          ∙ sym (put_u16s-append name _))

length-padded :
    (name : List ℕ) → length name ≤ name_max_units → length (padded name) ≡ name_max_units
length-padded name h = omega (
  arith,
  length-append name (replicate (name_max_units - length name) 0),
  length-replicate {A = ℕ} (name_max_units - length name) 0,
)

map-zeros : (n : ℕ) → map (λ v. v % 65536) (replicate n 0) ≡ replicate n 0
map-zeros zero = refl
map-zeros (suc n) = ap (λ xs. 0 ∷ xs) (map-zeros n)

map-padded :
    (name : List ℕ)
    → map (λ v. v % 65536) name ≡ name
    → map (λ v. v % 65536) (padded name) ≡ padded name
map-padded name h =
    map-append _ name _ ∙ ap₂ (λ xs ys. xs ++ ys) h (map-zeros (name_max_units - length name))

pub get_entry-entry_bytes :
    (de : Direntry) (r : List ℕ)
    → IsEntry de
    → get_entry (entry_bytes de ++ r) ≡ some (fields_of de, r)
unfolding get_entry entry_bytes
get_entry-entry_bytes de r v =
    simp
      (
        round_trips,
        name_field,
        bind-put_u16s 32 (padded de.name),
        bind-put_sub 16 de.clsid,
        length-padded de.name (omega (arith, v.name_fits)),
        v.clsid,
        map-padded de.name v.units,
      )
      (ground (arith, v.clsid))

-- The Storage or the Stream that an entry stands for: a storage and the root have a name, a class,
-- state bits and two times, and a stream a name, state bits and a size.
abbrev pub object_read : Direntry → List ℕ → Object
object_read de name =
    if de.object_type == object_storage || de.object_type == object_root
    then a_storage (record {
      name = name;
      clsid = de.clsid;
      state_bits = de.state_bits;
      created = F.decode de.created;
      modified = F.decode de.modified;
    })
    else if de.object_type == object_stream
    then a_stream (record { name = name; state_bits = de.state_bits; size = de.size })
    else no_object

-- The entry as the parser has it.
abbrev pub read_back : Direntry → List ℕ → RawEntry
read_back de name = record {
  object = object_read de name;
  object_type = de.object_type;
  left_sib = de.left_sib;
  right_sib = de.right_sib;
  child_id = de.child_id;
  start_sector = de.start_sec;
  stream_size = de.size;
}

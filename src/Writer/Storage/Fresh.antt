-- ===== src/Writer/Storage/Fresh.antt =====
-- The children of a storage have different names.
use go_cfb.Base.{
  ℕ, suc, ◌+◌, Bool, ◌≡◌, ◌≢◌, ◌↔◌, ◌⊎◌, inl, inr, refl, sym, ap, ◌∙◌, true, false, List, [], ◌∷◌,
  ◌++◌, Result, ok, ◌>>=◌, arith, >>=-eq-ok, ok-injective,
}
use mathlib.Core.Path.{subst}
use mathlib.Core.List.{append_assoc, append-nil}
use go_cfb.Name.Order.{folded, compare_names-zero}
use go_cfb.Name.Valid.{IsEncoded, encode_name_iff}
use go_cfb.Writer.Storage.{
  CreateError, StorageWriter, same_name, has_name, valid_name, validate_child_name, with_stream,
  with_storage, create_stream, create_storage,
}

-- No name of the list has the uppercase form of `enc`.
abbrev pub Apart : List ℕ → List (List ℕ) → Type 0
Apart enc [] = Unit
Apart enc (c ∷ cs) = (folded enc ≢ folded c) × Apart enc cs

abbrev pub Distinct : List (List ℕ) → Type 0
Distinct [] = Unit
Distinct (c ∷ cs) = Apart c cs × Distinct cs

same_name_iff : (enc c : List ℕ) → (same_name enc c ≡ true) ↔ (folded enc ≡ folded c)
unfolding same_name
same_name_iff enc c = ground (arith, compare_names-zero enc c)

has_name-Apart : (enc : List ℕ) (cs : List (List ℕ)) → (has_name enc cs ≡ false) ↔ Apart enc cs
unfolding has_name
has_name-Apart enc [] = (λ e. tt, λ a. refl)
has_name-Apart enc (c ∷ cs) = ground (arith, same_name_iff enc c, has_name-Apart enc cs)

valid_name_iff : (name enc : List ℕ) → (valid_name name ≡ ok enc) ↔ IsEncoded name enc
unfolding valid_name
valid_name_iff name enc = ground (arith, encode_name_iff name enc)

validate_child_name_iff :
    (sw : StorageWriter) (name enc : List ℕ)
    → (validate_child_name sw name ≡ ok enc)
      ↔ ((sw.closed ≡ false) × IsEncoded name enc × Apart enc sw.storages × Apart enc sw.streams)
unfolding validate_child_name
validate_child_name_iff sw name enc =
    ground (
      arith,
      valid_name_iff name enc,
      has_name-Apart enc sw.storages,
      has_name-Apart enc sw.streams,
    )

-- A name that is apart from the children can stand at any place among them.
Distinct-insert :
    (enc : List ℕ) (xs ys : List (List ℕ))
    → Distinct (xs ++ ys)
    → Apart enc xs
    → Apart enc ys
    → Distinct (xs ++ (enc ∷ ys))
Distinct-insert enc [] ys d a b = (b, d)
Distinct-insert enc (x ∷ xs) ys (c, d) (ne, a) b =
    (Apart-insert x enc xs ys (λ e. ne (sym e)) c, Distinct-insert enc xs ys d a b)
  where
    Apart-insert :
        (x enc : List ℕ) (xs ys : List (List ℕ))
        → folded x ≢ folded enc
        → Apart x (xs ++ ys)
        → Apart x (xs ++ (enc ∷ ys))
    Apart-insert x enc [] ys ne c = (ne, c)
    Apart-insert x enc (z ∷ zs) ys ne (p, c) = (p, Apart-insert x enc zs ys ne c)

Apart-append :
    (enc : List ℕ) (xs ys : List (List ℕ)) → Apart enc xs → Apart enc ys → Apart enc (xs ++ ys)
Apart-append enc [] ys a b = b
Apart-append enc (x ∷ xs) ys (ne, a) b = (ne, Apart-append enc xs ys a b)

-- What both calls require of a name.
pub record IsFresh (sw : StorageWriter) (name enc : List ℕ) : Type 0 where
  pub opened : sw.closed ≡ false
  pub encoded : IsEncoded name enc
  pub storages : Apart enc sw.storages
  pub streams : Apart enc sw.streams

-- The part that both calls share.
abbrev finish : (List ℕ → StorageWriter) → List ℕ → Result CreateError (StorageWriter × List ℕ)
finish f e = ok (f e, e)

create_with_iff :
    (f : List ℕ → StorageWriter) (sw sw' : StorageWriter) (name enc : List ℕ)
    → ((validate_child_name sw name >>= finish f) ≡ ok (sw', enc))
      ↔ (IsFresh sw name enc × (sw' ≡ f enc))
create_with_iff f sw sw' name enc = (there, back)
  where
    there :
        (validate_child_name sw name >>= finish f) ≡ ok (sw', enc)
        → IsFresh sw name enc × (sw' ≡ f enc)
    there h =
        let (e, valid, same) = >>=-eq-ok (validate_child_name sw name) (finish f) h in
        let pair : (f e, e) ≡ (sw', enc) = ok-injective same in
        let named : e ≡ enc = ap (λ q. q.1) pair in
        let (opened, encoded, storages, streams) =
          (validate_child_name_iff sw name enc).0 (valid ∙ ap (λ x. ok x) named) in
        (
          record { opened = opened; encoded = encoded; storages = storages; streams = streams },
          sym (ap (λ q. q.0) pair) ∙ ap f named,
        )

    back :
        IsFresh sw name enc × (sw' ≡ f enc)
        → (validate_child_name sw name >>= finish f) ≡ ok (sw', enc)
    back (v, e) =
        rw ((validate_child_name_iff sw name enc).1 (v.opened, v.encoded, v.storages, v.streams))
          (ap (λ x. ok (x, enc)) (sym e))

create_stream_lem :
    (sw sw' : StorageWriter) (name enc : List ℕ)
    → (create_stream sw name ≡ ok (sw', enc)) ↔ (IsFresh sw name enc × (sw' ≡ with_stream sw enc))
unfolding create_stream
create_stream_lem sw sw' name enc = create_with_iff (with_stream sw) sw sw' name enc

create_storage_lem :
    (sw sw' : StorageWriter) (name enc : List ℕ)
    → (create_storage sw name ≡ ok (sw', enc)) ↔ (IsFresh sw name enc × (sw' ≡ with_storage sw enc))
unfolding create_storage
create_storage_lem sw sw' name enc = create_with_iff (with_storage sw) sw sw' name enc

-- The storage writer after a call that adds to its children: `storages` and `streams` are those that
-- it then has, and the entry is counted.
pub record Adds (sw sw' : StorageWriter) (storages streams : List (List ℕ)) : Type 0 where
  pub closed : sw'.closed ≡ sw.closed
  pub counted : sw'.descendants ≡ suc sw.descendants
  pub to_storages : sw'.storages ≡ storages
  pub to_streams : sw'.streams ≡ streams

StorageWriter-ext :
    {c c' : Bool} {d d' : ℕ} {st st' ss ss' : List (List ℕ)}
    → c ≡ c'
    → d ≡ d'
    → st ≡ st'
    → ss ≡ ss'
    → ◌≡◌ {A = StorageWriter}
        (record { closed = c; descendants = d; storages = st; streams = ss })
        (record { closed = c'; descendants = d'; storages = st'; streams = ss' })
StorageWriter-ext e f g h = rw (e, f, g, h) refl

one_more : (n : ℕ) → n + 1 ≡ suc n
one_more n = omega arith

with_stream-Adds :
    (sw sw' : StorageWriter) (enc : List ℕ)
    → (sw' ≡ with_stream sw enc) ↔ Adds sw sw' sw.storages (sw.streams ++ (enc ∷ []))
with_stream-Adds sw sw' enc = (
  λ e. record {
    closed = ap (λ (w : StorageWriter). w.closed) e;
    counted = ap (λ (w : StorageWriter). w.descendants) e ∙ one_more sw.descendants;
    to_storages = ap (λ (w : StorageWriter). w.storages) e;
    to_streams = ap (λ (w : StorageWriter). w.streams) e;
  },
  λ a.
      StorageWriter-ext a.closed (a.counted ∙ sym (one_more sw.descendants)) a.to_storages
        a.to_streams,
)

with_storage-Adds :
    (sw sw' : StorageWriter) (enc : List ℕ)
    → (sw' ≡ with_storage sw enc) ↔ Adds sw sw' (sw.storages ++ (enc ∷ [])) sw.streams
with_storage-Adds sw sw' enc = (
  λ e. record {
    closed = ap (λ (w : StorageWriter). w.closed) e;
    counted = ap (λ (w : StorageWriter). w.descendants) e ∙ one_more sw.descendants;
    to_storages = ap (λ (w : StorageWriter). w.storages) e;
    to_streams = ap (λ (w : StorageWriter). w.streams) e;
  },
  λ a.
      StorageWriter-ext a.closed (a.counted ∙ sym (one_more sw.descendants)) a.to_storages
        a.to_streams,
)

-- CreateStream and CreateStorage succeed just for a name on an open writer that has a rune, has none
-- of the forbidden ones and at most 31 code units, and that no child has up to case. The name then
-- stands behind the streams, or behind the storages, one more entry is counted, and nothing else of
-- the storage writer is changed.
pub create_iff :
    (sw sw' : StorageWriter) (name enc : List ℕ)
    → ((create_stream sw name ≡ ok (sw', enc))
        ↔ (IsFresh sw name enc × Adds sw sw' sw.storages (sw.streams ++ (enc ∷ []))))
      × ((create_storage sw name ≡ ok (sw', enc))
          ↔ (IsFresh sw name enc × Adds sw sw' (sw.storages ++ (enc ∷ [])) sw.streams))
create_iff sw sw' name enc =
    let s = create_stream_lem sw sw' name enc in
    let t = create_storage_lem sw sw' name enc in
    let a = with_stream-Adds sw sw' enc in
    let b = with_storage-Adds sw sw' enc in
    (
      (λ h. let (fresh, e) = s.0 h in (fresh, a.0 e), λ (fresh, e). s.1 (fresh, a.1 e)),
      (λ h. let (fresh, e) = t.0 h in (fresh, b.0 e), λ (fresh, e). t.1 (fresh, b.1 e)),
    )

-- The names of the children stay different, up to case.
pub create-Distinct :
    (sw sw' : StorageWriter) (name enc : List ℕ)
    → Distinct (sw.storages ++ sw.streams)
    → (create_stream sw name ≡ ok (sw', enc)) ⊎ (create_storage sw name ≡ ok (sw', enc))
    → Distinct (sw'.storages ++ sw'.streams)
create-Distinct sw sw' name enc d (inl h) =
    let (v, e) = (create_stream_lem sw sw' name enc).0 h in
    rw e (
      subst Distinct (append_assoc sw.storages sw.streams (enc ∷ [])) (
        Distinct-insert enc (sw.storages ++ sw.streams) []
          (rw (append-nil (sw.storages ++ sw.streams)) d)
          (Apart-append enc sw.storages sw.streams v.storages v.streams) tt))
create-Distinct sw sw' name enc d (inr h) =
    let (v, e) = (create_storage_lem sw sw' name enc).0 h in
    rw (e, append_assoc sw.storages (enc ∷ []) sw.streams)
      (Distinct-insert enc sw.storages sw.streams d v.storages v.streams)

-- ===== src/Fs/Paths.antt =====
-- What Open finds.
use go_cfb.Base.{
  ℕ, suc, ◌+◌, ◌≡◌, ◌≢◌, ◌↔◌, ◌⊎◌, refl, sym, ap, ◌∙◌, true, false, List, [], ◌∷◌, ◌++◌, Option,
  none, some, Result, ok, err, arith, inl, inr, Bool-cases, ==_iff, Option-cases, ◌==◌, take, drop,
}
use go_cfb.Fs.{
  FsError, invalid, not_exist, slash, prepend, elements, is_dot, is_empty, valid_elements,
  valid_path, last_slash, split_path, Handle, dir_handle, handle_of, descend, open_base, open_path,
}
use go_cfb.Reader.Entry.{StorageInfo}
use go_cfb.Reader.Lookup.{Entry, Entries, as_storage, find_entry}

-- The directories `ds` lead from the storage with the entries `es` to the entry `e` of the name `b`:
-- each of them is a storage that findEntry finds in the one before, and `e` what it finds in the last.
pub data Leads : Entries → List (List ℕ) → List ℕ → Entry → Type 0 where
  here :
      {es : Entries} {b : List ℕ} {e : Entry}
      → find_entry (λ x. some x) es b ≡ some e
      → Leads es [] b e
  within :
      {es : Entries} {sub : StorageInfo × Entries} {d : List ℕ} {ds : List (List ℕ)} {b : List ℕ}
      {e : Entry}
      → find_entry as_storage es d ≡ some sub
      → Leads (sub.1) ds b e
      → Leads es (d ∷ ds) b e

snoc-injective :
    {A : Type 0} (xs ys : List A) {a b : A} → xs ++ (a ∷ []) ≡ ys ++ (b ∷ []) → (xs ≡ ys) × (a ≡ b)
snoc-injective [] [] h = (refl, cc)
snoc-injective [] (y ∷ []) h = cc
snoc-injective [] (y ∷ z ∷ ys) h = cc
snoc-injective (x ∷ []) [] h = cc
snoc-injective (x ∷ z ∷ xs) [] h = cc
snoc-injective {A} (x ∷ xs) (y ∷ ys) {a} {b} h =
    let head : x ≡ y = cc in
    let tail : xs ++ (a ∷ []) ≡ ys ++ (b ∷ []) = cc in
    let (same, last) = snoc-injective xs ys tail in (cc, last)

-- A path has an element.
elements_cons : (d : List ℕ) → (e : List ℕ) × (es : List (List ℕ)) × (elements d ≡ e ∷ es)
unfolding elements prepend
elements_cons [] = ([], [], refl)
elements_cons (c ∷ d) =
    let (e, es, q) = elements_cons d in
    elim (Bool-cases (c == slash)) [
      | inl s ↦ ([], elements d, rw s refl)
      | inr s ↦ (c ∷ e, es, rw (s, q) refl)
    ]

prepend-append :
    (c : ℕ) (d : List ℕ) (b : List (List ℕ))
    → prepend c (elements d ++ b) ≡ prepend c (elements d) ++ b
unfolding prepend
prepend-append c d b = let (e, es, q) = elements_cons d in rw q refl

-- The elements of a path that is a directory and a base name.
elements-append :
    (d b : List ℕ) → elements b ≡ b ∷ [] → elements (d ++ slash ∷ b) ≡ elements d ++ (b ∷ [])
unfolding elements
elements-append [] b e = ap (λ es. [] ∷ es) e
elements-append (c ∷ d) b e = elim (Bool-cases (c == slash)) [
  | inl s ↦ rw s (ap (λ es. [] ∷ es) (elements-append d b e))
  | inr s ↦ rw s (ap (prepend c) (elements-append d b e) ∙ prepend-append c d (b ∷ []))
]

last_slash-cases :
    (p : List ℕ)
    → ((last_slash p ≡ none) × (elements p ≡ p ∷ []))
      ⊎ ((i : ℕ) × (last_slash p ≡ some i)
          × (p ≡ take i p ++ slash ∷ drop (suc i) p)
          × (elements (drop (suc i) p) ≡ drop (suc i) p ∷ []))
unfolding last_slash elements prepend
last_slash-cases [] = inl (refl, refl)
last_slash-cases (c ∷ cs) = elim (last_slash-cases cs) [
  | inl (e, f) ↦ elim (Bool-cases (c == slash)) [
    | inl s ↦ inr (0, rw (e, s) refl, ap (λ x. x ∷ cs) ((==_iff c slash).0 s), f)
    | inr s ↦ inl (rw (e, s) refl, rw (s, f) refl)
  ]
  | inr (i, e, f, g) ↦ inr (suc i, rw e refl, ap (λ x. c ∷ x) f, g)
]

-- The directory and the base name of a path that does not begin with a slash.
split_path-cases :
    (p : List ℕ)
    → ((split_path p ≡ ([], p)) × (elements p ≡ p ∷ []))
      ⊎ ((d : List ℕ) × (b : List ℕ) × (split_path p ≡ (d, b))
          × (elements p ≡ elements d ++ (b ∷ []))
          × (p ≡ d ++ slash ∷ b))
unfolding split_path
split_path-cases p = elim (last_slash-cases p) [
  | inl (e, f) ↦ inl (rw (e, split_path) refl, f)
  | inr (i, e, f, g) ↦
      let one : i + 1 ≡ suc i = omega arith in
      inr (
        take i p,
        drop (suc i) p,
        rw (e, one, split_path) refl,
        ap elements f ∙ elements-append (take i p) (drop (suc i) p) g,
        f,
      )
]

-- The loop of Open, and the lookup behind it.
err≢ok : {e : FsError} {h : Handle} → ◌≢◌ {A = Result FsError Handle} (err e) (ok h)
err≢ok h = cc

ok-injective : {a b : Handle} → ◌≡◌ {A = Result FsError Handle} (ok a) (ok b) → a ≡ b
ok-injective h = cc

follow_sound :
    (es : Entries) (ds : List (List ℕ)) (b : List ℕ) (h : Handle)
    → open_base b (descend es ds) ≡ ok h
    → (e : Entry) × Leads es ds b e × (handle_of e ≡ h)
unfolding descend open_base
follow_sound es [] b h opened = elim (Option-cases (find_entry (λ x. some x) es b)) [
  | inl e ↦ absurd (err≢ok (rw (e, open_base) at opened))
  | inr (x, e) ↦ (x, here e, ok-injective (rw (e, open_base) at opened))
]
follow_sound es (d ∷ ds) b h opened = elim (Option-cases (find_entry as_storage es d)) [
  | inl e ↦ absurd (err≢ok (rw (e, descend) at opened))
  | inr (sub, e) ↦
      let (x, leads, same) = follow_sound (sub.1) ds b h (rw (e, descend) at opened) in
      (x, within e leads, same)
]

follow_complete :
    (es : Entries) (ds : List (List ℕ)) (b : List ℕ) (e : Entry)
    → Leads es ds b e
    → open_base b (descend es ds) ≡ ok (handle_of e)
unfolding descend open_base
follow_complete es [] b e (here f) = rw (f, open_base) refl
follow_complete es (d ∷ ds) b e (within f l) = rw (f, descend) (follow_complete _ ds b e l)

leading_slash : (d b : List ℕ) → is_empty d ≡ true → ◌≢◌ (valid_path (d ++ slash ∷ b)) true
unfolding valid_path valid_elements elements is_dot
leading_slash [] [] e h = cc
leading_slash [] (x ∷ b) e h = cc
leading_slash (c ∷ d) b e h = cc

-- Open reads a valid path as its elements.
open_path_lem :
    (root : StorageInfo) (es : Entries) (name : List ℕ) (ds : List (List ℕ)) (b : List ℕ)
    → valid_path name ≡ true
    → is_dot name ≡ false
    → elements name ≡ ds ++ (b ∷ [])
    → open_path root es name ≡ open_base b (descend es ds)
unfolding open_path
open_path_lem root es name ds b valid not_dot split = elim (split_path-cases name) [
  | inl (e, f) ↦
      let (same, last) = snoc-injective [] ds (sym f ∙ split) in
      rw (valid, not_dot) (rw e (rw (sym same, sym last) refl))
  | inr (d, b', e, f, g) ↦
      let (same, last) = snoc-injective (elements d) ds (sym f ∙ split) in
      let some_dir : is_empty d ≡ false = elim (Bool-cases (is_empty d)) [
        | inl empty ↦ absurd (leading_slash d b' empty (ap valid_path (sym g) ∙ valid))
        | inr used ↦ used
      ] in
      rw (valid, not_dot) (rw e (rw (some_dir, same, last) refl))
]

-- Open of a valid path, except ".", gives the handle of the entry that the elements of the path lead
-- to, and nothing else: each element but the last names a storage in the one before, and the last a
-- storage or a stream.
pub open_path_iff :
    (root : StorageInfo) (es : Entries) (name : List ℕ) (ds : List (List ℕ)) (b : List ℕ)
    (h : Handle)
    → valid_path name ≡ true
    → is_dot name ≡ false
    → elements name ≡ ds ++ (b ∷ [])
    → (open_path root es name ≡ ok h) ↔ ((e : Entry) × Leads es ds b e × (handle_of e ≡ h))
open_path_iff root es name ds b h valid not_dot split =
    let opened = open_path_lem root es name ds b valid not_dot split in
    (
      λ found. follow_sound es ds b h (sym opened ∙ found),
      λ (e, leads, same). opened ∙ follow_complete es ds b e leads ∙ ap (λ x. ok x) same,
    )

base_valid : (b : List ℕ) (m : Option Entries) → open_base b m ≢ err invalid
unfolding open_base
base_valid b none h = cc
base_valid b (some es) h = elim (Option-cases (find_entry (λ x. some x) es b)) [
  | inl e ↦
      let g : ◌≡◌ {A = Result FsError Handle} (err not_exist) (err invalid) =
        rw (e, open_base) at h in
      cc
  | inr (x, e) ↦
      let g : ◌≡◌ {A = Result FsError Handle} (ok (handle_of x)) (err invalid) =
        rw (e, open_base) at h in
      cc
]

-- Open gives fs.ErrInvalid for the names that fs.ValidPath refuses, and for no others.
pub open_path_invalid_iff :
    (root : StorageInfo) (es : Entries) (name : List ℕ)
    → (open_path root es name ≡ err invalid) ↔ (valid_path name ≡ false)
unfolding open_path
open_path_invalid_iff root es name =
    let (dir, base) = split_path name in
    (
      λ refused. elim (Bool-cases (valid_path name)) [
        | inl valid ↦ elim (Bool-cases (is_dot name)) [
          | inl dot ↦
              let g : ◌≡◌ {A = Result FsError Handle} (ok (dir_handle root es 0)) (err invalid) =
                rw (valid, dot, open_path) at refused in
              cc
          | inr named ↦ absurd (base_valid _ _ (rw (valid, named, open_path) at refused))
        ]
        | inr e ↦ e
      ],
      λ e. rw (e, open_path) refl,
    )

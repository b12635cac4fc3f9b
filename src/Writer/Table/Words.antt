-- ===== src/Writer/Table/Words.antt =====
-- The words of one sector of a table.
use go_cfb.Base.{
  ℕ, zero, suc, ◌+◌, ◌-◌, ◌%◌, ◌^◌, min, max, ◌≤◌, ◌<◌, ◌≡◌, ◌≢◌, ◌⊎◌, inl, inr, refl, sym, ap, ◌∙◌,
  Bool, true, false, ◌&&◌, List, [], ◌∷◌, some, arith, leb, ltb, if◌then◌else◌, Bool-cases, length,
  get_elem?, set, replicate, get_elem?-replicate, length-replicate, length-set, get_elem?-set_self,
  get_elem?-set_ne, lt_of_get_elem?,
}
use native.Mathlib.Decide.{ℕ_discrete}
use go_cfb.Format.{free_sect}
use go_cfb.Writer.Table.{FatRun, run_end, skip_runs, word_at, fill_words, fill_runs, table_sector}

-- The sectors of a run.
abbrev pub In : FatRun → ℕ → Type 0
In r x = (r.first ≤ x) × (x < r.first + r.count)

abbrev pub is_in : FatRun → ℕ → Bool
is_in r x = leb r.first x && ltb x (r.first + r.count)

-- The specification: the word of the first run that has `x`, or else `d`.
unfoldable pub word_or : ℕ → List FatRun → ℕ → ℕ
word_or d [] x = d
word_or d (r ∷ rs) x = if is_in r x then word_at r x else word_or d rs x

abbrev pub Has : FatRun → List FatRun → Type 0
Has r [] = ⊥
Has r (s ∷ rs) = (r ≡ s) ⊎ Has r rs

-- No run passes the end of the 32-bit range.
abbrev pub Narrow : List FatRun → Type 0
Narrow [] = Unit
Narrow (r ∷ rs) = (r.first + r.count < 2 ^ 32) × Narrow rs

-- Runs that have a sector in common agree on its word.
abbrev pub Agree : List FatRun → Type 0
Agree rs =
    (r s : FatRun) (x : ℕ) → Has r rs → Has s rs → In r x → In s x → word_at r x ≡ word_at s x

abbrev pub Sorted : List FatRun → Type 0
Sorted [] = Unit
Sorted (r ∷ rs) = ((s : FatRun) → Has s rs → r.first ≤ s.first) × Sorted rs

pub length-fill_words :
    (base : ℕ) (r : FatRun) (n i : ℕ) (sect : List ℕ)
    → length (fill_words base r n i sect) ≡ length sect
unfolding fill_words
length-fill_words base r zero i sect = refl
length-fill_words base r (suc n) i sect =
    length-fill_words base r n (i + 1) (set sect (i - base) (word_at r i))
    ∙ length-set sect (i - base) (word_at r i)

-- The word at `j` after the innermost loop.
fill_words_lem :
    (base : ℕ) (r : FatRun) (n i j d : ℕ) (sect : List ℕ)
    → base ≤ i
    → get_elem? sect j ≡ some d
    → get_elem? (fill_words base r n i sect) j
      ≡ some (if leb i (base + j) && ltb (base + j) (i + n) then word_at r (base + j) else d)
unfolding fill_words
fill_words_lem base r zero i j d sect low h =
    let out : (leb i (base + j) && ltb (base + j) (i + 0)) ≡ false = ground arith in rw out h
fill_words_lem base r (suc n) i j d sect low h = elim (ℕ_discrete i (base + j)) [
  | yes e ↦
      let at : i - base ≡ j = omega (arith, e) in
      let here : get_elem? (set sect (i - base) (word_at r i)) j ≡ some (word_at r i) =
        rw at (get_elem?-set_self sect j (word_at r i) (lt_of_get_elem? sect j h)) in
      let past : (leb (i + 1) (base + j) && ltb (base + j) (i + 1 + n)) ≡ false =
        ground (arith, e) in
      let covered : (leb i (base + j) && ltb (base + j) (i + suc n)) ≡ true = ground (arith, e) in
      rw (fill_words_lem base r n (i + 1) j (word_at r i) _ (omega arith) here, past, covered)
        (ap (λ x. some (word_at r x)) e)
  | no apart ↦
      let there : get_elem? (set sect (i - base) (word_at r i)) j ≡ some d =
        get_elem?-set_ne sect (word_at r i) (omega (arith, apart, low)) ∙ h in
      let same : (leb (i + 1) (base + j) && ltb (base + j) (i + 1 + n))
          ≡ (leb i (base + j) && ltb (base + j) (i + suc n)) =
        ground (arith, apart) in
      rw (fill_words_lem base r n (i + 1) j d _ (omega arith) there, same) refl
]

-- A run that has `x` decides the word there.
module _ (d : ℕ) (r : FatRun) (x : ℕ) where
  word_or_same :
      (rs : List FatRun)
      → ((s : FatRun) → Has s rs → In s x → word_at r x ≡ word_at s x)
      → d ≡ word_at r x
      → word_or d rs x ≡ word_at r x
  unfolding word_or
  word_or_same [] agree e = e
  word_or_same (t ∷ rs) agree e = elim (Bool-cases (is_in t x)) [
    | inl inside ↦ rw inside (sym (agree t (inl refl) (ground (arith, inside))))
    | inr outside ↦ rw outside (word_or_same rs (λ s has. agree s (inr has)) e)
  ]

  pub word_or-Has :
      (rs : List FatRun) (s : FatRun)
      → ((t : FatRun) → Has t rs → In t x → word_at r x ≡ word_at t x)
      → Has s rs
      → In s x
      → word_or d rs x ≡ word_at r x
  unfolding word_or
  word_or-Has [] s agree has i = absurd has
  word_or-Has (t ∷ rs) s agree has i = elim (Bool-cases (is_in t x)) [
    | inl inside ↦ rw inside (sym (agree t (inl refl) (ground (arith, inside))))
    | inr outside ↦ rw outside (
        word_or-Has rs s (λ u h. agree u (inr h))
          (not_first t rs has (λ e. ground (arith, e, outside, i))) i)
  ]
    where
      not_first : (t : FatRun) (rs : List FatRun) → (s ≡ t) ⊎ Has s rs → s ≢ t → Has s rs
      not_first t rs (inl e) ne = absurd (ne e)
      not_first t rs (inr h) ne = h

pub word_or_none :
    (d : ℕ) (rs : List FatRun) (x : ℕ) → ((s : FatRun) → Has s rs → ¬ In s x) → word_or d rs x ≡ d
unfolding word_or
word_or_none d [] x none_in = refl
word_or_none d (r ∷ rs) x none_in =
    let out : is_in r x ≡ false = ground (arith, none_in r (inl refl)) in
    rw out (word_or_none d rs x (λ s has. none_in s (inr has)))

-- The words of a sector of `per` words from `base` on.
unfoldable pub table_words : List FatRun → ℕ → ℕ → List ℕ
table_words runs i zero = []
table_words runs i (suc n) = word_or free_sect runs i ∷ table_words runs (i + 1) n

-- The cursor passes only runs that end before the sector.
pub word_or-skip_runs :
    (d base : ℕ) (rs : List FatRun) (x : ℕ)
    → Narrow rs
    → base ≤ x
    → word_or d (skip_runs base rs) x ≡ word_or d rs x
unfolding skip_runs word_or
word_or-skip_runs d base [] x narrow low = refl
word_or-skip_runs d base (r ∷ rs) x (n, ns) low = elim (Bool-cases (leb (run_end r) base)) [
  | inl past ↦
      let out : is_in r x ≡ false = ground (arith, past, n, low) in
      rw (past, out) (word_or-skip_runs d base rs x ns low)
  | inr ahead ↦ rw ahead refl
]

-- The first run has been written over what was there.
word_or-cons :
    (d : ℕ) (r : FatRun) (rs : List FatRun) (x : ℕ)
    → Agree (r ∷ rs)
    → word_or (if is_in r x then word_at r x else d) rs x ≡ word_or d (r ∷ rs) x
unfolding word_or
word_or-cons d r rs x agree = elim (Bool-cases (is_in r x)) [
  | inl inside ↦ rw inside (
      word_or_same (word_at r x) r x rs
        (λ s has. agree r s x (inl refl) (inr has) (ground (arith, inside))) refl)
  | inr outside ↦ rw outside refl
]

pub Agree-tail : (r : FatRun) (rs : List FatRun) → Agree (r ∷ rs) → Agree rs
Agree-tail r rs agree s t x hs ht = agree s t x (inr hs) (inr ht)

-- The word at `j` after the loop over the runs from the cursor on.
pub fill_runs_lem :
    (base end j : ℕ) (rs : List FatRun) (d : ℕ) (sect : List ℕ)
    → base + j < end
    → Narrow rs
    → Sorted rs
    → Agree rs
    → get_elem? sect j ≡ some d
    → get_elem? (fill_runs base end rs sect) j ≡ some (word_or d rs (base + j))
unfolding fill_runs word_or
fill_runs_lem base end j [] d sect below narrow sorted agree h = h
fill_runs_lem base end j (r ∷ rs) d sect below (n, ns) (first, sorted) agree h =
    elim (Bool-cases (ltb r.first end)) [
      | inl go ↦
          let lo = max base r.first in
          let hi = min end (run_end r) in
          let x = base + j in
          let test : (leb lo x && ltb x (lo + (hi - lo))) ≡ is_in r x =
            ground (arith, n, below, go) in
          let filled = fill_words_lem base r (hi - lo) lo j d sect (omega arith) h in
          let filled' : get_elem? (fill_words base r (hi - lo) lo sect) j
              ≡ some (if is_in r x then word_at r x else d) =
            filled ∙ ap (λ b. some (if b then word_at r x else d)) test in
          rw go (
            fill_runs_lem base end j rs (if is_in r x then word_at r x else d)
              (fill_words base r (hi - lo) lo sect) below ns sorted (Agree-tail r rs agree) filled'
            ∙ ap (λ v. some v) (word_or-cons d r rs x agree))
      | inr done ↦ rw done (
          h
          ∙ ap (λ v. some v)
              (sym (
                word_or_none d (r ∷ rs) (base + j)
                  (λ s has i. past s has (ground (arith, done, below)) i))))
    ]
  where
    past : (s : FatRun) → Has s (r ∷ rs) → base + j < r.first → ¬ In s (base + j)
    past s (inl e) far i = absurd (ground (arith, e, far, i))
    past s (inr has) far i = absurd (omega (arith, first s has, far, i))

length-fill_runs :
    (base end : ℕ) (rs : List FatRun) (sect : List ℕ)
    → length (fill_runs base end rs sect) ≡ length sect
unfolding fill_runs
length-fill_runs base end [] sect = refl
length-fill_runs base end (r ∷ rs) sect =
    let lo = max base r.first in
    let hi = min end (run_end r) in
    elim (Bool-cases (ltb r.first end)) [
      | inl go ↦ rw go (
          length-fill_runs base end rs (fill_words base r (hi - lo) lo sect)
          ∙ length-fill_words base r (hi - lo) lo sect)
      | inr done ↦ rw done refl
    ]

-- A list with these words is the list of the words.
table_words_ext :
    (runs : List FatRun) (i n : ℕ) (sect : List ℕ)
    → length sect ≡ n
    → ((j : ℕ) → j < n → get_elem? sect j ≡ some (word_or free_sect runs (i + j)))
    → sect ≡ table_words runs i n
unfolding table_words
table_words_ext runs i zero [] e at = refl
table_words_ext runs i (suc n) [] e at = absurd (omega (arith, e))
table_words_ext runs i zero (w ∷ sect) e at = absurd (omega (arith, e))
table_words_ext runs i (suc n) (w ∷ sect) e at =
    let zeroth : i + 0 ≡ i = omega arith in
    let here : w ≡ word_or free_sect runs i = cc (at 0 (omega arith), zeroth) in
    let rest = table_words_ext runs (i + 1) n sect (omega (arith, e)) (λ j below.
      at (suc j) (omega (arith, below))
      ∙ ap (λ x. some (word_or free_sect runs x)) (omega arith)) in
    rw (here, rest) refl

pub table_sector_lem :
    (per base : ℕ) (runs : List FatRun)
    → base + per < 2 ^ 32
    → Narrow runs
    → Sorted runs
    → Agree runs
    → table_sector per base runs ≡ table_words runs base per
unfolding table_sector
table_sector_lem per base runs small narrow sorted agree =
    let wrap : (base + per) % 2 ^ 32 ≡ base + per = omega (arith, small) in
    rw wrap (
      table_words_ext runs base per (fill_runs base (base + per) runs (replicate per free_sect))
        (length-fill_runs base (base + per) runs (replicate per free_sect)
          ∙ length-replicate per free_sect)
        (λ j below.
          fill_runs_lem base (base + per) j runs free_sect (replicate per free_sect)
            (omega (arith, below)) narrow sorted agree (get_elem?-replicate per free_sect j below)))

-- ===== src/Writer/Table/Sorted.antt =====
-- The order of the runs of a table.
use go_cfb.Base.{ℕ, ◌+◌, ◌^◌, ◌≤◌, ◌<◌, ◌≡◌, ◌⊎◌, inl, inr, List, [], ◌∷◌, arith, leb, Bool-cases}
use go_cfb.Writer.Table.{FatRun, run_end, insert_run, sort_runs, skip_runs}
use go_cfb.Writer.Table.Words.{Has, Narrow, Agree, Sorted}

module _ (r : FatRun) where
  Has-insert_run : (s : FatRun) (rs : List FatRun) → Has s (insert_run r rs) → (s ≡ r) ⊎ Has s rs
  unfolding insert_run
  Has-insert_run s [] has = has
  Has-insert_run s (t ∷ rs) has = elim (Bool-cases (leb r.first t.first)) [
    | inl e ↦ rw e at has
    | inr e ↦ later t (Has-insert_run s rs) (rw e at has)
  ]
    where
      later :
          (t : FatRun)
          → (Has s (insert_run r rs) → (s ≡ r) ⊎ Has s rs)
          → (s ≡ t) ⊎ Has s (insert_run r rs)
          → (s ≡ r) ⊎ ((s ≡ t) ⊎ Has s rs)
      later t ih (inl e) = inr (inl e)
      later t ih (inr h) = elim (ih h) [ inl e ↦ inl e | inr i ↦ inr (inr i) ]

  insert_run-Has : (s : FatRun) (rs : List FatRun) → (s ≡ r) ⊎ Has s rs → Has s (insert_run r rs)
  unfolding insert_run
  insert_run-Has s [] has = has
  insert_run-Has s (t ∷ rs) has = elim (Bool-cases (leb r.first t.first)) [
    | inl e ↦ rw e has
    | inr e ↦ rw e (later t (insert_run-Has s rs) has)
  ]
    where
      later :
          (t : FatRun)
          → ((s ≡ r) ⊎ Has s rs → Has s (insert_run r rs))
          → (s ≡ r) ⊎ ((s ≡ t) ⊎ Has s rs)
          → (s ≡ t) ⊎ Has s (insert_run r rs)
      later t ih (inl e) = inr (ih (inl e))
      later t ih (inr (inl e)) = inl e
      later t ih (inr (inr h)) = inr (ih (inr h))

  insert_run-Narrow :
      (rs : List FatRun) → r.first + r.count < 2 ^ 32 → Narrow rs → Narrow (insert_run r rs)
  unfolding insert_run
  insert_run-Narrow [] n narrow = (n, narrow)
  insert_run-Narrow (t ∷ rs) n (m, narrow) = elim (Bool-cases (leb r.first t.first)) [
    | inl e ↦ rw e (n, (m, narrow))
    | inr e ↦ rw e (m, insert_run-Narrow rs n narrow)
  ]

  insert_run-Sorted : (rs : List FatRun) → Sorted rs → Sorted (insert_run r rs)
  unfolding insert_run
  insert_run-Sorted [] sorted = ((λ s has. absurd has), sorted)
  insert_run-Sorted (t ∷ rs) (low, sorted) = elim (Bool-cases (leb r.first t.first)) [
    | inl e ↦ rw e ((λ s has. below t s low (ground (arith, e)) has), (low, sorted))
    | inr e ↦ rw e (
      (λ s has. above t s low (ground (arith, e)) (Has-insert_run s rs has)),
      insert_run-Sorted rs sorted,
    )
  ]
    where
      below :
          (t s : FatRun)
          → ((u : FatRun) → Has u rs → t.first ≤ u.first)
          → r.first ≤ t.first
          → (s ≡ t) ⊎ Has s rs
          → r.first ≤ s.first
      below t s low e (inl same) = ground (arith, e, same)
      below t s low e (inr has) = omega (arith, e, low s has)

      above :
          (t s : FatRun)
          → ((u : FatRun) → Has u rs → t.first ≤ u.first)
          → t.first ≤ r.first
          → (s ≡ r) ⊎ Has s rs
          → t.first ≤ s.first
      above t s low e (inl same) = ground (arith, e, same)
      above t s low e (inr has) = low s has

pub Has-sort_runs : (s : FatRun) (rs : List FatRun) → Has s (sort_runs rs) → Has s rs
unfolding sort_runs
Has-sort_runs s [] has = has
Has-sort_runs s (r ∷ rs) has = elim (Has-insert_run r s (sort_runs rs) has) [
  | inl e ↦ inl e
  | inr h ↦ inr (Has-sort_runs s rs h)
]

pub sort_runs-Has : (s : FatRun) (rs : List FatRun) → Has s rs → Has s (sort_runs rs)
unfolding sort_runs
sort_runs-Has s [] has = has
sort_runs-Has s (r ∷ rs) (inl e) = insert_run-Has r s (sort_runs rs) (inl e)
sort_runs-Has s (r ∷ rs) (inr h) = insert_run-Has r s (sort_runs rs) (inr (sort_runs-Has s rs h))

pub sort_runs-Narrow : (rs : List FatRun) → Narrow rs → Narrow (sort_runs rs)
unfolding sort_runs
sort_runs-Narrow [] narrow = narrow
sort_runs-Narrow (r ∷ rs) (n, narrow) =
    insert_run-Narrow r (sort_runs rs) n (sort_runs-Narrow rs narrow)

pub sort_runs-Sorted : (rs : List FatRun) → Sorted (sort_runs rs)
unfolding sort_runs
sort_runs-Sorted [] = tt
sort_runs-Sorted (r ∷ rs) = insert_run-Sorted r (sort_runs rs) (sort_runs-Sorted rs)

pub sort_runs-Agree : (rs : List FatRun) → Agree rs → Agree (sort_runs rs)
sort_runs-Agree rs agree s t x hs ht = agree s t x (Has-sort_runs s rs hs) (Has-sort_runs t rs ht)

-- The cursor leaves a part of the runs.
Has-skip_runs : (base : ℕ) (s : FatRun) (rs : List FatRun) → Has s (skip_runs base rs) → Has s rs
unfolding skip_runs
Has-skip_runs base s [] has = has
Has-skip_runs base s (r ∷ rs) has = elim (Bool-cases (leb (run_end r) base)) [
  | inl e ↦ inr (Has-skip_runs base s rs (rw e at has))
  | inr e ↦ rw e at has
]

pub skip_runs-Agree : (base : ℕ) (rs : List FatRun) → Agree rs → Agree (skip_runs base rs)
skip_runs-Agree base rs agree s t x hs ht =
    agree s t x (Has-skip_runs base s rs hs) (Has-skip_runs base t rs ht)

pub skip_runs-Narrow : (base : ℕ) (rs : List FatRun) → Narrow rs → Narrow (skip_runs base rs)
unfolding skip_runs
skip_runs-Narrow base [] narrow = narrow
skip_runs-Narrow base (r ∷ rs) (n, narrow) = elim (Bool-cases (leb (run_end r) base)) [
  | inl e ↦ rw e (skip_runs-Narrow base rs narrow)
  | inr e ↦ rw e (n, narrow)
]

pub skip_runs-Sorted : (base : ℕ) (rs : List FatRun) → Sorted rs → Sorted (skip_runs base rs)
unfolding skip_runs
skip_runs-Sorted base [] sorted = sorted
skip_runs-Sorted base (r ∷ rs) (low, sorted) = elim (Bool-cases (leb (run_end r) base)) [
  | inl e ↦ rw e (skip_runs-Sorted base rs sorted)
  | inr e ↦ rw e (low, sorted)
]

-- ===== src/Reader/Chain/Walk.antt =====
-- walkChain ends on every FAT, and accepts exactly the well-formed chains.
use go_cfb.Base.{
  ℕ, zero, suc, ◌+◌, ◌*◌, ◌^◌, ◌≤◌, ◌<◌, ◌≡◌, ◌≢◌, ◌⊎◌, ◌↔◌, ◌∙◌, refl, sym, ltb, true, inl, inr,
  List, [], ◌∷◌, ◌++◌, ok, stuck, panic, arith, length, length-append, get_or, ◌==◌, false,
  Bool-cases,
}
use mathlib.Core.List.{append_assoc, append-nil}
use mathlib.Core.Path.{subst}
use go_cfb.Base.Total.{Ends, Any, Ends-mono, ne-Ends}
use go_cfb.Format.{max_reg_sect, end_of_chain}
use go_cfb.Reader.Errors.{Parsed}
use go_cfb.Reader.Chain.{max_alloc, walk_loop, walk_chain, Links}

panic≢ok : {chain : List ℕ} → ◌≢◌ {A = Parsed (List ℕ)} panic (ok chain)
panic≢ok h = cc

-- Every round adds an entry, and more entries than the FAT has words are refused.
walk_loop-ne-stuck :
    (fuel : ℕ) (fat : List ℕ) (num sec : ℕ) (chain : List ℕ)
    → length chain ≤ length fat
    → length fat + 1 < fuel + length chain
    → walk_loop fuel fat num sec chain ≢ stuck
unfolding walk_loop
walk_loop-ne-stuck zero fat num sec chain small enough = absurd (omega arith)
walk_loop-ne-stuck (suc fuel) fat num sec chain small enough = ground (
  arith,
  length-append chain (sec ∷ []),
  walk_loop-ne-stuck fuel fat num (get_or fat sec 0) (chain ++ (sec ∷ [])),
)

walk_loop-ne-panic :
    (fuel : ℕ) (fat : List ℕ) (num sec : ℕ) (chain : List ℕ)
    → walk_loop fuel fat num sec chain ≢ panic
unfolding walk_loop
walk_loop-ne-panic zero fat num sec chain = λ e. cc
walk_loop-ne-panic (suc fuel) fat num sec chain =
    ground (arith, walk_loop-ne-panic fuel fat num (get_or fat sec 0) (chain ++ (sec ∷ [])))

-- The slice is made, or is too large.
walk_chain_small :
    (fat : List ℕ) (first num : ℕ)
    → num ≤ 2 ^ 46
    → walk_chain fat first num ≡ walk_loop (length fat + 2) fat num first []
unfolding walk_chain
walk_chain_small fat first num small = elim (Bool-cases (num == 0)) [
  | inl e ↦ rw (e, walk_chain) refl
  | inr e ↦
      let fits : ltb max_alloc (4 * num) ≡ false = ground (arith, small) in
      rw (e, fits, walk_chain) refl
]

pub walk_chain_large :
    (fat : List ℕ) (first num : ℕ) → 2 ^ 46 < num → walk_chain fat first num ≡ panic
unfolding walk_chain
walk_chain_large fat first num large =
    let e : (num == 0) ≡ false = ground (arith, large) in
    let beyond : ltb max_alloc (4 * num) ≡ true = ground (arith, large) in
    rw (e, beyond, walk_chain) refl

pub Ends-walk_chain :
    (fat : List ℕ) (first num : ℕ) → num ≤ 2 ^ 46 → Ends Any (walk_chain fat first num)
Ends-walk_chain fat first num small =
    let n = length fat + 2 in
    rw (walk_chain_small fat first num small) (
      Ends-mono
        (ne-Ends (walk_loop n fat num first []) (walk_loop-ne-panic n fat num first [])
          (walk_loop-ne-stuck n fat num first [] (omega arith) (omega arith)))
        (λ chain _. tt))

-- The lengths that the two length checks let through.
abbrev pub Fits : List ℕ → ℕ → List ℕ → Type 0
Fits fat num chain = (length chain ≤ length fat) × ((num ≡ 0) ⊎ (length chain ≡ num))

-- A round that is not the last passes all tests and goes on.
walk_loop_step :
    (fuel : ℕ) (fat : List ℕ) (num sec : ℕ) (chain out : List ℕ)
    → (sec == end_of_chain) ≡ false
    → walk_loop (suc fuel) fat num sec chain ≡ ok out
    → (sec ≤ max_reg_sect)
      × (sec < length fat)
      × (length (chain ++ (sec ∷ [])) ≤ length fat)
      × ((num ≡ 0) ⊎ (length (chain ++ (sec ∷ [])) ≤ num))
      × (walk_loop fuel fat num (get_or fat sec 0) (chain ++ (sec ∷ [])) ≡ ok out)
unfolding walk_loop
walk_loop_step fuel fat num sec chain out more e = ground arith

walk_loop_sound :
    (fuel : ℕ) (fat : List ℕ) (num sec : ℕ) (chain out : List ℕ)
    → length chain ≤ length fat
    → (num ≡ 0) ⊎ (length chain ≤ num)
    → walk_loop fuel fat num sec chain ≡ ok out
    → (rest : List ℕ) × (out ≡ chain ++ rest) × Links fat sec rest × Fits fat num out
unfolding walk_loop
walk_loop_sound zero fat num sec chain out small short e = cc
walk_loop_sound (suc fuel) fat num sec chain out small short e =
    elim (Bool-cases (sec == end_of_chain)) [
      | inl last ↦ ([], ground (arith, append-nil chain), ground arith, ground arith)
      | inr more ↦
          let (regular, inside, small', short', next) =
            walk_loop_step fuel fat num sec chain out more e in
          let (rest, eq, links, fits) =
            walk_loop_sound fuel fat num (get_or fat sec 0) (chain ++ (sec ∷ [])) out small' short'
              next in
          (sec ∷ rest, eq ∙ append_assoc chain (sec ∷ []) rest, ground arith, fits)
    ]

walk_loop_complete :
    (rest : List ℕ) (fuel : ℕ) (fat : List ℕ) (num sec : ℕ) (chain : List ℕ)
    → Links fat sec rest
    → Fits fat num (chain ++ rest)
    → length rest < fuel
    → walk_loop fuel fat num sec chain ≡ ok (chain ++ rest)
unfolding walk_loop
walk_loop_complete [] zero fat num sec chain links fits enough = absurd (omega arith)
walk_loop_complete [] (suc fuel) fat num sec chain links fits enough =
    ground (arith, append-nil chain)
walk_loop_complete (x ∷ rest) zero fat num sec chain links fits enough = absurd (omega arith)
walk_loop_complete (x ∷ rest) (suc fuel) fat num sec chain links fits enough = ground (
  arith,
  length-append chain (x ∷ []),
  length-append chain (x ∷ rest),
  append_assoc chain (x ∷ []) rest,
  walk_loop_complete rest fuel fat num (get_or fat x 0) (chain ++ (x ∷ [])),
)

-- walkChain accepts a chain exactly if the FAT links it from `first` to the end marker through
-- regular sectors that have a word in the FAT, it has no more entries than the FAT has words, its
-- length is `numSectors` unless that is 0, and `numSectors` is at most 2 ^ 46.
pub walk_chain_iff :
    (fat : List ℕ) (first num : ℕ) (chain : List ℕ)
    → (walk_chain fat first num ≡ ok chain)
      ↔ (Links fat first chain × Fits fat num chain × (num ≤ 2 ^ 46))
walk_chain_iff fat first num chain = elim (Bool-cases (ltb (2 ^ 46) num)) [
  | inl e ↦
      let large : 2 ^ 46 < num = ground (arith, e) in
      (
        λ h. absurd (panic≢ok (sym (walk_chain_large fat first num large) ∙ h)),
        λ h. absurd (omega (arith, large, (h.1).1)),
      )
  | inr e ↦
      let small : num ≤ 2 ^ 46 = ground (arith, e) in
      let same = walk_chain_small fat first num small in
      (
        λ h.
            let (rest, eq, links, fits) =
              walk_loop_sound (length fat + 2) fat num first [] chain (omega arith) (omega arith)
                (sym same ∙ h) in
            (subst (Links fat first) (sym eq) links, fits, small),
        λ (links, fits, _).
            same
            ∙ walk_loop_complete chain (length fat + 2) fat num first [] links fits (omega arith),
      )
]

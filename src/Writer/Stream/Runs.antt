-- ===== src/Writer/Stream/Runs.antt =====
-- The content of a chain of sector runs.
use go_cfb.Base.{
  ℕ, ◌+◌, ◌-◌, ◌*◌, ◌%◌, ◌^◌, ◌≤◌, ◌<◌, ◌≡◌, refl, sym, ap, ◌∙◌, List, [], ◌∷◌, ◌++◌, arith, ◌==◌,
  Bool-cases, inl, inr, length, length-append, take, drop, length-drop,
}
use mathlib.Core.Path.{ap₂}
use mathlib.Core.List.{append_assoc, append-nil}
use native.Mathlib.Decide.{dec_lt}
use go_cfb.Base.Slices.{take-append, drop-append}
use go_cfb.Reader.Stream.Content.{slice, slice-add}
use go_cfb.Writer.Stream.{SectorRun, append_run}

-- The bytes of a run of sectors of `size` bytes in what has been written.
abbrev pub run_bytes : ℕ → List ℕ → SectorRun → List ℕ
run_bytes size out r = slice out (r.first * size) (r.count * size)

abbrev pub chain_bytes : ℕ → List ℕ → List SectorRun → List ℕ
chain_bytes size out [] = []
chain_bytes size out (r ∷ rs) = run_bytes size out r ++ chain_bytes size out rs

-- Every run lies in what has been written.
abbrev pub InOut : ℕ → List ℕ → List SectorRun → Type 0
InOut size out [] = Unit
InOut size out (r ∷ rs) = (r.first * size + r.count * size ≤ length out) × InOut size out rs

-- More output does not change a slice that lies in the output.
slice-append :
    (out more : List ℕ) (off n : ℕ)
    → off + n ≤ length out
    → slice (out ++ more) off n ≡ slice out off n
slice-append out more off n h =
    ap (take n) (drop-append off out more)
    ∙ take-append n (drop off out) (drop (off - length out) more)
    ∙ ap (λ k. take n (drop off out) ++ take k (drop (off - length out) more)) none_left
    ∙ append-nil (take n (drop off out))
  where
    none_left : n - length (drop off out) ≡ 0
    none_left = omega (arith, length-drop off out)

pub chain_bytes-append :
    (size : ℕ) (out more : List ℕ) (rs : List SectorRun)
    → InOut size out rs
    → chain_bytes size (out ++ more) rs ≡ chain_bytes size out rs
chain_bytes-append size out more [] h = refl
chain_bytes-append size out more (r ∷ rs) (h, hs) =
    ap₂ (λ xs ys. xs ++ ys) (slice-append out more (r.first * size) (r.count * size) h)
      (chain_bytes-append size out more rs hs)

pub InOut-append :
    (size : ℕ) (out more : List ℕ) (rs : List SectorRun)
    → InOut size out rs
    → InOut size (out ++ more) rs
InOut-append size out more [] h = tt
InOut-append size out more (r ∷ rs) (h, hs) =
    (omega (arith, length-append out more), InOut-append size out more rs hs)

pub cancel : (a b size : ℕ) → a * size < b * size → a < b
cancel a b size h = elim (dec_lt a b) [ yes p ↦ p | no p ↦ absurd (grind arith) ]

-- The sums of a run that lies in fewer than 2 ^ 32 sectors of output do not wrap.
no_wrap :
    (size : ℕ) (out : List ℕ) (a b : ℕ)
    → length out < 2 ^ 32 * size
    → a * size + b * size ≤ length out
    → (a + b) % 2 ^ 32 ≡ a + b
no_wrap size out a b small fits =
    let p = cancel (a + b) (2 ^ 32) size (omega arith) in omega (arith, p)

module _ (size : ℕ) (out : List ℕ) (first sectors : ℕ)
    (fits : first * size + sectors * size ≤ length out) (small : length out < 2 ^ 32 * size) where
  merged_bytes :
      (r : SectorRun)
      → r.first + r.count ≡ first
      → let m : SectorRun = record { first = r.first; count = (r.count + sectors) % 2 ^ 32 } in
        (run_bytes size out m ≡ run_bytes size out r ++ slice out (first * size) (sectors * size))
        × (m.first * size + m.count * size ≤ length out)
  merged_bytes r e =
      let at : r.first * size + r.count * size ≡ first * size = rw (← e) (omega arith) in
      let fit : r.first * size + (r.count + sectors) * size ≤ length out = omega (arith, at) in
      let wide = cancel (r.first + (r.count + sectors)) (2 ^ 32) size (omega (arith, fit, small)) in
      let keep : (r.count + sectors) % 2 ^ 32 ≡ r.count + sectors = omega (arith, wide) in
      let split : (r.count + sectors) * size ≡ r.count * size + sectors * size = omega arith in
      rw (keep, split)
        (
          slice-add out (r.first * size) (r.count * size) (sectors * size)
              ∙ ap (λ k. run_bytes size out r ++ slice out k (sectors * size)) at,
          omega (arith, at),
        )

  -- A run that fits 32 bits adds its bytes at the end.
  pub append_run_bytes :
      (rs : List SectorRun)
      → InOut size out rs
      → (chain_bytes size out (append_run rs first sectors)
          ≡ chain_bytes size out rs ++ slice out (first * size) (sectors * size))
        × InOut size out (append_run rs first sectors)
  unfolding append_run
  append_run_bytes [] h = (append-nil _, (fits, tt))
  append_run_bytes (r ∷ []) h = elim (Bool-cases ((r.first + r.count) % 2 ^ 32 == first)) [
    | inl next ↦
        let e = no_wrap size out r.first r.count small h.0 in
        let (bytes, inside) = merged_bytes r (ground (arith, e)) in
        rw (next, append-nil (run_bytes size out r)) (append-nil _ ∙ bytes, (inside, tt))
    | inr apart ↦
        rw (apart, append-nil (run_bytes size out r))
          (ap (λ xs. run_bytes size out r ++ xs) (append-nil _), (h.0, (fits, tt)))
  ]
  append_run_bytes (r ∷ s ∷ rs) h =
      let (bytes, inside) = append_run_bytes (s ∷ rs) h.1 in
      (
        ap (λ xs. run_bytes size out r ++ xs) bytes
            ∙ sym (append_assoc (run_bytes size out r) (chain_bytes size out (s ∷ rs)) _),
        (h.0, inside),
      )

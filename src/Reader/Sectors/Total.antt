-- ===== src/Reader/Sectors/Total.antt =====
-- The reading of sectors ends, with the bytes asked for.
use go_cfb.Base.{
  ℕ, zero, suc, ◌+◌, ◌*◌, ◌/◌, ◌%◌, ◌^◌, ◌≤◌, ◌<◌, ◌≡◌, List, [], ◌∷◌, none, arith, Bool-cases, inl,
  inr, Option-cases, ◌==◌, length, length-append, length-drop, length-take, take, drop, refl, ap,
  ◌∙◌, some,
}
use go_cfb.Base.Total.{Ends, value, error, Ends->>=, Ends-mono}
use go_cfb.Bytes.{◌>>=◌, return, get_u32, get_u32s}
use go_cfb.Bytes.Laws.{bind-eq_some}
use go_cfb.Bytes.Bounded.{AllBytes}
use go_cfb.Reader.Runs.{sector_offset}
use go_cfb.Reader.Stream.{ReaderAt}
use go_cfb.Reader.Sectors.{
  read_group, read_groups, read_sectors, decode_words, load_batches, load_table,
}

-- The contract of io.ReaderAt: a call without an error has read all bytes asked for.
abbrev pub Fills : ReaderAt → Type 0
Fills r = (off n : ℕ) → (r off n).1 ≡ none → (length (r off n).0 ≡ n) × AllBytes (r off n).0

abbrev pub Sized : ℕ → List ℕ → Type 0
Sized n buf = length buf ≡ n

module _ (r : ReaderAt) (fills : Fills r) (sec_size : ℕ) where
  pub Ends-read_group : (from n : ℕ) → Ends (Sized (n * sec_size)) (read_group r sec_size from n)
  unfolding read_group
  Ends-read_group from n = elim (Option-cases (r (sector_offset sec_size from) (n * sec_size)).1) [
    | inl e ↦ rw (e, read_group) (value ((fills (sector_offset sec_size from) (n * sec_size) e).0))
    | inr (x, e) ↦ rw (e, read_group) error
  ]

  Ends-read_groups :
      (from n prev : ℕ) (ss : List ℕ)
      → Ends (Sized (n * sec_size + length ss * sec_size)) (read_groups r sec_size from n prev ss)
  unfolding read_groups
  Ends-read_groups from n prev [] = Ends-mono (Ends-read_group from n) (λ buf e. omega arith)
  Ends-read_groups from n prev (s ∷ ss) = elim (Bool-cases (s == (prev + 1) % 2 ^ 32)) [
    | inl next ↦ rw next (Ends-mono (Ends-read_groups from (n + 1) s ss) (λ buf e. omega arith))
    | inr apart ↦ rw apart (
        Ends->>= (Ends-read_group from n) (λ buf e.
          Ends->>= (Ends-read_groups s 1 s ss)
            (λ rest f. value (omega (arith, length-append buf rest)))))
  ]

  pub Ends-read_sectors :
      (ss : List ℕ) → Ends (Sized (length ss * sec_size)) (read_sectors r sec_size ss)
  unfolding read_sectors
  Ends-read_sectors [] = value (omega arith)
  Ends-read_sectors (s ∷ ss) = Ends-mono (Ends-read_groups s 1 s ss) (λ buf e. omega arith)

words_of :
    (n : ℕ) (b : List ℕ)
    → n * 4 ≤ length b
    → (ws : List ℕ) × (rest : List ℕ) × (get_u32s n b ≡ some (ws, rest)) × (length ws ≡ n)
unfolding get_u32s get_u32
words_of zero b long = ([], b, refl, refl)
words_of (suc n) (x ∷ y ∷ z ∷ w ∷ b) long =
    let (ws, rest, e, size) = words_of n b (omega arith) in
    let v : ℕ = x + y * 256 + z * 65536 + w * 16777216 in
    let read : get_u32 (x ∷ y ∷ z ∷ w ∷ b) ≡ some (v, b) = refl in
    (
      v ∷ ws,
      rest,
      bind-eq_some get_u32 (λ u. get_u32s n >>= λ vs. return (u ∷ vs)) (x ∷ y ∷ z ∷ w ∷ b) read
          ∙ bind-eq_some (get_u32s n) (λ vs. return (v ∷ vs)) b e,
      omega (arith, size),
    )
words_of (suc n) [] long = absurd (omega arith)
words_of (suc n) (x ∷ []) long = absurd (omega arith)
words_of (suc n) (x ∷ y ∷ []) long = absurd (omega arith)
words_of (suc n) (x ∷ y ∷ z ∷ []) long = absurd (omega arith)

Ends-decode_words : (buf : List ℕ) → Ends (λ ws. length ws * 4 ≤ length buf) (decode_words buf)
unfolding decode_words
Ends-decode_words buf =
    let (ws, rest, e, size) = words_of (length buf / 4) buf (omega arith) in
    rw (e, decode_words) (value (omega (arith, size)))

module _ (r : ReaderAt) (fills : Fills r) (sec_size batch : ℕ) (some_batch : 0 < batch) where
  -- The words of the sectors, at most.
  abbrev Words : List ℕ → List ℕ → Type 0
  Words ss ws = length ws * 4 ≤ length ss * sec_size

  Ends-load_batches :
      (fuel : ℕ) (ss : List ℕ)
      → length ss ≤ fuel
      → Ends (Words ss) (load_batches r sec_size batch fuel ss)
  unfolding load_batches
  Ends-load_batches fuel [] enough = value (omega arith)
  Ends-load_batches zero (s ∷ ss) enough = absurd (omega arith)
  Ends-load_batches (suc fuel) (s ∷ ss) enough =
      let front = take batch (s ∷ ss) in
      let back = drop batch (s ∷ ss) in
      let left = length-drop batch (s ∷ ss) in
      let parts : length front * sec_size + length back * sec_size ≡ length (s ∷ ss) * sec_size =
        let total : length front + length back ≡ length (s ∷ ss) =
          omega (arith, left, length-take batch (s ∷ ss)) in
        omega (arith, ap (λ (n : ℕ). n * sec_size) total) in
      Ends->>= (Ends-read_sectors r fills sec_size front) (λ buf e.
        Ends->>= (Ends-decode_words buf) (λ ws f.
          Ends->>= (Ends-load_batches fuel back (omega (arith, left)))
            (λ rest g. value (omega (arith, parts, e, f, g, length-append ws rest)))))

  pub Ends-load_table : (ss : List ℕ) → Ends (Words ss) (load_table r sec_size batch ss)
  unfolding load_table
  Ends-load_table ss = Ends-load_batches (length ss) ss (omega arith)

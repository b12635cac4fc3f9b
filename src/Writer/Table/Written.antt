-- ===== src/Writer/Table/Written.antt =====
-- writeChainTable writes the words of its runs.
use go_cfb.Base.{
  ℕ, zero, suc, ◌+◌, ◌*◌, ◌/◌, ◌%◌, ◌^◌, ◌≤◌, ◌<◌, ◌≡◌, inl, inr, refl, ap, ◌∙◌, true, ◌&&◌, not,
  List, [], ◌∷◌, ◌++◌, some, arith, ◌==◌, if◌then◌else◌, length, get_elem?,
}
use mathlib.Core.List.{append_assoc, append-nil}
use go_cfb.Bytes.{put_u32s}
use go_cfb.Format.{free_sect}
use go_cfb.Writer.Stream.{Sink, Shared}
use go_cfb.Writer.Stream.Flush.{Accepts, cw_write-Accepts}
use go_cfb.Writer.Table.{
  FatRun, word_at, sort_runs, skip_runs, table_sector, table_sectors, write_chain_table,
}
use go_cfb.Writer.Table.Words.{
  In, Has, Narrow, Agree, Sorted, word_or, word_or-Has, word_or_none, word_or-skip_runs,
  table_words, table_sector_lem,
}
use go_cfb.Writer.Table.Sorted.{
  sort_runs-Has, Has-sort_runs, sort_runs-Narrow, sort_runs-Sorted, sort_runs-Agree,
  skip_runs-Narrow, skip_runs-Sorted, skip_runs-Agree,
}

length-table_words : (runs : List FatRun) (i n : ℕ) → length (table_words runs i n) ≡ n
unfolding table_words
length-table_words runs i zero = refl
length-table_words runs i (suc n) = ap suc (length-table_words runs (i + 1) n)

get_elem?-table_words :
    (runs : List FatRun) (i n j : ℕ)
    → j < n
    → get_elem? (table_words runs i n) j ≡ some (word_or free_sect runs (i + j))
unfolding table_words
get_elem?-table_words runs i zero j below = absurd (omega (arith, below))
get_elem?-table_words runs i (suc n) zero below =
    ap (λ x. some (word_or free_sect runs x)) (omega arith)
get_elem?-table_words runs i (suc n) (suc j) below =
    get_elem?-table_words runs (i + 1) n j (omega (arith, below))
    ∙ ap (λ x. some (word_or free_sect runs x)) (omega arith)

table_words_split :
    (runs : List FatRun) (i m n : ℕ)
    → table_words runs i (m + n) ≡ table_words runs i m ++ table_words runs (i + m) n
unfolding table_words
table_words_split runs i zero n =
    let e : i + 0 ≡ i = omega arith in let f : 0 + n ≡ n = omega arith in rw (e, f) refl
table_words_split runs i (suc m) n =
    let e : i + suc m ≡ i + 1 + m = omega arith in
    let f : suc m + n ≡ suc (m + n) = omega arith in
    rw f (rw (table_words_split runs (i + 1) m n, e) refl)

table_words-skip_runs :
    (base : ℕ) (runs : List FatRun) (i n : ℕ)
    → Narrow runs
    → base ≤ i
    → table_words (skip_runs base runs) i n ≡ table_words runs i n
unfolding table_words
table_words-skip_runs base runs i zero narrow low = refl
table_words-skip_runs base runs i (suc n) narrow low =
    rw
      (
        word_or-skip_runs free_sect base runs i narrow low,
        table_words-skip_runs base runs (i + 1) n narrow (omega (arith, low)),
      )
      refl

put_u32s_append : (ws vs : List ℕ) → put_u32s (ws ++ vs) ≡ put_u32s ws ++ put_u32s vs
unfolding put_u32s
put_u32s_append [] vs = refl
put_u32s_append (w ∷ ws) vs = simp (append_assoc) (rw (put_u32s_append ws vs) refl)

abbrev pub extend : Shared → List ℕ → Shared
extend w p = record { sec_size = w.sec_size; out = w.out ++ p }

module _ (sink : Sink) (per : ℕ) (accepts : Accepts sink) where
  table_sectors_lem :
      (n k : ℕ) (w : Shared) (runs : List FatRun)
      → (k + n) * per < 2 ^ 32
      → Narrow runs
      → Sorted runs
      → Agree runs
      → table_sectors sink w per n k runs
        ≡ (extend w (put_u32s (table_words runs (k * per) (n * per))), true)
  unfolding table_sectors table_words put_u32s
  table_sectors_lem zero k w runs small narrow sorted agree =
      let e : 0 * per ≡ 0 = omega arith in rw (e, append-nil w.out) refl
  table_sectors_lem (suc n) k w runs small narrow sorted agree =
      let low : k * per + per + n * per ≡ (k + suc n) * per = grind arith in
      let all : suc n * per ≡ per + n * per = grind arith in
      let high : (k + 1) * per ≡ k * per + per = grind arith in
      let same : k + 1 + n ≡ k + suc n = omega arith in
      let wrap : k * per % 2 ^ 32 ≡ k * per = omega (arith, low, small) in
      let left = skip_runs (k * per) runs in
      let narrow' = skip_runs-Narrow (k * per) runs narrow in
      let sorted' = skip_runs-Sorted (k * per) runs sorted in
      let agree' = skip_runs-Agree (k * per) runs agree in
      let sector : table_sector per (k * per) left ≡ table_words runs (k * per) per =
        table_sector_lem per (k * per) left (omega (arith, low, small)) narrow' sorted' agree'
        ∙ table_words-skip_runs (k * per) runs (k * per) per narrow (omega arith) in
      let w' = extend w (put_u32s (table_words runs (k * per) per)) in
      let written = cw_write-Accepts sink accepts w (put_u32s (table_words runs (k * per) per)) in
      let next = table_sectors_lem n (k + 1) w' left (rw same small) narrow' sorted' agree' in
      let rest : table_words left ((k + 1) * per) (n * per)
          ≡ table_words runs (k * per + per) (n * per) =
        rw high
          (table_words-skip_runs (k * per) runs (k * per + per) (n * per) narrow (omega arith)) in
      let out : (w.out ++ put_u32s (table_words runs (k * per) per))
            ++ put_u32s (table_words runs (k * per + per) (n * per))
          ≡ w.out ++ put_u32s (table_words runs (k * per) (suc n * per)) =
        rw
          (all, table_words_split runs (k * per) per (n * per), put_u32s_append, append_assoc w.out)
          refl in
      rw (wrap, sector, written)
        (next ∙ rw rest (ap (λ o. (record { sec_size = w.sec_size; out = o }, true)) out))

-- The word of a run for its sector `x`: the next sector in a linear run, but for the last sector of
-- it, which has the run's terminal, as all sectors of another run do.
abbrev pub link_of : FatRun → ℕ → ℕ
link_of r x = if r.linear && not (x + 1 == r.first + r.count) then x + 1 else r.terminal

word_at_lem : (r : FatRun) (x : ℕ) → In r x → r.first + r.count < 2 ^ 32 → word_at r x ≡ link_of r x
unfolding word_at
word_at_lem r x i narrow = ground arith

Narrow-Has : (r : FatRun) (rs : List FatRun) → Narrow rs → Has r rs → r.first + r.count < 2 ^ 32
Narrow-Has r [] narrow has = absurd has
Narrow-Has r (s ∷ rs) (n, narrow) (inl e) = rw e n
Narrow-Has r (s ∷ rs) (n, narrow) (inr h) = Narrow-Has r rs narrow h

-- The words of a table of `size` words for the runs `rs`.
pub record Tabulates (rs : List FatRun) (size : ℕ) (words : List ℕ) : Type 0 where
  pub full : length words ≡ size
  pub linked :
      (r : FatRun) (x : ℕ) → Has r rs → In r x → x < size → get_elem? words x ≡ some (link_of r x)
  pub free :
      (x : ℕ) → x < size → ((r : FatRun) → Has r rs → ¬ In r x) → get_elem? words x ≡ some free_sect

table_words-Tabulates :
    (rs : List FatRun) (size : ℕ)
    → Narrow rs
    → Agree rs
    → Tabulates rs size (table_words (sort_runs rs) 0 size)
table_words-Tabulates rs size narrow agree = record {
  full = length-table_words (sort_runs rs) 0 size;
  linked = λ r x has i below.
      get_elem?-table_words (sort_runs rs) 0 size x below
      ∙ ap (λ v. some v)
          (ap (λ y. word_or free_sect (sort_runs rs) y) (omega arith)
            ∙ word_or-Has free_sect r x (sort_runs rs) r
                (λ t ht it. agree r t x has (Has-sort_runs t rs ht) i it) (sort_runs-Has r rs has) i
            ∙ word_at_lem r x i (Narrow-Has r rs narrow has));
  free = λ x below none_in.
      get_elem?-table_words (sort_runs rs) 0 size x below
      ∙ ap (λ v. some v)
          (ap (λ y. word_or free_sect (sort_runs rs) y) (omega arith)
            ∙ word_or_none free_sect (sort_runs rs) x
                (λ s has. none_in s (Has-sort_runs s rs has)));
}

-- With a writer that takes all, and runs that agree on the sectors that they share and stay in the
-- range, the table has a word for each of its sectors: in the sectors of a run each links to its
-- successor or has the run's terminal, and the other words are free, in whatever order the runs
-- were given.
pub write_chain_table-Tabulates :
    (sink : Sink) (w : Shared) (n : ℕ) (rs : List FatRun)
    → Accepts sink
    → n * (w.sec_size / 4) < 2 ^ 32
    → Narrow rs
    → Agree rs
    → (words : List ℕ) × (write_chain_table sink w n rs ≡ (extend w (put_u32s words), true))
      × Tabulates rs (n * (w.sec_size / 4)) words
unfolding write_chain_table
write_chain_table-Tabulates sink w n rs accepts small narrow agree =
    let per = w.sec_size / 4 in
    let zeroth : 0 * per ≡ 0 = omega arith in
    let none_before : 0 + n ≡ n = omega arith in
    (
      table_words (sort_runs rs) 0 (n * per),
      table_sectors_lem sink per accepts n 0 w (sort_runs rs) (rw none_before small)
            (sort_runs-Narrow rs narrow) (sort_runs-Sorted rs) (sort_runs-Agree rs agree)
          ∙ ap (λ i. (extend w (put_u32s (table_words (sort_runs rs) i (n * per))), true)) zeroth,
      table_words-Tabulates rs (n * per) narrow agree,
    )

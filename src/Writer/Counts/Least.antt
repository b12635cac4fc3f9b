-- ===== src/Writer/Counts/Least.antt =====
-- computeFATCounts ends with the least counts that suffice.
use go_cfb.Base.{
  ℕ, zero, suc, ◌+◌, ◌-◌, ◌*◌, ◌≤◌, ◌<◌, ◌≡◌, ◌⊎◌, inl, inr, some, arith, ◌==◌, Bool-cases, true,
  false, ◌&&◌,
}
use go_cfb.Format.{inline_difat}
use go_cfb.Writer.Counts.{next_fat, next_difat, count_loop, compute_fat_counts}

-- The words of a sector of 512 or 4096 bytes.
abbrev pub IsPerSector : ℕ → Type 0
IsPerSector per = (per ≡ 128) ⊎ (per ≡ 1024)

-- Counts that suffice: the FAT has a word for every sector, itself and the DIFAT included, and the
-- header with the DIFAT has a word for every FAT sector. One word of a DIFAT sector is a link.
pub record Suffice (prefix per fats difats : ℕ) : Type 0 where
  pub some_fat : 1 ≤ fats
  pub words : prefix + fats + difats ≤ fats * per
  pub named : fats ≤ inline_difat + difats * (per - 1)

next_fat_mono :
    (prefix per f d f' d' : ℕ)
    → IsPerSector per
    → f ≤ f'
    → d ≤ d'
    → next_fat prefix per f d ≤ next_fat prefix per f' d'
unfolding next_fat
next_fat_mono prefix per f d f' d' (inl e) p q = rw e (omega arith)
next_fat_mono prefix per f d f' d' (inr e) p q = rw e (omega arith)

next_difat_mono : (per f f' : ℕ) → IsPerSector per → f ≤ f' → next_difat per f ≤ next_difat per f'
unfolding next_difat
next_difat_mono per f f' (inl e) p = rw e (ground arith)
next_difat_mono per f f' (inr e) p = rw e (ground arith)

-- Counts that suffice are not less than those of a round that starts below them.
next_fat-Suffice :
    (prefix per f d F D : ℕ)
    → IsPerSector per
    → Suffice prefix per F D
    → f ≤ F
    → d ≤ D
    → next_fat prefix per f d ≤ F
unfolding next_fat
next_fat-Suffice prefix per f d F D (inl e) s p q =
    let w = rw e at s.words in rw e (omega (arith, w, s.some_fat))
next_fat-Suffice prefix per f d F D (inr e) s p q =
    let w = rw e at s.words in rw e (omega (arith, w, s.some_fat))

next_difat-Suffice :
    (prefix per f F D : ℕ) → IsPerSector per → Suffice prefix per F D → f ≤ F → next_difat per f ≤ D
unfolding next_difat
next_difat-Suffice prefix per f F D (inl e) s p =
    let w = rw e at s.named in rw e (ground (arith, w))
next_difat-Suffice prefix per f F D (inr e) s p =
    let w = rw e at s.named in rw e (ground (arith, w))

-- A fixed point suffices.
fixed-Suffice :
    (prefix per f d : ℕ)
    → IsPerSector per
    → next_fat prefix per f d ≡ f
    → next_difat per f ≡ d
    → Suffice prefix per f d
unfolding next_fat next_difat
fixed-Suffice prefix per f d (inl e) p q =
    let p' = rw e at p in
    let q' = rw e at q in
    rw e (record {
      some_fat = omega (arith, p');
      words = omega (arith, p');
      named = ground (arith, q');
    })
fixed-Suffice prefix per f d (inr e) p q =
    let p' = rw e at p in
    let q' = rw e at q in
    rw e (record {
      some_fat = omega (arith, p');
      words = omega (arith, p');
      named = ground (arith, q');
    })

-- The counts are least among those that suffice.
pub record IsLeast (prefix per : ℕ) (counts : ℕ × ℕ) : Type 0 where
  pub suffice : Suffice prefix per counts.0 counts.1
  pub least_fat : (F D : ℕ) → Suffice prefix per F D → counts.0 ≤ F
  pub least_difat : (F D : ℕ) → Suffice prefix per F D → counts.1 ≤ D

-- What holds before each round: the counts are below all that suffice, and will not shrink.
record IsRising (prefix per f d : ℕ) : Type 0 where
  below_fat : (F D : ℕ) → Suffice prefix per F D → f ≤ F
  below_difat : (F D : ℕ) → Suffice prefix per F D → d ≤ D
  grows_fat : f ≤ next_fat prefix per f d
  grows_difat : d ≤ next_difat per (next_fat prefix per f d)

step-IsRising :
    (prefix per f d : ℕ)
    → IsPerSector per
    → IsRising prefix per f d
    → IsRising prefix per (next_fat prefix per f d) (next_difat per (next_fat prefix per f d))
step-IsRising prefix per f d p v =
    let f' = next_fat prefix per f d in
    let d' = next_difat per f' in
    let up = next_fat_mono prefix per f d f' d' p v.grows_fat v.grows_difat in
    let below = λ (F : ℕ) (D : ℕ) (s : Suffice prefix per F D).
      next_fat-Suffice prefix per f d F D p s (v.below_fat F D s) (v.below_difat F D s) in
    record {
      below_fat = below;
      below_difat = λ F D s. next_difat-Suffice prefix per f' F D p s (below F D s);
      grows_fat = up;
      grows_difat = next_difat_mono per f' (next_fat prefix per f' d') p up;
    }

-- These counts suffice, so they bound all the counts of the loop.
ample : (prefix per : ℕ) → IsPerSector per → Suffice prefix per (prefix + 1) (prefix + 1)
ample prefix per (inl e) = rw e (omega arith)
ample prefix per (inr e) = rw e (omega arith)

both : (a b c d : ℕ) → (a == b && c == d) ≡ true → (a ≡ b) × (c ≡ d)
both a b c d h = ground arith

apart : (a b c d : ℕ) → (a == b && c == d) ≡ false → b ≤ a → d ≤ c → b + d < a + c
apart a b c d h p q = ground arith

count_loop-IsLeast :
    (fuel prefix per f d : ℕ)
    → IsPerSector per
    → IsRising prefix per f d
    → 2 * prefix + 3 < fuel + f + d
    → (counts : ℕ × ℕ) × (count_loop fuel prefix per f d ≡ some counts) × IsLeast prefix per counts
unfolding count_loop
count_loop-IsLeast zero prefix per f d p v enough =
    let a = v.below_fat (prefix + 1) (prefix + 1) (ample prefix per p) in
    let b = v.below_difat (prefix + 1) (prefix + 1) (ample prefix per p) in
    absurd (omega (arith, a, b))
count_loop-IsLeast (suc fuel) prefix per f d p v enough =
    let f' = next_fat prefix per f d in
    let d' = next_difat per f' in
    elim (Bool-cases (f' == f && d' == d)) [
      | inl stop ↦
          let (same_fat, same_difat) = both f' f d' d stop in
          (
            (f', d'),
            rw stop,
            record {
              suffice =
                  rw (same_fat, rw same_fat at same_difat)
                    (fixed-Suffice prefix per f d p same_fat (rw same_fat at same_difat));
              least_fat = (step-IsRising prefix per f d p v).below_fat;
              least_difat = (step-IsRising prefix per f d p v).below_difat;
            },
          )
      | inr more ↦
          let rises = v.grows_fat in
          rw more (
            count_loop-IsLeast fuel prefix per f' d' p (step-IsRising prefix per f d p v)
              (omega (arith, apart f' f d' d more v.grows_fat v.grows_difat)))
    ]

-- computeFATCounts ends, and returns the least numbers of FAT and DIFAT sectors with which the FAT
-- has a word for every sector of the file and the header and the DIFAT name every FAT sector.
pub compute_fat_counts-IsLeast :
    (prefix per : ℕ)
    → IsPerSector per
    → (counts : ℕ × ℕ) × (compute_fat_counts prefix per ≡ some counts) × IsLeast prefix per counts
unfolding compute_fat_counts
compute_fat_counts-IsLeast prefix per p =
    count_loop-IsLeast (2 * prefix + 4) prefix per 0 0 p
      (record {
        below_fat = λ F D s. omega arith;
        below_difat = λ F D s. omega arith;
        grows_fat = omega arith;
        grows_difat = omega arith;
      })
      (omega arith)

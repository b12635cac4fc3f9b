-- ===== src/Reader/Runs/Cover.antt =====
-- The runs of a chain cover the stream.
use go_cfb.Base.{
  ℕ, suc, ap, ◌+◌, ◌-◌, ◌*◌, ◌≤◌, ◌<◌, ◌≡◌, refl, ◌∙◌, List, [], ◌∷◌, ◌++◌, map, arith, ltb,
  if◌then◌else◌, length, length-map, Bool-cases, inl, inr,
}
use go_cfb.Reader.Runs.{
  Run, Collected, first_run, extend_run, trim_last, finish_runs, sector_offset, regular_loop,
  resolve_regular_runs, locate, byte_at, Tiles, span,
}

-- The runs that the loop has, the current one included.
abbrev all_runs : Collected → List Run
all_runs c = c.runs ++ (c.cur ∷ [])

locate-append :
    (xs ys : List Run) (o : ℕ)
    → locate (xs ++ ys) o ≡ (if ltb o (span xs) then locate xs o else locate ys (o - span xs))
locate-append [] ys o = ground arith
locate-append (x ∷ xs) ys o = ground (arith, locate-append xs ys (o - x.len))

span-append : (xs ys : List Run) → span (xs ++ ys) ≡ span xs + span ys
span-append [] ys = omega arith
span-append (x ∷ xs) ys = omega (arith, span-append xs ys)

Tiles-append :
    (s : ℕ) (xs : List Run) (y : Run)
    → Tiles s xs
    → y.start ≡ s + span xs
    → 0 < y.len
    → Tiles s (xs ++ (y ∷ []))
Tiles-append s [] y t e p = (omega arith, p, tt)
Tiles-append s (x ∷ xs) y (a, b, t) e p = (a, b, Tiles-append (s + x.len) xs y t (omega arith) p)

-- The loop's state: the finished runs tile the stream up to `total`, where the current one starts.
record IsCollecting (w : ℕ) (c : Collected) : Type 0 where
  tiled : Tiles 0 c.runs
  counted : span c.runs ≡ c.total
  next : c.cur.start ≡ c.total
  filled : w ≤ c.cur.len

extend_run-IsCollecting :
    (w off : ℕ) (c : Collected) → 0 < w → IsCollecting w c → IsCollecting w (extend_run w off c)
unfolding extend_run
extend_run-IsCollecting w off c p v =
    ground (arith, span-append c.runs (c.cur ∷ []), Tiles-append 0 c.runs c.cur v.tiled)

-- One round adds the bytes of one sector at the end.
locate-extend_run :
    (w off : ℕ) (c : Collected) (o : ℕ)
    → locate (all_runs (extend_run w off c)) o ≡ (
        if ltb o (span (all_runs c))
        then locate (all_runs c) o
        else locate (record { off = off; len = w; start = 0 } ∷ []) (o - span (all_runs c)))
unfolding extend_run
locate-extend_run w off c o = ground (
  arith,
  locate-append c.runs (c.cur ∷ []) o,
  locate-append c.runs (record { off = c.cur.off; len = c.cur.len + w; start = c.cur.start } ∷ [])
      o,
  locate-append (all_runs c) (record { off = off; len = w; start = c.total + c.cur.len } ∷ []) o,
  span-append c.runs (c.cur ∷ []),
)

span-extend_run :
    (w off : ℕ) (c : Collected) → span (all_runs (extend_run w off c)) ≡ span (all_runs c) + w
unfolding extend_run
span-extend_run w off c = ground (
  arith,
  span-append c.runs (c.cur ∷ []),
  span-append c.runs (record { off = c.cur.off; len = c.cur.len + w; start = c.cur.start } ∷ []),
  span-append (all_runs c) (record { off = off; len = w; start = c.total + c.cur.len } ∷ []),
)

-- Both loops, over the offsets of the sectors.
unfoldable pub collect : ℕ → Collected → List ℕ → Collected
collect w c [] = c
collect w c (off ∷ offs) = collect w (extend_run w off c) offs

collect-IsCollecting :
    (w : ℕ) (c : Collected) (offs : List ℕ)
    → 0 < w
    → IsCollecting w c
    → IsCollecting w (collect w c offs)
unfolding collect
collect-IsCollecting w c [] p v = v
collect-IsCollecting w c (off ∷ offs) p v =
    collect-IsCollecting w (extend_run w off c) offs p (extend_run-IsCollecting w off c p v)

span-collect :
    (w : ℕ) (c : Collected) (offs : List ℕ)
    → span (all_runs (collect w c offs)) ≡ span (all_runs c) + length offs * w
unfolding collect
span-collect w c [] = omega arith
span-collect w c (off ∷ offs) =
    omega (arith, span-collect w (extend_run w off c) offs, span-extend_run w off c)

locate-collect :
    (w : ℕ) (c : Collected) (offs : List ℕ) (o : ℕ)
    → o < span (all_runs (collect w c offs))
    → locate (all_runs (collect w c offs)) o ≡ (
        if ltb o (span (all_runs c))
        then locate (all_runs c) o
        else byte_at w offs (o - span (all_runs c)))
unfolding collect
locate-collect w c [] o h = ground arith
locate-collect w c (off ∷ offs) o h = ground (
  arith,
  locate-collect w (extend_run w off c) offs o,
  span-extend_run w off c,
  locate-extend_run w off c o,
)

trim_last-append :
    (d : ℕ) (xs : List Run) (y : Run)
    → trim_last d (xs ++ (y ∷ []))
      ≡ xs ++ (record { off = y.off; len = y.len - d; start = y.start } ∷ [])
unfolding trim_last
trim_last-append d [] y = refl
trim_last-append d (x ∷ []) y = refl
trim_last-append d (x ∷ x' ∷ xs) y = ap (λ rs. x ∷ rs) (trim_last-append d (x' ∷ xs) y)

-- The runs stand for the first `size` bytes of the sectors of `w` bytes at the given offsets: they
-- follow one another from 0 to `size`, none is empty, and each byte stands where its sector does.
pub record Covers (w : ℕ) (offs : List ℕ) (size : ℕ) (runs : List Run) : Type 0 where
  pub tiled : Tiles 0 runs
  pub whole : span runs ≡ size
  pub bytes : (o : ℕ) → o < size → locate runs o ≡ byte_at w offs o

-- The sizes that just need `n` sectors.
abbrev pub Needs : ℕ → ℕ → ℕ → Type 0
Needs w n size = (size ≤ n * w) × (n * w < size + w)

-- The last run, cut to `k` bytes.
abbrev cut : Collected → ℕ → Run
cut c k = record { off = c.cur.off; len = k; start = c.cur.start }

finish_runs_lem :
    (size : ℕ) (c : Collected)
    → size ≤ span (all_runs c)
    → span c.runs ≡ c.total
    → finish_runs size c ≡ c.runs ++ (cut c (size - c.total) ∷ [])
unfolding finish_runs
finish_runs_lem size c h e = elim (Bool-cases (ltb size (c.total + c.cur.len))) [
  | inl less ↦ rw less (
      trim_last-append (c.total + c.cur.len - size) c.runs c.cur
      ∙ ap (λ k. c.runs ++ (cut c k ∷ [])) (ground (arith, span-append c.runs (c.cur ∷ []))))
  | inr more ↦
      rw more (ap (λ k. c.runs ++ (cut c k ∷ [])) (ground (arith, span-append c.runs (c.cur ∷ []))))
]

module _ (w : ℕ) (pos : 0 < w) where
  finish_runs-Covers :
      (c : Collected) (offs : List ℕ) (size : ℕ)
      → IsCollecting w c
      → size ≤ span (all_runs c)
      → span (all_runs c) < size + w
      → ((o : ℕ) → o < size → locate (all_runs c) o ≡ byte_at w offs o)
      → Covers w offs size (finish_runs size c)
  finish_runs-Covers c offs size v fits tight at =
      rw (finish_runs_lem size c fits v.counted) record {
        tiled =
            Tiles-append 0 c.runs (cut c (size - c.total)) v.tiled (omega arith)
              (omega (arith, v.counted, v.filled, span-append c.runs (c.cur ∷ [])));
        whole = omega (
          arith,
          v.counted,
          span-append c.runs (cut c (size - c.total) ∷ []),
          span-append c.runs (c.cur ∷ []),
        );
        bytes = λ o h. ground (
          arith,
          at o h,
          span-append c.runs (c.cur ∷ []),
          locate-append c.runs (c.cur ∷ []) o,
          locate-append c.runs (cut c (size - c.total) ∷ []) o,
        );
      }

  pub collect-Covers :
      (off : ℕ) (offs : List ℕ) (size : ℕ)
      → Needs w (suc (length offs)) size
      → Covers w (off ∷ offs) size (finish_runs size (collect w (first_run w off) offs))
  collect-Covers off offs size (fits, tight) =
      let c = first_run w off in
      let size_of = span-collect w c offs in
      finish_runs-Covers (collect w c offs) (off ∷ offs) size
        (collect-IsCollecting w c offs pos
          (record { tiled = tt; counted = refl; next = refl; filled = omega arith }))
        (omega (arith, size_of)) (omega (arith, size_of))
        (λ o h. ground (arith, size_of, locate-collect w c offs o))

regular_loop-collect :
    (w : ℕ) (c : Collected) (secs : List ℕ)
    → regular_loop w c secs ≡ collect w c (map (sector_offset w) secs)
unfolding regular_loop collect
regular_loop-collect w c [] = refl
regular_loop-collect w c (sec ∷ secs) =
    regular_loop-collect w (extend_run w (sector_offset w sec) c) secs

-- resolveRegularRuns: when the chain has just as many sectors as the size needs, its runs cover the
-- stream, sector by sector.
pub resolve_regular_runs-Covers :
    (chain : List ℕ) (sec_size size : ℕ)
    → 0 < sec_size
    → Needs sec_size (length chain) size
    → Covers sec_size
        (map (sector_offset sec_size) chain)
        size
        (resolve_regular_runs chain sec_size size)
unfolding resolve_regular_runs
resolve_regular_runs-Covers [] sec_size size pos h = record {
  tiled = tt;
  whole = omega arith;
  bytes = λ o p. absurd (omega arith);
}
resolve_regular_runs-Covers (sec ∷ rest) sec_size size pos h =
    rw (regular_loop-collect sec_size (first_run sec_size (sector_offset sec_size sec)) rest) (
      collect-Covers sec_size pos (sector_offset sec_size sec) (map (sector_offset sec_size) rest)
        size (rw (length-map rest (sector_offset sec_size)) h))

-- ===== src/Reader/Runs/Mini.antt =====
-- The runs of a mini chain cover the stream.
use go_cfb.Base.{
  ℕ, zero, suc, ap, sym, ◌+◌, ◌-◌, ◌*◌, ◌/◌, ◌%◌, ◌<◌, ◌≡◌, ◌⊎◌, inl, inr, refl, ◌∙◌, List, [], ◌∷◌,
  map, some, ok, arith, ltb, false, length, get_or, >>=-eq-ok, ok-injective,
}
use mathlib.Core.Path.{subst}
use go_cfb.Format.{mini_sector_size}
use go_cfb.Reader.Runs.{
  Run, Collected, first_run, extend_run, finish_runs, sector_offset, mini_offset, mini_loop,
  resolve_mini_runs, byte_at,
}
use go_cfb.Reader.Runs.Cover.{collect, Covers, Needs, collect-Covers}

-- The offsets of the mini sectors of a chain, all of which lie in the mini stream.
abbrev pub MiniOffsets : ℕ → List ℕ → List ℕ → List ℕ → Type 0
MiniOffsets sec_size ms [] [] = Unit
MiniOffsets sec_size ms [] (off ∷ offs) = ⊥
MiniOffsets sec_size ms (m ∷ rest) [] = ⊥
MiniOffsets sec_size ms (m ∷ rest) (off ∷ offs) =
    (mini_offset sec_size ms m ≡ ok off) × MiniOffsets sec_size ms rest offs

mini_loop-collect :
    (sec_size : ℕ) (ms : List ℕ) (c d : Collected) (rest : List ℕ)
    → mini_loop sec_size ms c rest ≡ ok d
    → (offs : List ℕ) × MiniOffsets sec_size ms rest offs
      × (length offs ≡ length rest)
      × (d ≡ collect mini_sector_size c offs)
unfolding mini_loop collect
mini_loop-collect sec_size ms c d [] e = ([], tt, refl, cc)
mini_loop-collect sec_size ms c d (m ∷ rest) e =
    let (off, found, e') = >>=-eq-ok (mini_offset sec_size ms m) _ e in
    let (offs, all, size, eq) =
      mini_loop-collect sec_size ms (extend_run mini_sector_size off c) d rest e' in
    (off ∷ offs, (found, all), ap suc size, eq)

Resolved : ℕ → List ℕ → ℕ → List ℕ → ℕ → List Run → Type 0
Resolved sec_size ms m rest size runs =
    (off : ℕ) × (offs : List ℕ) × MiniOffsets sec_size ms (m ∷ rest) (off ∷ offs)
    × (length offs ≡ length rest)
    × (finish_runs size (collect mini_sector_size (first_run mini_sector_size off) offs) ≡ runs)

resolve_mini_runs_steps :
    (sec_size : ℕ) (ms : List ℕ) (m : ℕ) (rest : List ℕ) (size : ℕ) (runs : List Run)
    → resolve_mini_runs sec_size ms (m ∷ rest) size ≡ ok runs
    → Resolved sec_size ms m rest size runs
unfolding resolve_mini_runs Resolved
resolve_mini_runs_steps sec_size ms m rest size runs e =
    let (off, found, e') = >>=-eq-ok (mini_offset sec_size ms m) _ e in
    let (d, looped, e'') =
      >>=-eq-ok (mini_loop sec_size ms (first_run mini_sector_size off) rest) _ e' in
    let (offs, all, len, eq) =
      mini_loop-collect sec_size ms (first_run mini_sector_size off) d rest looped in
    (off, offs, (found, all), len, ap (finish_runs size) (sym eq) ∙ ok-injective e'')

-- resolveMiniRuns: a chain that it accepts lies in the mini stream, and when the chain has just as
-- many mini sectors as the size needs, its runs cover the stream, mini sector by mini sector.
pub resolve_mini_runs-Covers :
    (sec_size : ℕ) (mini_stream chain : List ℕ) (size : ℕ) (runs : List Run)
    → resolve_mini_runs sec_size mini_stream chain size ≡ ok runs
    → Needs mini_sector_size (length chain) size
    → (offs : List ℕ) × MiniOffsets sec_size mini_stream chain offs
      × Covers mini_sector_size offs size runs
unfolding resolve_mini_runs Resolved
resolve_mini_runs-Covers sec_size ms [] size runs e h =
    let same : [] ≡ runs = ok-injective e in
    (
      [],
      tt,
      subst (Covers mini_sector_size [] size) same
          (record { tiled = tt; whole = omega arith; bytes = λ o p. absurd (omega arith) }),
    )
resolve_mini_runs-Covers sec_size ms (m ∷ rest) size runs e h =
    let (off, offs, all, len, eq) = resolve_mini_runs_steps sec_size ms m rest size runs e in
    (
      off ∷ offs,
      all,
      subst (Covers mini_sector_size (off ∷ offs) size) eq
          (collect-Covers mini_sector_size (omega arith) off offs size (rw len h)),
    )

byte_at-index :
    (w : ℕ) (secs : List ℕ) (idx k : ℕ)
    → idx < length secs
    → k < w
    → byte_at w (map (sector_offset w) secs) (idx * w + k)
      ≡ some (sector_offset w (get_or secs idx 0) + k)
byte_at-index w [] idx k h p = absurd (omega arith)
byte_at-index w (s ∷ secs) zero k h p = ground arith
byte_at-index w (s ∷ secs) (suc idx) k h p =
    let e : suc idx * w + k - w ≡ idx * w + k = omega arith in
    let t : ltb (suc idx * w + k) w ≡ false = ground arith in
    rw (t, e) (byte_at-index w secs idx k (omega arith) p)

mini_offset-byte_at_of :
    (sec_size : ℕ) (ms : List ℕ) (m off k : ℕ)
    → m * 64 + k ≡ m * 64 / sec_size * sec_size + (m * 64 % sec_size + k)
    → m * 64 % sec_size + k < sec_size
    → mini_offset sec_size ms m ≡ ok off
    → byte_at sec_size (map (sector_offset sec_size) ms) (m * 64 + k) ≡ some (off + k)
unfolding mini_offset
mini_offset-byte_at_of sec_size ms m off k split inside h =
    rw split (ground (arith, byte_at-index sec_size ms (m * 64 / sec_size) (m * 64 % sec_size + k)))

-- The offset of a mini sector is where the mini stream, read through the chain that backs it, has
-- the bytes of that mini sector.
pub mini_offset-byte_at :
    (sec_size : ℕ) (mini_stream : List ℕ) (m off k : ℕ)
    → (sec_size ≡ 512) ⊎ (sec_size ≡ 4096)
    → mini_offset sec_size mini_stream m ≡ ok off
    → k < mini_sector_size
    → byte_at sec_size (map (sector_offset sec_size) mini_stream) (m * mini_sector_size + k)
      ≡ some (off + k)
mini_offset-byte_at sec_size ms m off k (inl e) h p =
    mini_offset-byte_at_of sec_size ms m off k (omega arith) (rw e (omega arith)) h
mini_offset-byte_at sec_size ms m off k (inr e) h p =
    mini_offset-byte_at_of sec_size ms m off k (omega arith) (rw e (omega arith)) h

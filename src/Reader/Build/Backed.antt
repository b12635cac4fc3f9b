-- ===== src/Reader/Build/Backed.antt =====
-- The runs that buildStream finds make up the stream.
use go_cfb.Base.{
  ℕ, ◌^◌, ◌<◌, ◌≡◌, ◌⊎◌, inl, inr, refl, sym, List, [], ok, ◌>>=◌, >>=-eq-ok, ok-injective, arith,
  length,
}
use mathlib.Core.Path.{subst}
use go_cfb.Format.{mini_sector_size}
use go_cfb.Reader.Chain.{walk_chain}
use go_cfb.Reader.Chain.Walk.{walk_chain_iff}
use go_cfb.Reader.Entry.{RawEntry}
use go_cfb.Reader.Runs.{Run, Tiles, span, resolve_regular_runs, resolve_mini_runs}
use go_cfb.Reader.Runs.Cover.{Needs, resolve_regular_runs-Covers}
use go_cfb.Reader.Runs.Mini.{resolve_mini_runs-Covers}
use go_cfb.Reader.Build.{sectors_for, build_stream}

-- The runs follow each other from offset 0 and have `size` bytes.
abbrev pub IsWhole : ℕ → List Run → Type 0
IsWhole size runs = Tiles 0 runs × (span runs ≡ size)

count-Needs :
    (w size n : ℕ)
    → (w ≡ 64) ⊎ (w ≡ 512) ⊎ (w ≡ 4096)
    → 0 < size
    → size < 2 ^ 63
    → (sectors_for w size ≡ 0) ⊎ (n ≡ sectors_for w size)
    → Needs w n size
count-Needs w size n (inl e) some_size small k = let k' = rw e at k in rw e (ground (arith, k'))
count-Needs w size n (inr (inl e)) some_size small k =
    let k' = rw e at k in rw e (ground (arith, k'))
count-Needs w size n (inr (inr e)) some_size small k =
    let k' = rw e at k in rw e (ground (arith, k'))

chain-Needs :
    (w : ℕ) (fat : List ℕ) (first size : ℕ) (chain : List ℕ)
    → (w ≡ 64) ⊎ (w ≡ 512) ⊎ (w ≡ 4096)
    → 0 < size
    → size < 2 ^ 63
    → walk_chain fat first (sectors_for w size) ≡ ok chain
    → Needs w (length chain) size
chain-Needs w fat first size chain sized some_size small e =
    let (links, (short, long), _) = (walk_chain_iff fat first (sectors_for w size) chain).0 e in
    count-Needs w size (length chain) sized some_size small long

-- The two ways to a stream that is not empty.
build_stream-cases :
    (sec_size : ℕ) (fat mini_fat mini_stream : List ℕ) (de : RawEntry) (runs : List Run)
    → build_stream sec_size fat mini_fat mini_stream de ≡ ok runs
    → ((de.stream_size ≡ 0) × ([] ≡ runs))
      ⊎ ((0 < de.stream_size)
          × ((walk_chain mini_fat de.start_sector (sectors_for mini_sector_size de.stream_size)
                >>= λ chain. resolve_mini_runs sec_size mini_stream chain de.stream_size)
              ≡ ok runs))
      ⊎ ((0 < de.stream_size)
          × ((walk_chain fat de.start_sector (sectors_for sec_size de.stream_size) >>= λ chain.
                ok (resolve_regular_runs chain sec_size de.stream_size))
              ≡ ok runs))
unfolding build_stream
build_stream-cases sec_size fat mini_fat mini_stream de runs e = ground (arith, e)

-- Whenever buildStream succeeds, the runs of the stream follow each other without a gap from the
-- start of the stream, and have just as many bytes as its directory entry says. The size is one that
-- parseEntries lets through.
pub build_stream-IsWhole :
    (sec_size : ℕ) (fat mini_fat mini_stream : List ℕ) (de : RawEntry) (runs : List Run)
    → (sec_size ≡ 512) ⊎ (sec_size ≡ 4096)
    → de.stream_size < 2 ^ 63
    → build_stream sec_size fat mini_fat mini_stream de ≡ ok runs
    → IsWhole de.stream_size runs
build_stream-IsWhole sec_size fat mini_fat ms de runs sized small e =
    elim (build_stream-cases sec_size fat mini_fat ms de runs e) [
      | inl (empty, same) ↦ subst (IsWhole de.stream_size) same (tt, sym empty)
      | inr (inl (some_size, looked)) ↦
          let (chain, walked, resolved) =
            >>=-eq-ok
              (walk_chain mini_fat de.start_sector (sectors_for mini_sector_size de.stream_size)) _
              looked in
          let (offs, all, c) =
            resolve_mini_runs-Covers sec_size ms chain de.stream_size runs resolved (
              chain-Needs mini_sector_size mini_fat de.start_sector de.stream_size chain (inl refl)
                some_size small walked) in
          (c.tiled, c.whole)
      | inr (inr (some_size, looked)) ↦
          let (chain, walked, resolved) =
            >>=-eq-ok (walk_chain fat de.start_sector (sectors_for sec_size de.stream_size)) _
              looked in
          let c = resolve_regular_runs-Covers chain sec_size de.stream_size (omega (arith, sized)) (
            chain-Needs sec_size fat de.start_sector de.stream_size chain (inr sized) some_size
              small walked) in
          subst (IsWhole de.stream_size) (ok-injective resolved) (c.tiled, c.whole)
    ]

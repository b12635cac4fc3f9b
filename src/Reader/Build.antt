-- ===== src/Reader/Build.antt =====
-- loadMiniStream and buildStream of reader.go.
pub mod Backed
use go_cfb.Base.{
  ℕ, zero, suc, ◌+◌, ◌-◌, ◌/◌, ◌%◌, ◌^◌, ◌||◌, Bool, List, [], ok, err, ◌>>=◌, ltb, ◌==◌,
  if◌then◌else◌,
}
use go_cfb.Format.{mini_stream_cutoff, mini_sector_size, end_of_chain}
use go_cfb.Reader.Errors.{Parsed, no_chain}
use go_cfb.Reader.Chain.{walk_chain}
use go_cfb.Reader.Entry.{RawEntry}
use go_cfb.Reader.Runs.{Run, resolve_regular_runs, resolve_mini_runs}

-- The number of sectors of `w` bytes for `size` bytes, in uint64 arithmetic.
abbrev pub sectors_for : ℕ → ℕ → ℕ
sectors_for w size = (size + w - 1) % 2 ^ 64 / w

-- The chain of the mini stream, from the root entry.
unfoldable pub load_mini_stream : ℕ → List ℕ → RawEntry → Parsed (List ℕ)
load_mini_stream sec_size fat de =
    if de.stream_size == 0 || de.start_sector == end_of_chain
    then ok []
    else walk_chain fat de.start_sector (sectors_for sec_size de.stream_size)

-- The runs of the stream of a directory entry.
unfoldable pub build_stream : ℕ → List ℕ → List ℕ → List ℕ → RawEntry → Parsed (List Run)
build_stream sec_size fat mini_fat mini_stream de =
    if de.stream_size == 0
    then ok []
    else if de.start_sector == end_of_chain
    then err no_chain
    else if ltb de.stream_size mini_stream_cutoff
    then (walk_chain mini_fat de.start_sector (sectors_for mini_sector_size de.stream_size)
        >>= λ chain. resolve_mini_runs sec_size mini_stream chain de.stream_size)
    else (walk_chain fat de.start_sector (sectors_for sec_size de.stream_size) >>= λ chain.
        ok (resolve_regular_runs chain sec_size de.stream_size))

-- ===== src/Tests/Reading.antt =====
-- Runs of the reader's code.
use go_cfb.Base.{
  ℕ, ◌+◌, ◌≡◌, ◌↔◌, ◌*◌, refl, arith, List, [], ◌∷◌, none, some, inl, ok, ◌^◌, ◌≤◌, map,
}
use go_cfb.Base.Int.{pos}
use go_cfb.Format.{end_of_chain, mini_sector_size}
use go_cfb.Reader.Errors.{eof}
use go_cfb.Reader.Chain.{walk_chain, walk_loop, chain_end, Links}
use go_cfb.Reader.Entry.{RawEntry, no_object}
use go_cfb.Reader.Build.{build_stream}
use go_cfb.Reader.Build.Backed.{IsWhole, build_stream-IsWhole}
use go_cfb.Reader.Chain.Walk.{Fits, walk_chain_iff}
use go_cfb.Reader.Runs.{
  Run, extend_run, sector_offset, trim_last, finish_runs, resolve_regular_runs, mini_offset,
  mini_loop, resolve_mini_runs, byte_at,
}
use go_cfb.Reader.Runs.Cover.{Covers, resolve_regular_runs-Covers}
use go_cfb.Reader.Runs.Mini.{MiniOffsets, resolve_mini_runs-Covers, mini_offset-byte_at}
use go_cfb.Reader.Stream.{ReaderAt, Stream, read_at}
use go_cfb.Reader.Stream.Content.{slice}
use go_cfb.Reader.Stream.Read.{IsBacked, read_at-content}

abbrev file : List ℕ
file = 10 ∷ 11 ∷ 12 ∷ 13 ∷ 14 ∷ 15 ∷ 16 ∷ 17 ∷ []

abbrev serve : ReaderAt
serve off n = (slice file off n, none)

abbrev two_runs : Stream
two_runs = record {
  size = 5;
  runs = record { off = 4; len = 3; start = 0 } ∷ record { off = 0; len = 2; start = 3 } ∷ [];
}

two_runs-IsBacked : IsBacked file two_runs
two_runs-IsBacked = record {
  tiled = (refl, omega arith, (refl, omega arith, tt));
  whole = refl;
  inside = (omega arith, (omega arith, tt));
}

read_at-content_example : read_at serve two_runs 4 (pos 2) ≡ ok (16 ∷ 10 ∷ 11 ∷ [], some eof)
read_at-content_example =
    read_at-content file serve two_runs 4 (pos 2) (λ off n h. refl) two_runs-IsBacked (omega arith)

abbrev fat : List ℕ
fat = 2 ∷ end_of_chain ∷ 1 ∷ []

walk_chain_iff_example :
    (walk_chain fat 0 3 ≡ ok (0 ∷ 2 ∷ 1 ∷ []))
    ↔ (Links fat 0 (0 ∷ 2 ∷ 1 ∷ []) × Fits fat 3 (0 ∷ 2 ∷ 1 ∷ []) × (3 ≤ 2 ^ 46))
walk_chain_iff_example = walk_chain_iff fat 0 3 (0 ∷ 2 ∷ 1 ∷ [])

resolve_regular_runs-Covers_example :
    Covers 512
      (map (sector_offset 512) (3 ∷ 4 ∷ 1 ∷ []))
      1100
      (resolve_regular_runs (3 ∷ 4 ∷ 1 ∷ []) 512 1100)
resolve_regular_runs-Covers_example =
    resolve_regular_runs-Covers (3 ∷ 4 ∷ 1 ∷ []) 512 1100 (omega arith) (omega arith, omega arith)

abbrev mini_runs : List Run
mini_runs =
    record { off = 2624; len = 64; start = 0 } ∷ record { off = 1024; len = 36; start = 64 } ∷ []

resolved : resolve_mini_runs 512 (4 ∷ 1 ∷ []) (1 ∷ 8 ∷ []) 100 ≡ ok mini_runs
unfolding resolve_mini_runs mini_offset mini_loop extend_run finish_runs trim_last
resolved = refl

resolve_mini_runs-Covers_example :
    (offs : List ℕ) × MiniOffsets 512 (4 ∷ 1 ∷ []) (1 ∷ 8 ∷ []) offs
    × Covers mini_sector_size offs 100 mini_runs
resolve_mini_runs-Covers_example =
    resolve_mini_runs-Covers 512 (4 ∷ 1 ∷ []) (1 ∷ 8 ∷ []) 100 mini_runs resolved
      (omega arith, omega arith)

second_sector : mini_offset 512 (4 ∷ 1 ∷ []) 9 ≡ ok 1088
unfolding mini_offset
second_sector = refl

mini_offset-byte_at_example :
    byte_at 512 (map (sector_offset 512) (4 ∷ 1 ∷ [])) (9 * mini_sector_size + 5) ≡ some (1088 + 5)
mini_offset-byte_at_example =
    mini_offset-byte_at 512 (4 ∷ 1 ∷ []) 9 1088 5 (inl refl) second_sector (omega arith)

-- A stream of 150 bytes in three mini sectors.
abbrev small_entry : RawEntry
small_entry = record {
  object = no_object;
  object_type = 2;
  left_sib = 0;
  right_sib = 0;
  child_id = 0;
  start_sector = 0;
  stream_size = 150;
}

abbrev small_runs : List Run
small_runs =
    record { off = 2560; len = 64; start = 0 }
    ∷ record { off = 2688; len = 64; start = 64 }
    ∷ record { off = 2624; len = 22; start = 128 }
    ∷ []

built : build_stream 512 [] fat (4 ∷ []) small_entry ≡ ok small_runs
unfolding build_stream walk_chain walk_loop chain_end resolve_mini_runs mini_offset mini_loop
    extend_run finish_runs trim_last
built = refl

build_stream-IsWhole_example : IsWhole 150 small_runs
build_stream-IsWhole_example =
    build_stream-IsWhole 512 [] fat (4 ∷ []) small_entry small_runs (inl refl) (omega arith) built

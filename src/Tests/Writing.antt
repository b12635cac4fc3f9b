-- ===== src/Tests/Writing.antt =====
-- Runs of the writer's code.
use go_cfb.Base.{
  ℕ, zero, suc, ◌<◌, ◌≡◌, ◌≢◌, inl, inr, refl, arith, List, [], ◌∷◌, ◌++◌, none, some, false, ok,
  replicate, length, get_or, get_elem?,
}
use go_cfb.Format.{object_stream, no_stream}
use go_cfb.Reader.Header.{parse_header}
use go_cfb.Reader.Stream.{ReaderAt}
use go_cfb.Reader.Stream.Content.{slice}
use go_cfb.Writer.Header.{Regions, patch_header}
use go_cfb.Writer.Header.Parse.{written, IsSized, IsConsistent, parse_header-patch_header}
use go_cfb.Writer.Direntry.{Direntry}
use go_cfb.Writer.Counts.{compute_fat_counts}
use go_cfb.Writer.Counts.Least.{IsLeast, compute_fat_counts-IsLeast}
use go_cfb.Writer.Layout.{LayoutEntry, link_all, InOrder}
use go_cfb.Writer.Layout.Balanced.{Outside, link_all-Linked}
use go_cfb.Writer.Stream.{Sink, Shared, StreamWriter, write}
use go_cfb.Writer.Stream.Flush.{Holds}
use go_cfb.Writer.Stream.Room.{IsReady}
use go_cfb.Writer.Stream.Write.{IsWritten, write-IsWritten}

-- A version 4 file of one FAT sector, one directory sector and one mini FAT sector.
abbrev regions : Regions
regions = record {
  sec_size = 4096;
  dir_start = 0;
  dir_secs = 1;
  mini_fat_start = 1;
  mini_fat_secs = 1;
  fat_start = 2;
  fat_count = 1;
  difat_start = 3;
  difat_count = 0;
}

regions-IsSized : IsSized regions
regions-IsSized = record {
  sector = inr refl;
  dir_secs = omega arith;
  dir_start = omega arith;
  fat_end = omega arith;
  mini_fat_start = omega arith;
  mini_fat_secs = omega arith;
  difat_start = omega arith;
  difat_count = omega arith;
}

regions-IsConsistent : IsConsistent regions
regions-IsConsistent = record {
  some_fat = omega arith;
  dir_fits = omega arith;
  mini_fits = omega arith;
  difat_fits = omega arith;
  mini_start = omega arith;
}

abbrev serve : ReaderAt
serve off n = (slice (patch_header regions ++ []) off n, none)

parse_header-patch_header_example : parse_header serve ≡ ok (written regions)
parse_header-patch_header_example =
    parse_header-patch_header regions serve [] regions-IsSized regions-IsConsistent
      (λ off n h. refl) refl

-- The stream "a".
abbrev entry : Direntry
entry = record {
  name = 0x61 ∷ [];
  clsid = replicate 16 7;
  state_bits = 5;
  created = 0;
  modified = 132000000000000001;
  size = 100;
  object_type = object_stream;
  left_sib = no_stream;
  right_sib = 3;
  child_id = no_stream;
  start_sec = 9;
}

compute_fat_counts-IsLeast_example :
    (counts : ℕ × ℕ) × (compute_fat_counts 20000 128 ≡ some counts) × IsLeast 20000 128 counts
compute_fat_counts-IsLeast_example = compute_fat_counts-IsLeast 20000 128 (inl refl)

-- A root and its two children.
abbrev layout : List LayoutEntry
layout = replicate 3 (record { left_sib = no_stream; right_sib = no_stream; child_id = no_stream })

abbrev ids : List ℕ
ids = 2 ∷ 1 ∷ []

two_distinct : (i j : ℕ) → i < j → j < length ids → get_or ids i 0 ≢ get_or ids j 0
two_distinct zero (suc zero) p q = omega arith
two_distinct (suc i) zero p q = absurd (omega arith)
two_distinct zero zero p q = absurd (omega arith)
two_distinct (suc i) (suc zero) p q = absurd (omega arith)
two_distinct i (suc (suc j)) p q = absurd (omega arith)

two_inside : (i : ℕ) → i < length ids → get_or ids i 0 < length layout
two_inside zero p = omega arith
two_inside (suc zero) p = omega arith
two_inside (suc (suc i)) p = absurd (omega arith)

link_all-Linked_example :
    InOrder (link_all layout ids).0 ids 2 (link_all layout ids).1 0 2
    × ((j : ℕ) → Outside ids 0 2 j → get_elem? (link_all layout ids).0 j ≡ get_elem? layout j)
link_all-Linked_example =
    link_all-Linked layout ids 2 (record { distinct = two_distinct; inside = two_inside })
      (omega arith) (omega arith)

-- A stream of 4000 bytes, to which 200 bytes are written: the promotion to a regular stream.
abbrev takes_all : Sink
takes_all count n = none

abbrev shared : Shared
shared = record { sec_size = 512; out = replicate 1024 9 }

abbrev stream : StreamWriter
stream = record { closed = false; buf = replicate 4000 1; chain = []; size = 4000 }

stream-Holds : Holds shared stream (replicate 4000 1)
stream-Holds = record { sectors = 2; whole = refl; inside = tt; content = refl }

stream-IsReady : IsReady shared stream
stream-IsReady = record { sized = inl refl; small = λ h. refl; large = λ h. absurd (omega arith) }

write-IsWritten_example :
    IsWritten
      (replicate 4000 1)
      (replicate 200 2)
      200
      (write takes_all shared stream (replicate 200 2))
write-IsWritten_example =
    write-IsWritten takes_all shared stream (replicate 4000 1) (replicate 200 2) (λ count n. refl)
      stream-Holds stream-IsReady refl refl (λ e. omega arith) (omega arith)

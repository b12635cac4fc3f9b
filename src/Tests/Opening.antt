-- ===== src/Tests/Opening.antt =====
-- Runs of the code that opens a file.
use go_cfb.Base.{ℕ, ◌^◌, ◌≡◌, ◌↔◌, refl, [], ◌∷◌, none, false, true, ok, panic, replicate}
use go_cfb.Format.{no_stream, end_of_chain}
use go_cfb.Reader.Build.{build_stream, load_mini_stream}
use go_cfb.Reader.Chain.{walk_chain}
use go_cfb.Reader.Entry.{RawEntry, no_object, a_stream, StreamInfo}
use go_cfb.Reader.Lookup as L
use go_cfb.Reader.Stream.{ReaderAt}
use go_cfb.Reader.Tree.{Parser, Walked, walk_bst, walk_entry, visit_entry, stream_entry}
use go_cfb.Reader.Tree.Listed.{Reached}
use go_cfb.Reader.Tree.Complete.{walk_bst_iff}

-- A file of zeros.
abbrev zeros : ReaderAt
zeros off n = (replicate n 0, none)

-- A root entry of 2 ^ 62 bytes.
large_root :
    load_mini_stream 4096 (end_of_chain ∷ []) (record {
      object = no_object;
      object_type = 5;
      left_sib = no_stream;
      right_sib = no_stream;
      child_id = no_stream;
      start_sector = 0;
      stream_size = 2 ^ 62;
    })
    ≡ panic
unfolding load_mini_stream walk_chain
large_root = refl

abbrev empty_stream : ℕ → StreamInfo
empty_stream c = record { name = c ∷ []; state_bits = 0; size = 0 }

abbrev raw_stream : ℕ → ℕ → ℕ → RawEntry
raw_stream c left right = record {
  object = a_stream (empty_stream c);
  object_type = 2;
  left_sib = left;
  right_sib = right;
  child_id = no_stream;
  start_sector = end_of_chain;
  stream_size = 0;
}

-- Three empty streams; the second one is the root of the tree.
abbrev parser : Parser
parser = record {
  sec_size = 512;
  fat = [];
  mini_fat = [];
  mini_stream = [];
  raw =
      raw_stream 0x61 no_stream no_stream
      ∷ raw_stream 0x62 0 2
      ∷ raw_stream 0x63 no_stream no_stream
      ∷ [];
}

abbrev walked : Walked
walked = (
  true ∷ true ∷ true ∷ [],
  L.stream (empty_stream 0x61) []
      ∷ L.stream (empty_stream 0x62) []
      ∷ L.stream (empty_stream 0x63) []
      ∷ [],
)

walk_bst_iff_example :
    (walk_bst parser 4 (replicate 3 false) 1 ≡ ok walked)
    ↔ Reached parser (replicate 3 false) 1 walked
walk_bst_iff_example = walk_bst_iff parser (replicate 3 false) 1 walked refl

in_order : walk_bst parser 4 (replicate 3 false) 1 ≡ ok walked
unfolding walk_bst walk_entry visit_entry stream_entry build_stream
in_order = refl

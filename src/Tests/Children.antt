-- ===== src/Tests/Children.antt =====
-- Runs of the code for the children of storages and for the closing of streams.
use go_cfb.Base.{
  ℕ, ◌≡◌, ◌↔◌, inl, inr, refl, arith, false, List, [], ◌∷◌, ◌++◌, none, ok, replicate,
}
use go_cfb.Base.Int.{pos}
use go_cfb.FileTime.{zero_time}
use go_cfb.Name.{
  compare_names_str, encode_name, contains_any, compare_names, compare_units, to_upper,
}
use go_cfb.Name.Utf16.{encode_utf16, append_rune}
use go_cfb.Name.Order.{folded}
use go_cfb.Name.Strings.{compare_names_str-zero}
use go_cfb.Reader.Entry.{StorageInfo, StreamInfo}
use go_cfb.Reader.Runs.{Run}
use go_cfb.Reader.Lookup.{Entries, stream, storage, no_entries, entries, open_stream, open_storage}
use go_cfb.Reader.Lookup.Unique.{Child, SameName, open_iff}
use go_cfb.Writer.Storage.{
  StorageWriter, with_stream, with_storage, create_stream, create_storage, validate_child_name,
  valid_name, has_name, same_name,
}
use go_cfb.Writer.Storage.Fresh.{IsFresh, Adds, Distinct, create_iff, create-Distinct}
use go_cfb.Writer.Stream.{Sink, StreamWriter}
use go_cfb.Writer.Stream.Flush.{Holds}
use go_cfb.Writer.Stream.Room.{IsReady}
use go_cfb.Writer.Mini.{MiniStore, write_mini}
use go_cfb.Writer.Mini.Holds.{MiniHolds, IsStored, write_mini-IsStored}
use go_cfb.Writer.Close.{close}
use go_cfb.Writer.Close.Regular.{IsOnDisk, close-IsOnDisk}

abbrev a_name : List ℕ
a_name = 0x61 ∷ []

abbrev b_name : List ℕ
b_name = 0x62 ∷ []

compare_names_str-zero_example :
    (compare_names_str a_name (0x41 ∷ []) ≡ pos 0)
    ↔ (folded (encode_utf16 a_name) ≡ folded (encode_utf16 (0x41 ∷ [])))
compare_names_str-zero_example = compare_names_str-zero a_name (0x41 ∷ [])

-- A storage with the stream "a".
abbrev one_child : StorageWriter
one_child = record { closed = false; descendants = 1; storages = []; streams = a_name ∷ [] }

create_iff_example :
    ((create_stream one_child b_name ≡ ok (with_stream one_child b_name, b_name)) ↔ (
      IsFresh one_child b_name b_name
      × Adds one_child (with_stream one_child b_name) [] (a_name ∷ b_name ∷ [])))
    × ((create_storage one_child b_name ≡ ok (with_stream one_child b_name, b_name)) ↔ (
        IsFresh one_child b_name b_name
        × Adds one_child (with_stream one_child b_name) (b_name ∷ []) (a_name ∷ [])))
create_iff_example = create_iff one_child (with_stream one_child b_name) b_name b_name

created : create_storage one_child b_name ≡ ok (with_storage one_child b_name, b_name)
unfolding create_storage validate_child_name valid_name encode_name contains_any encode_utf16
    append_rune has_name same_name compare_names compare_units to_upper
created = refl

create-Distinct_example : Distinct (b_name ∷ a_name ∷ [])
create-Distinct_example =
    create-Distinct one_child (with_storage one_child b_name) b_name b_name (tt, tt) (inr created)

-- A storage with the stream "a" only.
abbrev a_stream : StreamInfo × List Run
a_stream = (record { name = a_name; state_bits = 0; size = 0 }, [])

abbrev a_storage : StorageInfo × Entries
a_storage = (
  record { name = b_name; clsid = []; state_bits = 0; created = zero_time; modified = zero_time },
  no_entries,
)

abbrev listed : Entries
listed = entries (stream a_stream.0 a_stream.1) no_entries

open_iff_example :
    ((open_stream listed a_name ≡ ok a_stream)
      ↔ (Child (stream a_stream.0 a_stream.1) listed × SameName a_name a_name))
    × ((open_storage listed a_name ≡ ok a_storage)
        ↔ (Child (storage a_storage.0 a_storage.1) listed × SameName a_name b_name))
open_iff_example = open_iff listed a_name a_stream a_storage (λ e c. absurd c, tt)

abbrev takes_all : Sink
takes_all count n = none

-- A mini stream of one sector and 448 bytes, to which 128 bytes are written.
abbrev store : MiniStore
store = record {
  shared = record { sec_size = 512; out = replicate 1024 3 };
  secs = 1 ∷ [];
  buf = replicate 448 4;
}

store-MiniHolds : MiniHolds store (replicate 512 3 ++ replicate 448 4)
store-MiniHolds = record {
  sectors = 2;
  whole = refl;
  partial = omega arith;
  inside = (omega arith, tt);
  content = refl;
}

write_mini-IsStored_example :
    IsStored
      (replicate 512 3 ++ replicate 448 4)
      (replicate 128 5)
      (write_mini takes_all store (replicate 128 5))
write_mini-IsStored_example =
    write_mini-IsStored takes_all store (replicate 512 3 ++ replicate 448 4) (replicate 128 5)
      (λ count n. refl) store-MiniHolds (omega arith)

-- A stream of 4100 bytes, the last 4 of them in the buffer.
abbrev long_store : MiniStore
long_store = record {
  shared = record { sec_size = 512; out = replicate 4096 1 };
  secs = [];
  buf = [];
}

abbrev long_stream : StreamWriter
long_stream = record {
  closed = false;
  buf = replicate 4 2;
  chain = record { first = 0; count = 8 } ∷ [];
  size = 4100;
}

long-Holds : Holds long_store.shared long_stream (replicate 4096 1 ++ replicate 4 2)
long-Holds = record { sectors = 8; whole = refl; inside = (omega arith, tt); content = refl }

long-IsReady : IsReady long_store.shared long_stream
long-IsReady = record {
  sized = inl refl;
  small = λ h. absurd (omega arith);
  large = λ h. omega arith;
}

close-IsOnDisk_example :
    IsOnDisk (replicate 4096 1 ++ replicate 4 2) (close takes_all long_store long_stream)
close-IsOnDisk_example =
    close-IsOnDisk takes_all long_store long_stream (replicate 4096 1 ++ replicate 4 2)
      (λ count n. refl) long-Holds long-IsReady refl refl (omega arith) (omega arith)

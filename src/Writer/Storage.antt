-- ===== src/Writer/Storage.antt =====
-- CreateStream, CreateStorage and validateChildName of writer.go.
pub mod Fresh
use go_cfb.Base.{
  ℕ, zero, suc, ◌+◌, Bool, true, false, ◌||◌, List, [], ◌∷◌, ◌++◌, Option, none, some, Result, ok,
  err, ◌>>=◌, ◌>>◌, fail_if, ◌==◌,
}
use go_cfb.Base.Int.{ℤ, pos, negsuc}
use go_cfb.Name.{encode_name, compare_names}

pub data CreateError : Type 0 where
  writer_closed invalid_name duplicate_name : CreateError

-- A StorageWriter with the fields of its Writer that the calls read and change. A child stands for
-- its name: a new child has nothing else yet.
pub record StorageWriter : Type 0 where
  pub closed : Bool
  pub descendants : ℕ
  pub storages : List (List ℕ)
  pub streams : List (List ℕ)

-- `compareNames(enc, c.name) == 0`
unfoldable pub same_name : List ℕ → List ℕ → Bool
same_name enc c = elim (compare_names enc c) [ pos n ↦ n == 0 | negsuc n ↦ false ]

-- The loops over the children.
unfoldable pub has_name : List ℕ → List (List ℕ) → Bool
has_name enc [] = false
has_name enc (c ∷ cs) = same_name enc c || has_name enc cs

unfoldable pub valid_name : List ℕ → Result CreateError (List ℕ)
valid_name name = elim (encode_name name) [ none ↦ err invalid_name | some enc ↦ ok enc ]

unfoldable pub validate_child_name : StorageWriter → List ℕ → Result CreateError (List ℕ)
validate_child_name sw name = do
  fail_if sw.closed writer_closed
  enc ← valid_name name
  fail_if (has_name enc sw.storages) duplicate_name
  fail_if (has_name enc sw.streams) duplicate_name
  ok enc

abbrev pub with_stream : StorageWriter → List ℕ → StorageWriter
with_stream sw enc = record {
  closed = sw.closed;
  descendants = sw.descendants + 1;
  storages = sw.storages;
  streams = sw.streams ++ (enc ∷ []);
}

abbrev pub with_storage : StorageWriter → List ℕ → StorageWriter
with_storage sw enc = record {
  closed = sw.closed;
  descendants = sw.descendants + 1;
  storages = sw.storages ++ (enc ∷ []);
  streams = sw.streams;
}

-- The storage after the call, and the name of the child.
unfoldable pub create_stream : StorageWriter → List ℕ → Result CreateError (StorageWriter × List ℕ)
create_stream sw name = do enc ← validate_child_name sw name; ok (with_stream sw enc, enc)

unfoldable pub create_storage : StorageWriter → List ℕ → Result CreateError (StorageWriter × List ℕ)
create_storage sw name = do enc ← validate_child_name sw name; ok (with_storage sw enc, enc)

-- ===== src/Reader/Stream.antt =====
-- Stream.ReadAt of reader.go. The underlying io.ReaderAt is a function of the offset and of the
-- number of bytes asked for; it returns the bytes that it read and its error.
pub mod Content
pub mod Read
use Prim.Native.Nat.{Ordering}
use go_cfb.Base.{
  ℕ, zero, suc, ◌+◌, ◌-◌, ◌*◌, min, ◌<◌, ◌≡◌, List, [], ◌∷◌, ◌++◌, Option, none, some, Bool, ok,
  panic, ltb, leb, ◌==◌, if◌then◌else◌, length, get_elem?, drop,
}
use go_cfb.Base.Int.{ℤ, pos, negsuc}
use go_cfb.Base.Search.{binary_search}
use go_cfb.Reader.Errors.{Error, Parsed, eof, unexpected_eof, negative_offset}
use go_cfb.Reader.Runs.{Run}

abbrev pub Answer : Type 0
Answer = List ℕ × Option Error

abbrev pub ReaderAt : Type 0
ReaderAt = ℕ → ℕ → Answer

-- The fields of Stream that ReadAt reads.
pub record Stream : Type 0 where
  pub size : ℕ
  pub runs : List Run

-- The comparison of the binary search.
unfoldable pub compare_run : ℕ → Run → Ordering
compare_run target r =
    if leb (r.start + r.len) target
    then Ordering.lt
    else if ltb target r.start
    then Ordering.gt
    else Ordering.eq

-- The error for a short read: a nil error and io.EOF become io.ErrUnexpectedEOF.
unfoldable pub short_read : Option Error → Option Error
short_read none = some unexpected_eof
short_read (some eof) = some unexpected_eof
short_read (some e) = some e

-- The loop over the runs from index `i` on. `wanted` is `len(p)`, `out` is `p[:n]`, and `e` is the
-- error to return at the end.
unfoldable pub read_loop : ReaderAt → List Run → ℕ → ℕ → List ℕ → Option Error → Answer
unfolding short_read
read_loop r [] wanted within out e =
    if ltb (length out) wanted then (out, some unexpected_eof) else (out, e)
read_loop r (run ∷ rest) wanted within out e =
    let n = min (wanted - length out) (run.len - within) in
    let got = r (run.off + within) n in
    let out' = out ++ got.0 in
    let next = read_loop r rest wanted 0 out' e in
    if ltb (length out) wanted
    then if ltb (length got.0) n then (out', short_read got.1) else next
    else (out, e)

-- The reads, from the run at index `i` on.
unfoldable pub read_runs : ReaderAt → List Run → ℕ → ℕ → Option Error → ℕ → Parsed Answer
read_runs r runs off wanted e i = elim (get_elem? runs i) [
  | none ↦ panic
  | some run ↦ ok (read_loop r (drop i runs) wanted (off - run.start) [] e)
]

-- What follows the checks of the offset: `wanted` and `e` are cut to what the stream has.
unfoldable pub read_from : ReaderAt → Stream → ℕ → ℕ → Option Error → Parsed Answer
read_from r s off wanted e =
    read_runs r s.runs off wanted e (binary_search (compare_run off) s.runs).0

-- The argument `len` is the length of the buffer.
unfoldable pub read_at : ReaderAt → Stream → ℕ → ℤ → Parsed Answer
read_at r s len (negsuc n) = ok ([], some negative_offset)
read_at r s len (pos off) =
    if leb s.size off
    then ok ([], some eof)
    else if ltb (s.size - off) len
    then read_from r s off (s.size - off) (some eof)
    else read_from r s off len none

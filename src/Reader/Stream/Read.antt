-- ===== src/Reader/Stream/Read.antt =====
-- ReadAt returns the bytes of the stream.
use go_cfb.Base.{
  ℕ, ◌+◌, ◌-◌, min, ◌≤◌, ◌<◌, ◌≡◌, refl, sym, ap, ◌∙◌, List, [], ◌∷◌, ◌++◌, Option, none, some,
  arith, ok, ltb, leb, if◌then◌else◌, length, length-append, length-drop, take, drop,
}
use mathlib.Core.List.{append_assoc, append-nil}
use native.Mathlib.Decide.{dec_le}
use go_cfb.Base.Int.{ℤ, pos, negsuc}
use go_cfb.Base.Slices.{take_all}
use go_cfb.Base.Search.{binary_search-eq}
use go_cfb.Reader.Errors.{Error, eof, negative_offset}
use go_cfb.Reader.Runs.{Run, Tiles, span}
use go_cfb.Reader.Stream.{
  Answer, ReaderAt, Stream, compare_run, read_loop, read_runs, read_from, read_at,
}
use go_cfb.Reader.Stream.Content.{
  slice, content, InFile, length-slice, length-content, content_split, Found, find,
}

-- What io.ReaderAt documents: a read that lies in the file returns just the bytes asked for.
abbrev pub Serves : List ℕ → ReaderAt → Type 0
Serves file r = (off n : ℕ) → off + n ≤ length file → (r off n).0 ≡ slice file off n

module _ (file : List ℕ) (r : ReaderAt) (serves : Serves file r) where
  -- One round asks for what is wanted of the run, and gets it.
  read_loop_step :
      (run : Run) (rs : List Run) (wanted within : ℕ) (out : List ℕ) (e : Option Error)
      → run.off + run.len ≤ length file
      → length out < wanted
      → within < run.len
      → read_loop r (run ∷ rs) wanted within out e
        ≡ read_loop r rs wanted 0
            (out ++ slice file (run.off + within) (min (wanted - length out) (run.len - within)))
            e
  unfolding read_loop
  read_loop_step run rs wanted within out e inside short low =
      let n = min (wanted - length out) (run.len - within) in
      let got = serves (run.off + within) n (omega arith) in
      let size = length-slice file (run.off + within) n (omega arith) in
      rw got (ground (arith, size))

  -- The loop stops when it has all that is wanted.
  read_loop_done :
      (rs : List Run) (wanted within : ℕ) (out : List ℕ) (e : Option Error)
      → wanted ≤ length out
      → read_loop r rs wanted within out e ≡ (out, e)
  unfolding read_loop
  read_loop_done [] wanted within out e h = ground arith
  read_loop_done (run ∷ rs) wanted within out e h = ground arith

  -- The bytes that the first run has of those wanted.
  abbrev part : Run → ℕ → ℕ → List ℕ
  part run within k = slice file (run.off + within) (min k (run.len - within))

  length-part :
      (run : Run) (within k : ℕ)
      → run.off + run.len ≤ length file
      → within < run.len
      → length (part run within k) ≡ min k (run.len - within)
  length-part run within k inside low = length-slice file (run.off + within) _ (omega arith)

  read_loop_last :
      (rs : List Run) (run : Run) (wanted within : ℕ) (out : List ℕ) (e : Option Error)
      → run.off + run.len ≤ length file
      → length out < wanted
      → within < run.len
      → wanted - length out ≤ run.len - within
      → read_loop r (run ∷ rs) wanted within out e
        ≡ (out ++ take (wanted - length out) (drop within (content file (run ∷ rs))), e)
  read_loop_last rs run wanted within out e inside short low last =
      let k = wanted - length out in
      let none_left : k - (run.len - within) ≡ 0 = omega arith in
      read_loop_step run rs wanted within out e inside short low
      ∙ read_loop_done rs wanted 0 (out ++ part run within k) e (
          omega (arith, length-append out (part run within k), length-part run within k inside low))
      ∙ ap (λ xs. (out ++ xs, e))
          (sym (
            content_split file run (content file rs) within k inside low
            ∙ rw none_left (append-nil (part run within k))))

  -- The loop appends what is still wanted, from `within` on in the first run.
  read_loop-content :
      (rs : List Run) (run : Run) (wanted within : ℕ) (out : List ℕ) (e : Option Error) (s : ℕ)
      → InFile file (run ∷ rs)
      → Tiles s rs
      → length out < wanted
      → within < run.len
      → wanted - length out ≤ span (run ∷ rs) - within
      → read_loop r (run ∷ rs) wanted within out e
        ≡ (out ++ take (wanted - length out) (drop within (content file (run ∷ rs))), e)
  read_loop-content [] run wanted within out e s inside tiled short low room =
      read_loop_last [] run wanted within out e inside.0 short low (omega arith)
  read_loop-content (next ∷ rs) run wanted within out e s inside tiled short low room =
      elim (dec_le (wanted - length out) (run.len - within)) [
        | yes last ↦ read_loop_last (next ∷ rs) run wanted within out e inside.0 short low last
        | no more ↦
            let k = wanted - length out in
            let out' = out ++ part run within k in
            let size = length-append out (part run within k) in
            let size' = length-part run within k inside.0 low in
            let left : wanted - length out' ≡ k - (run.len - within) = omega (arith, size, size') in
            read_loop_step run (next ∷ rs) wanted within out e inside.0 short low
            ∙ read_loop-content rs next wanted 0 out' e (s + next.len) inside.1 tiled.2
                (omega (arith, size, size')) (omega arith) (omega (arith, size, size'))
            ∙ ap (λ xs. (xs, e))
                (rw left (
                  append_assoc out (part run within k)
                    (take (k - (run.len - within)) (content file (next ∷ rs)))
                  ∙ ap (λ xs. out ++ xs)
                      (sym
                        (content_split file run (content file (next ∷ rs)) within k inside.0 low))))
      ]

  read_runs-Found :
      (runs : List Run) (off wanted : ℕ) (e : Option Error) (f : Found file 0 runs off)
      → 0 < wanted
      → off + wanted ≤ span runs
      → read_runs r runs off wanted e f.index ≡ ok (take wanted (drop off (content file runs)), e)
  unfolding read_runs
  read_runs-Found runs off wanted e f more room =
      rw (f.at, read_runs)
        (rw f.split (
          ap ok (
            read_loop-content f.rest f.run wanted (off - f.run.start) [] e (f.run.start + f.run.len)
              f.inside f.tiled more (omega (arith, f.low, f.high)) (omega (arith, f.room, f.low))
            ∙ ap (λ xs. (xs, e)) (rw all (ap (take wanted) (sym (rw from_off at f.same)))))))
    where
      all : wanted - 0 ≡ wanted
      all = omega arith

      from_off : off - 0 ≡ off
      from_off = omega arith

  read_from-content :
      (s : Stream) (off wanted : ℕ) (e : Option Error)
      → Tiles 0 s.runs
      → span s.runs ≡ s.size
      → InFile file s.runs
      → 0 < wanted
      → off + wanted ≤ s.size
      → read_from r s off wanted e ≡ ok (take wanted (drop off (content file s.runs)), e)
  unfolding read_from
  read_from-content s off wanted e tiled whole inside more room =
      let f = find file 0 off s.runs tiled inside (omega arith) (omega arith) in
      ap (read_runs r s.runs off wanted e)
        (binary_search-eq (compare_run off) s.runs f.index f.parts)
      ∙ read_runs-Found s.runs off wanted e f more (omega arith)

-- A stream as the parser builds it: its runs follow one another from 0 to its size, and lie in the
-- file.
pub record IsBacked (file : List ℕ) (s : Stream) : Type 0 where
  pub tiled : Tiles 0 s.runs
  pub whole : span s.runs ≡ s.size
  pub inside : InFile file s.runs

-- What io.ReaderAt asks of a stream with the content of its runs.
abbrev pub expected : List ℕ → Stream → ℕ → ℤ → Answer
expected file s len (negsuc n) = ([], some negative_offset)
expected file s len (pos off) = if leb s.size off then ([], some eof) else (
  take len (drop off (content file s.runs)),
  if ltb (s.size - off) len then some eof else none,
)

to_the_end :
    (file : List ℕ) (s : Stream) (len off : ℕ)
    → IsBacked file s
    → s.size - off ≤ len
    → take (s.size - off) (drop off (content file s.runs))
      ≡ take len (drop off (content file s.runs))
to_the_end file s len off b h =
    let rest = drop off (content file s.runs) in
    let size : length rest ≡ s.size - off = omega (
      arith,
      length-drop off (content file s.runs),
      length-content file s.runs b.inside,
      b.whole,
    ) in
    take_all (s.size - off) rest (omega arith) ∙ sym (take_all len rest (omega arith))

-- ReadAt on a stream whose runs cover it, over a reader that serves the file: a negative offset is
-- an error, an offset at or past the end gives io.EOF, a read that ends in the stream gives just
-- its bytes, and a read that passes the end gives the bytes up to the end with io.EOF.
pub read_at-content :
    (file : List ℕ) (r : ReaderAt) (s : Stream) (len : ℕ) (off : ℤ)
    → Serves file r
    → IsBacked file s
    → 0 < len
    → read_at r s len off ≡ ok (expected file s len off)
unfolding read_at
read_at-content file r s len (negsuc n) serves b h = refl
read_at-content file r s len (pos off) serves b h = ground (
  arith,
  read_from-content file r serves s off len none b.tiled b.whole b.inside h,
  read_from-content file r serves s off (s.size - off) (some eof) b.tiled b.whole b.inside,
  to_the_end file s len off b,
)

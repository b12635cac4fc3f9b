-- ===== src/Writer/Close.antt =====
-- StreamWriter.Close of writer.go.
pub mod Regular
use go_cfb.Base.{
  ℕ, zero, suc, ◌+◌, ◌-◌, ◌*◌, ◌/◌, ◌%◌, ◌^◌, Bool, true, false, List, [], ◌∷◌, ◌++◌, leb, ltb,
  ◌==◌, if◌then◌else◌, length, replicate,
}
use go_cfb.Format.{mini_stream_cutoff, mini_sector_size}
use go_cfb.Writer.Stream.{Sink, Shared, StreamWriter, SectorRun, flush}
use go_cfb.Writer.Mini.{MiniStore, write_mini}

-- The writer and the stream, and whether the call succeeded.
abbrev pub Closed : Type 0
Closed = MiniStore × StreamWriter × Bool

abbrev pub with_shared : MiniStore → Shared → MiniStore
with_shared m w = record { shared = w; secs = m.secs; buf = m.buf }

-- `s.buf = nil; s.closed = true`
abbrev pub finished : StreamWriter → StreamWriter
finished s = record { closed = true; buf = []; chain = s.chain; size = s.size }

-- A regular stream: the last partial sector is filled with zeros.
unfoldable pub close_regular : Sink → MiniStore → StreamWriter → Closed
close_regular sink m s =
    let pad = replicate (m.shared.sec_size - length s.buf) 0 in
    let flushed = flush sink m.shared s pad in
    if ltb 0 (length s.buf)
    then if flushed.2
      then (with_shared m flushed.0, finished flushed.1, true)
      else (with_shared m flushed.0, flushed.1, false)
    else (m, finished s, true)

-- The buffer, padded to whole mini sectors.
unfoldable pub padded : List ℕ → List ℕ
padded buf =
    if length buf % mini_sector_size == 0
    then buf
    else buf ++ replicate (mini_sector_size - length buf % mini_sector_size) 0

-- A small stream goes into the mini stream as one run of mini sectors.
unfoldable pub close_mini : Sink → MiniStore → StreamWriter → Closed
close_mini sink m s =
    let total = (length m.secs * m.shared.sec_size + length m.buf) % 2 ^ 64 in
    let first = total / mini_sector_size % 2 ^ 32 in
    let count = length (padded s.buf) / mini_sector_size % 2 ^ 32 in
    let written = write_mini sink m (padded s.buf) in
    let s' : StreamWriter = record {
      closed = true;
      buf = [];
      chain = record { first = first; count = count } ∷ [];
      size = s.size;
    } in
    if written.1 then (written.0, s', true) else (written.0, s, false)

unfoldable pub close : Sink → MiniStore → StreamWriter → Closed
close sink m s =
    if s.closed
    then (m, s, true)
    else if s.size == 0
    then (m, record { closed = true; buf = s.buf; chain = s.chain; size = s.size }, true)
    else if leb mini_stream_cutoff s.size
    then close_regular sink m s
    else close_mini sink m s

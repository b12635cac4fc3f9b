-- ===== src/Writer/Stream.antt =====
-- StreamWriter.Write and flush of writer.go, with the part of the Writer that they share.
--
-- `out` is what has gone through the counting writer, behind the header's sector: byte i of `out` is
-- byte i + secSize of the file. `sink` stands for the underlying io.Writer: asked to take some bytes
-- at a count, it takes all (`none`), or fails after a number of them.
pub mod Runs
pub mod Flush
pub mod Room
pub mod Write
use go_cfb.Base.{
  ℕ, zero, suc, ◌+◌, ◌-◌, ◌*◌, ◌/◌, ◌%◌, ◌^◌, Bool, true, false, ◌&&◌, ◌||◌, List, [], ◌∷◌, ◌++◌,
  Option, none, some, ltb, leb, ◌==◌, if◌then◌else◌, length, take, drop,
}
use go_cfb.Format.{mini_stream_cutoff, stream_size_max_v3}

abbrev pub Sink : Type 0
Sink = ℕ → ℕ → Option ℕ

-- sectorRun
pub record SectorRun : Type 0 where
  pub first : ℕ
  pub count : ℕ

-- The fields of Writer that streams use.
pub record Shared : Type 0 where
  pub sec_size : ℕ
  pub out : List ℕ

-- StreamWriter, without its name and its state bits.
pub record StreamWriter : Type 0 where
  pub closed : Bool
  pub buf : List ℕ
  pub chain : List SectorRun
  pub size : ℕ

pub data WriteError : Type 0 where
  closed_stream too_large failed : WriteError

-- countWriter.count and sectorIdx.
abbrev pub count_of : Shared → ℕ
count_of w = w.sec_size + length w.out

abbrev pub sector_idx : Shared → ℕ
sector_idx w = count_of w / w.sec_size - 1

-- countWriter.Write: the state after it, and whether it took all.
unfoldable pub cw_write : Sink → Shared → List ℕ → Shared × Bool
cw_write sink w p = elim (sink (count_of w) (length p)) [
  | none ↦ (record { sec_size = w.sec_size; out = w.out ++ p }, true)
  | some k ↦ (record { sec_size = w.sec_size; out = w.out ++ take k p }, false)
]

-- The run of new sectors joins the last run if it follows it. The sums are in uint32.
unfoldable pub append_run : List SectorRun → ℕ → ℕ → List SectorRun
append_run [] first sectors = record { first = first; count = sectors } ∷ []
append_run (r ∷ []) first sectors =
    if (r.first + r.count) % 2 ^ 32 == first
    then record { first = r.first; count = (r.count + sectors) % 2 ^ 32 } ∷ []
    else r ∷ record { first = first; count = sectors } ∷ []
append_run (r ∷ s ∷ rs) first sectors = r ∷ append_run (s ∷ rs) first sectors

-- The writer and the stream, and whether the call succeeded.
abbrev pub Flushed : Type 0
Flushed = Shared × StreamWriter × Bool

unfoldable pub flush : Sink → Shared → StreamWriter → List ℕ → Flushed
unfolding append_run
flush sink w s b =
    let sectors = (length s.buf + length b) / w.sec_size % 2 ^ 32 in
    let first = sector_idx w % 2 ^ 32 in
    let one = cw_write sink w s.buf in
    let two = cw_write sink (one.0) b in
    let s' : StreamWriter = record {
      closed = s.closed;
      buf = [];
      chain = append_run s.chain first sectors;
      size = s.size;
    } in
    if one.1 then if two.1 then (two.0, s', true) else (two.0, s, false) else (one.0, s, false)

-- How much of `p` is flushed in this round.
unfoldable pub room_of : Shared → StreamWriter → ℕ → ℕ
room_of w s n =
    if ltb s.size mini_stream_cutoff
    then mini_stream_cutoff - s.size
    else if ltb 0 (length s.buf)
    then w.sec_size - length s.buf
    else n / w.sec_size * w.sec_size

-- `s.buf = append(s.buf, p...)` and `s.size += n`.
abbrev pub buffer : StreamWriter → List ℕ → StreamWriter
buffer s p = record {
  closed = s.closed;
  buf = s.buf ++ p;
  chain = s.chain;
  size = s.size + length p;
}

abbrev pub grow : StreamWriter → ℕ → StreamWriter
grow s n = record { closed = s.closed; buf = s.buf; chain = s.chain; size = s.size + n }

-- The writer and the stream, the number of bytes written and the error, if any.
abbrev pub Written : Type 0
Written = Shared × StreamWriter × ℕ × Option WriteError

-- The loop: each round takes a byte of `p` at least, so `length p` rounds are enough.
unfoldable pub write_loop : ℕ → Sink → Shared → StreamWriter → List ℕ → ℕ → Written
unfolding room_of
write_loop zero sink w s p n = (w, s, n, none)
write_loop (suc fuel) sink w s p n =
    let room = room_of w s (length p) in
    let flushed = flush sink w s (take room p) in
    let next = write_loop fuel sink (flushed.0) (grow flushed.1 room) (drop room p) (n + room) in
    if length p == 0
    then (w, s, n, none)
    else if room == 0 || ltb (length p) room
    then (w, buffer s p, n + length p, none)
    else if flushed.2
    then next
    else (flushed.0, flushed.1, n, some failed)

unfoldable pub write : Sink → Shared → StreamWriter → List ℕ → Written
write sink w s p =
    if s.closed
    then (w, s, 0, some closed_stream)
    else if length p == 0
    then (w, s, 0, none)
    else if w.sec_size == 512 && ltb stream_size_max_v3 (s.size + length p)
    then (w, s, 0, some too_large)
    else write_loop (length p + 1) sink w s p 0

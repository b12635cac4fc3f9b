-- ===== src/Writer/Mini.antt =====
-- writeMini of writer.go: small streams go into the mini stream.
pub mod Holds
use go_cfb.Base.{
  ℕ, zero, suc, ◌+◌, ◌-◌, ◌^◌, ◌%◌, min, Bool, true, false, List, [], ◌∷◌, ◌++◌, ◌==◌,
  if◌then◌else◌, length, take, drop,
}
use go_cfb.Writer.Stream.{Sink, Shared, sector_idx, cw_write}

-- The fields of Writer that hold the mini stream: its full sectors, and the bytes after them.
pub record MiniStore : Type 0 where
  pub shared : Shared
  pub secs : List ℕ
  pub buf : List ℕ

-- The write of a full sector: the store after it, and whether it succeeded.
unfoldable pub flush_mini : Sink → MiniStore → MiniStore × Bool
flush_mini sink m =
    let sec = sector_idx m.shared % 2 ^ 32 in
    let written = cw_write sink m.shared m.buf in
    if written.1
    then (record { shared = written.0; secs = m.secs ++ (sec ∷ []); buf = [] }, true)
    else (record { shared = written.0; secs = m.secs; buf = m.buf }, false)

abbrev pub with_buf : MiniStore → List ℕ → MiniStore
with_buf m p = record { shared = m.shared; secs = m.secs; buf = m.buf ++ p }

-- The loop: each round takes a byte of `p` at least, so `length p` rounds are enough.
unfoldable pub mini_rounds : ℕ → Sink → MiniStore → List ℕ → MiniStore × Bool
mini_rounds zero sink m p = (m, true)
mini_rounds (suc fuel) sink m p =
    let n = min (length p) (m.shared.sec_size - length m.buf) in
    let filled = with_buf m (take n p) in
    let flushed = flush_mini sink filled in
    let later = mini_rounds fuel sink filled (drop n p) in
    let next = mini_rounds fuel sink (flushed.0) (drop n p) in
    if length p == 0
    then (m, true)
    else if length filled.buf == m.shared.sec_size
    then if flushed.1 then next else flushed
    else later

unfoldable pub write_mini : Sink → MiniStore → List ℕ → MiniStore × Bool
write_mini sink m p = mini_rounds (length p + 1) sink m p

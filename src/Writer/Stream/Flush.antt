-- ===== src/Writer/Stream/Flush.antt =====
-- flush writes the buffer and its argument as whole sectors, and records them in the chain.
use go_cfb.Base.{
  ℕ, suc, ◌+◌, ◌*◌, ◌/◌, ◌%◌, ◌^◌, ◌<◌, ◌≡◌, refl, sym, ap, ◌∙◌, List, [], ◌++◌, none, arith, true,
  length, length-append,
}
use mathlib.Core.Path.{ap₂}
use mathlib.Core.List.{append_assoc, append-nil}
use native.Mathlib.Nat.{mul-div_cancel, mul-lt-mul_of_pos_right}
use go_cfb.Base.Slices.{drop_left, take_all}
use go_cfb.Reader.Stream.Content.{slice}
use go_cfb.Writer.Stream.{Sink, Shared, StreamWriter, sector_idx, cw_write, append_run, flush}
use go_cfb.Writer.Stream.Runs.{
  chain_bytes, InOut, chain_bytes-append, InOut-append, append_run_bytes,
}

-- The underlying writer takes everything.
abbrev pub Accepts : Sink → Type 0
Accepts sink = (count n : ℕ) → sink count n ≡ none

-- The output is whole sectors, and the stream has been given `given`: its chain's sectors, and then
-- the buffer.
pub record Holds (w : Shared) (s : StreamWriter) (given : List ℕ) : Type 0 where
  pub sectors : ℕ
  pub whole : length w.out ≡ sectors * w.sec_size
  pub inside : InOut w.sec_size w.out s.chain
  pub content : chain_bytes w.sec_size w.out s.chain ++ s.buf ≡ given

-- The writer and the stream after a flush of `m` sectors behind `k`.
abbrev pub flushed_writer : Shared → StreamWriter → List ℕ → Shared
flushed_writer w s b = record { sec_size = w.sec_size; out = (w.out ++ s.buf) ++ b }

abbrev pub flushed_stream : StreamWriter → ℕ → ℕ → StreamWriter
flushed_stream s k m = record {
  closed = s.closed;
  buf = [];
  chain = append_run s.chain k m;
  size = s.size;
}

div_whole : (k size : ℕ) → 0 < size → k * size / size ≡ k
div_whole k size pos = mul-div_cancel k pos

pub sector_idx-whole :
    (w : Shared) (k : ℕ) → 0 < w.sec_size → length w.out ≡ k * w.sec_size → sector_idx w ≡ k
sector_idx-whole w k pos e =
    let sum : w.sec_size + length w.out ≡ suc k * w.sec_size = omega (arith, e) in
    rw sum (omega (arith, div_whole (suc k) w.sec_size pos))

pub cw_write-Accepts :
    (sink : Sink)
    → Accepts sink
    → (w : Shared) (p : List ℕ)
    → cw_write sink w p ≡ (record { sec_size = w.sec_size; out = w.out ++ p }, true)
unfolding cw_write
cw_write-Accepts sink accepts w p =
    rw (accepts (w.sec_size + length w.out) (length p), cw_write) refl

module _ (sink : Sink) (accepts : Accepts sink) (w : Shared) (s : StreamWriter) (b : List ℕ) (m : ℕ)
    (pos : 0 < w.sec_size) (full : length s.buf + length b ≡ m * w.sec_size) where
  pub flush-eq :
      (k : ℕ)
      → length w.out ≡ k * w.sec_size
      → k + m < 2 ^ 32
      → flush sink w s b ≡ (flushed_writer w s b, flushed_stream s k m, true)
  unfolding flush
  flush-eq k whole small =
      let many : (length s.buf + length b) / w.sec_size % 2 ^ 32 ≡ m =
        rw (full, div_whole m w.sec_size pos) (omega (arith, small)) in
      let at : sector_idx w % 2 ^ 32 ≡ k =
        rw (sector_idx-whole w k pos whole) (omega (arith, small)) in
      rw (many, at, cw_write-Accepts sink accepts w s.buf)
        (rw
          (cw_write-Accepts sink accepts (record { sec_size = w.sec_size; out = w.out ++ s.buf }) b)
          refl)

  pub flush-Holds :
      (given : List ℕ) (h : Holds w s given)
      → h.sectors + m < 2 ^ 32
      → Holds (flushed_writer w s b) (flushed_stream s h.sectors m) (given ++ b)
  flush-Holds given h small = record {
    sectors = h.sectors + m;
    whole =
        omega (arith, h.whole, full, length-append (w.out ++ s.buf) b, length-append w.out s.buf);
    inside = appended.1;
    content =
        append-nil _
        ∙ appended.0
        ∙ ap₂ (λ xs ys. xs ++ ys) old fresh
        ∙ sym (append_assoc (chain_bytes w.sec_size w.out s.chain) s.buf b)
        ∙ ap (λ xs. xs ++ b) h.content;
  }
    where
      out : List ℕ
      out = (w.out ++ s.buf) ++ b

      long : length out ≡ (h.sectors + m) * w.sec_size
      long =
          omega (arith, h.whole, full, length-append (w.out ++ s.buf) b, length-append w.out s.buf)

      narrow : length out < 2 ^ 32 * w.sec_size
      narrow = rw long (mul-lt-mul_of_pos_right small pos)

      appended :
          (chain_bytes w.sec_size out (append_run s.chain h.sectors m)
            ≡ chain_bytes w.sec_size out s.chain
              ++ slice out (h.sectors * w.sec_size) (m * w.sec_size))
          × InOut w.sec_size out (append_run s.chain h.sectors m)
      appended = append_run_bytes w.sec_size out h.sectors m (omega (arith, long)) narrow s.chain (
          InOut-append w.sec_size (w.out ++ s.buf) b s.chain
            (InOut-append w.sec_size w.out s.buf s.chain h.inside))

      old : chain_bytes w.sec_size out s.chain ≡ chain_bytes w.sec_size w.out s.chain
      old =
          chain_bytes-append w.sec_size (w.out ++ s.buf) b s.chain
            (InOut-append w.sec_size w.out s.buf s.chain h.inside)
          ∙ chain_bytes-append w.sec_size w.out s.buf s.chain h.inside

      fresh : slice out (h.sectors * w.sec_size) (m * w.sec_size) ≡ s.buf ++ b
      fresh =
          rw
            (
              append_assoc w.out s.buf b,
              drop_left (h.sectors * w.sec_size) w.out (s.buf ++ b) h.whole,
            )
            (take_all (m * w.sec_size) (s.buf ++ b) (omega (arith, full, length-append s.buf b)))

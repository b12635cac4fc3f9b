-- ===== src/Writer/Close/Regular.antt =====
-- A regular stream is on disk when it is closed.
use go_cfb.Base.{
  ℕ, ◌+◌, ◌-◌, ◌*◌, ◌^◌, ◌≤◌, ◌<◌, ◌≡◌, refl, sym, ap, ◌∙◌, true, false, List, [], ◌∷◌, ◌++◌, arith,
  ltb, length, replicate, length-replicate, take,
}
use mathlib.Core.List.{append-nil}
use native.Mathlib.Decide.{dec_lt}
use go_cfb.Base.Slices.{take_left, take_all}
use go_cfb.Format.{mini_stream_cutoff}
use go_cfb.Writer.Stream.{Sink, StreamWriter, flush}
use go_cfb.Writer.Stream.Runs.{chain_bytes, cancel}
use go_cfb.Writer.Stream.Flush.{
  Accepts, Holds, flushed_writer, flushed_stream, flush-eq, flush-Holds,
}
use go_cfb.Writer.Stream.Room.{IsReady, sized-positive}
use go_cfb.Writer.Mini.{MiniStore}
use go_cfb.Writer.Close.{Closed, finished, with_shared, close_regular, close}

-- The call succeeds, and the sectors of the chain start with `given`.
pub record IsOnDisk (given : List ℕ) (r : Closed) : Type 0 where
  pub no_error : r.2 ≡ true
  pub closed : r.1.closed ≡ true
  pub size : r.1.size ≡ length given
  pub content : take r.1.size (chain_bytes r.0.shared.sec_size r.0.shared.out r.1.chain) ≡ given

module _ (sink : Sink) (accepts : Accepts sink) (m : MiniStore) (s : StreamWriter) (given : List ℕ)
    (h : Holds m.shared s given) (v : IsReady m.shared s) (sized : s.size ≡ length given)
    (large : mini_stream_cutoff ≤ s.size)
    (small : length m.shared.out + m.shared.sec_size < 2 ^ 32 * m.shared.sec_size) where
  abbrev pad : List ℕ
  pad = replicate (m.shared.sec_size - length s.buf) 0

  full : length s.buf + length pad ≡ 1 * m.shared.sec_size
  full = omega (arith, length-replicate {A = ℕ} (m.shared.sec_size - length s.buf) 0, v.large large)

  narrow : h.sectors + 1 < 2 ^ 32
  narrow = cancel (h.sectors + 1) (2 ^ 32) m.shared.sec_size (omega (arith, h.whole, small))

  flushed :
      flush sink m.shared s pad
      ≡ (flushed_writer m.shared s pad, flushed_stream s h.sectors 1, true)
  flushed =
      flush-eq sink accepts m.shared s pad 1 (sized-positive m.shared v.sized) full h.sectors
        h.whole narrow

  close_regular_padded :
      0 < length s.buf
      → close_regular sink m s ≡ (
        with_shared m (flushed_writer m.shared s pad),
        finished (flushed_stream s h.sectors 1),
        true,
      )
  unfolding close_regular
  close_regular_padded some_left =
      let start : ltb 0 (length s.buf) ≡ true = ground (arith, some_left) in
      rw (start, flushed) refl

  close_regular_whole : length s.buf ≡ 0 → close_regular sink m s ≡ (m, finished s, true)
  unfolding close_regular
  close_regular_whole none_left =
      let start : ltb 0 (length s.buf) ≡ false = ground (arith, none_left) in rw start refl

  whole_content :
      (buf : List ℕ)
      → length buf ≡ 0
      → chain_bytes m.shared.sec_size m.shared.out s.chain ++ buf ≡ given
      → take s.size (chain_bytes m.shared.sec_size m.shared.out s.chain) ≡ take s.size given
  whole_content [] none_left content = ap (take s.size) (sym (append-nil _) ∙ content)
  whole_content (x ∷ buf) none_left content = absurd (omega (arith, none_left))

  close_regular-IsOnDisk : IsOnDisk given (close_regular sink m s)
  close_regular-IsOnDisk = elim (dec_lt 0 (length s.buf)) [
    | yes some_left ↦ rw (close_regular_padded some_left) (record {
      no_error = refl;
      closed = refl;
      size = sized;
      content =
          (ap (take s.size) (
              sym (append-nil _)
              ∙ (flush-Holds sink accepts m.shared s pad 1 (sized-positive m.shared v.sized) full
                  given h narrow).content)
            ∙ take_left s.size given pad (sym sized));
    })
    | no none_left ↦ rw (close_regular_whole (omega arith)) (record {
      no_error = refl;
      closed = refl;
      size = sized;
      content =
          (whole_content s.buf (omega arith) h.content
            ∙ take_all s.size given (omega (arith, sized)));
    })
  ]

close_large :
    (sink : Sink) (m : MiniStore) (s : StreamWriter)
    → s.closed ≡ false
    → mini_stream_cutoff ≤ s.size
    → close sink m s ≡ close_regular sink m s
unfolding close
close_large sink m s opened large = ground (arith, opened, large)

-- Close on an open stream of the cutoff size or more, over an underlying writer that takes
-- everything: it succeeds, and the sectors of the stream's chain start with all that was written.
pub close-IsOnDisk :
    (sink : Sink) (m : MiniStore) (s : StreamWriter) (given : List ℕ)
    → Accepts sink
    → Holds m.shared s given
    → IsReady m.shared s
    → s.size ≡ length given
    → s.closed ≡ false
    → mini_stream_cutoff ≤ s.size
    → length m.shared.out + m.shared.sec_size < 2 ^ 32 * m.shared.sec_size
    → IsOnDisk given (close sink m s)
close-IsOnDisk sink m s given accepts h v sized opened large small =
    rw (close_large sink m s opened large)
      (close_regular-IsOnDisk sink accepts m s given h v sized large small)

-- ===== src/Writer/Stream/Write.antt =====
-- StreamWriter.Write over an underlying writer that takes everything.
use go_cfb.Base.{
  ℕ, zero, suc, ◌+◌, ◌*◌, ◌^◌, ◌≤◌, ◌<◌, ◌≡◌, refl, sym, ap, ◌∙◌, List, [], ◌∷◌, ◌++◌, none, arith,
  true, false, ◌⊎◌, inl, inr, ltb, ◌==◌, Bool-cases, ◌||◌, length, length-append, take, drop,
  length-take, length-drop,
}
use native.Mathlib.Decide.{dec_lt}
use mathlib.Core.Path.{subst}
use mathlib.Core.List.{append_assoc, append-nil}
use go_cfb.Format.{stream_size_max_v3}
use go_cfb.Writer.Stream.{
  Sink, Shared, StreamWriter, room_of, buffer, grow, Written, write_loop, write,
}
use go_cfb.Writer.Stream.Runs.{cancel}
use go_cfb.Writer.Stream.Room.{IsReady, IsFull, room_of-IsFull, take-drop, sized-positive}
use go_cfb.Writer.Stream.Flush.{
  Accepts, Holds, flushed_writer, flushed_stream, flush-eq, flush-Holds,
}

-- `p` is written: the state that holds `given`, and then `p`, and the count.
pub record IsWritten (given p : List ℕ) (n : ℕ) (r : Written) : Type 0 where
  pub holds : Holds (r.0) (r.1) (given ++ p)
  pub ready : IsReady (r.0) (r.1)
  pub grown : r.1.size ≡ length given + length p
  pub count : r.2 ≡ n
  pub no_error : r.3 ≡ none

-- A round that only fills the buffer.
buffer-IsWritten :
    (w : Shared) (s : StreamWriter) (given p : List ℕ) (n : ℕ)
    → Holds w s given
    → IsReady w s
    → s.size ≡ length given
    → ((room_of w s (length p) == 0) || ltb (length p) (room_of w s (length p))) ≡ true
    → IsWritten given p n (w, buffer s p, n, none)
unfolding room_of
buffer-IsWritten w s given p n h v e part = record {
  holds = record {
    sectors = h.sectors;
    whole = h.whole;
    inside = h.inside;
    content = sym (append_assoc _ s.buf p) ∙ ap (λ xs. xs ++ p) h.content;
  };
  ready = record {
    sized = v.sized;
    small = λ q. ground (arith, v.small, length-append s.buf p, part);
    large = λ q. ground (arith, v.small, v.large, length-append s.buf p, part);
  };
  grown = rw (← e) refl;
  count = refl;
  no_error = refl;
}

write_loop_done :
    (sink : Sink) (fuel : ℕ) (w : Shared) (s : StreamWriter) (p : List ℕ) (n : ℕ)
    → length p ≡ 0
    → write_loop (suc fuel) sink w s p n ≡ (w, s, n, none)
unfolding write_loop
write_loop_done sink fuel w s p n done =
    let start : (length p == 0) ≡ true = ground (arith, done) in rw start refl

nothing-IsWritten :
    (w : Shared) (s : StreamWriter) (given p : List ℕ) (n : ℕ)
    → Holds w s given
    → IsReady w s
    → s.size ≡ length given
    → length p ≡ 0
    → IsWritten given p (n + length p) (w, s, n, none)
nothing-IsWritten w s given [] n h v e done = record {
  holds = subst (Holds w s) (sym (append-nil given)) h;
  ready = v;
  grown = omega (arith, e);
  count = omega arith;
  no_error = refl;
}
nothing-IsWritten w s given (x ∷ p) n h v e done = absurd (omega (arith, done))

write_loop_part :
    (sink : Sink) (fuel : ℕ) (w : Shared) (s : StreamWriter) (p : List ℕ) (n : ℕ)
    → ((room_of w s (length p) == 0) || ltb (length p) (room_of w s (length p))) ≡ true
    → 0 < length p
    → write_loop (suc fuel) sink w s p n ≡ (w, buffer s p, n + length p, none)
unfolding write_loop
write_loop_part sink fuel w s p n part some_left =
    let start : (length p == 0) ≡ false = ground (arith, some_left) in rw (start, part) refl

module _ (sink : Sink) (accepts : Accepts sink) where
  -- A round that flushes the sectors of `f`.
  module _ (w : Shared) (s : StreamWriter) (given p : List ℕ) (h : Holds w s given)
      (v : IsReady w s) (e : s.size ≡ length given)
      (small : length w.out + length s.buf + length p < 2 ^ 32 * w.sec_size)
      (whole : ((room_of w s (length p) == 0) || ltb (length p) (room_of w s (length p))) ≡ false)
      (f : IsFull w s (room_of w s (length p))) where
    abbrev part : List ℕ
    part = take (room_of w s (length p)) p

    nonzero : 0 < room_of w s (length p)
    nonzero = ground (arith, whole)

    fits : room_of w s (length p) ≤ length p
    fits = ground (arith, whole)

    got : length s.buf + length part ≡ f.sectors * w.sec_size
    got = omega (arith, f.whole, length-take (room_of w s (length p)) p, fits)

    narrow : h.sectors + f.sectors < 2 ^ 32
    narrow =
        cancel (h.sectors + f.sectors) (2 ^ 32) w.sec_size
          (omega (arith, f.whole, fits, h.whole, small))

    abbrev after : Shared
    after = flushed_writer w s part

    abbrev stream_after : StreamWriter
    stream_after = grow (flushed_stream s h.sectors f.sectors) (room_of w s (length p))

    after-Holds : Holds after stream_after (given ++ part)
    after-Holds =
        let r =
          flush-Holds sink accepts w s part f.sectors (sized-positive w v.sized) got given h
            narrow in
        record { sectors = r.sectors; whole = r.whole; inside = r.inside; content = r.content }

    after-IsReady : IsReady after stream_after
    after-IsReady = record {
      sized = v.sized;
      small = λ q. absurd (omega (arith, f.past, q));
      large = λ q. sized-positive w v.sized;
    }

    write_loop_flush :
        (fuel n : ℕ)
        → write_loop (suc fuel) sink w s p n
          ≡ write_loop fuel sink after stream_after
              (drop (room_of w s (length p)) p)
              (n + room_of w s (length p))
    unfolding write_loop
    write_loop_flush fuel n =
        let start : (length p == 0) ≡ false = ground (arith, nonzero, fits) in
        rw
          (
            start,
            whole,
            flush-eq sink accepts w s part f.sectors (sized-positive w v.sized) got h.sectors
                h.whole narrow,
          )
          refl

    IsWritten-rest :
        (n : ℕ) (r : Written)
        → IsWritten
            (given ++ part)
            (drop (room_of w s (length p)) p)
            (n + room_of w s (length p) + length (drop (room_of w s (length p)) p))
            r
        → IsWritten given p (n + length p) r
    IsWritten-rest n r d =
        let bytes : (given ++ part) ++ drop (room_of w s (length p)) p ≡ given ++ p =
          append_assoc given part (drop (room_of w s (length p)) p)
          ∙ ap (λ xs. given ++ xs) (take-drop (room_of w s (length p)) p) in
        let left : length (drop (room_of w s (length p)) p) + room_of w s (length p) ≡ length p =
          omega (arith, length-drop (room_of w s (length p)) p, fits) in
        record {
          holds = subst (Holds (r.0) (r.1)) bytes d.holds;
          ready = d.ready;
          grown = omega (
            arith,
            d.grown,
            length-append given part,
            length-take (room_of w s (length p)) p,
            fits,
            left,
          );
          count = omega (arith, d.count, left);
          no_error = d.no_error;
        }

    grown_after : stream_after.size ≡ length (given ++ part)
    grown_after =
        omega (arith, e, length-append given part, length-take (room_of w s (length p)) p, fits)

    small_after :
        length after.out + length stream_after.buf + length (drop (room_of w s (length p)) p)
        < 2 ^ 32 * after.sec_size
    small_after = omega (
      arith,
      small,
      fits,
      got,
      f.whole,
      length-append (w.out ++ s.buf) part,
      length-append w.out s.buf,
      length-drop (room_of w s (length p)) p,
    )

  write_loop-IsWritten :
      (fuel : ℕ) (w : Shared) (s : StreamWriter) (given p : List ℕ) (n : ℕ)
      → Holds w s given
      → IsReady w s
      → s.size ≡ length given
      → length p < fuel
      → length w.out + length s.buf + length p < 2 ^ 32 * w.sec_size
      → IsWritten given p (n + length p) (write_loop fuel sink w s p n)
  write_loop-IsWritten zero w s given p n h v e enough small = absurd (omega arith)
  write_loop-IsWritten (suc fuel) w s given p n h v e enough small = elim (dec_lt 0 (length p)) [
    | no none_left ↦
        rw (write_loop_done sink fuel w s p n (omega arith))
          (nothing-IsWritten w s given p n h v e (omega arith))
    | yes some_left ↦
        elim (Bool-cases
          ((room_of w s (length p) == 0) || ltb (length p) (room_of w s (length p)))) [
            | inl partial ↦
                rw (write_loop_part sink fuel w s p n partial some_left)
                  (buffer-IsWritten w s given p (n + length p) h v e partial)
            | inr whole ↦
                let f = room_of-IsFull w s (length p) v in
                let left : length (drop (room_of w s (length p)) p) < fuel = omega (
                  arith,
                  enough,
                  length-drop (room_of w s (length p)) p,
                  nonzero w s given p h v e small whole f,
                  fits w s given p h v e small whole f,
                ) in
                rw (write_loop_flush w s given p h v e small whole f fuel n) (
                  IsWritten-rest w s given p h v e small whole f n _ (
                    write_loop-IsWritten fuel _ _ _ (drop (room_of w s (length p)) p)
                      (n + room_of w s (length p)) (after-Holds w s given p h v e small whole f)
                      (after-IsReady w s given p h v e small whole f)
                      (grown_after w s given p h v e small whole f) left
                      (small_after w s given p h v e small whole f)))
          ]
  ]

write-some :
    (sink : Sink) (w : Shared) (s : StreamWriter) (p : List ℕ)
    → s.closed ≡ false
    → (w.sec_size ≡ 512 → s.size + length p ≤ stream_size_max_v3)
    → ((length p ≡ 0) × (write sink w s p ≡ (w, s, 0, none)))
      ⊎ (write sink w s p ≡ write_loop (length p + 1) sink w s p 0)
unfolding write
write-some sink w s p opened limit = ground (arith, opened, limit)

counted :
    (sink : Sink) (w : Shared) (s : StreamWriter) (given p : List ℕ)
    → Accepts sink
    → Holds w s given
    → IsReady w s
    → s.size ≡ length given
    → s.closed ≡ false
    → (w.sec_size ≡ 512 → s.size + length p ≤ stream_size_max_v3)
    → length w.out + length s.buf + length p < 2 ^ 32 * w.sec_size
    → IsWritten given p (0 + length p) (write sink w s p)
counted sink w s given p accepts h v e opened limit small =
    elim (write-some sink w s p opened limit) [
      | inl (none_left, eq) ↦ rw eq (nothing-IsWritten w s given p 0 h v e none_left)
      | inr eq ↦
          rw eq (
            write_loop-IsWritten sink accepts (length p + 1) w s given p 0 h v e (omega arith)
              small)
    ]

-- Write on an open stream over an underlying writer that takes everything: it takes all of `p`
-- without an error, and from then on the chain's sectors and the buffer are what was there and then
-- `p`. The version 3 limit on a stream and the number of sectors of the file are not exceeded.
pub write-IsWritten :
    (sink : Sink) (w : Shared) (s : StreamWriter) (given p : List ℕ)
    → Accepts sink
    → Holds w s given
    → IsReady w s
    → s.size ≡ length given
    → s.closed ≡ false
    → (w.sec_size ≡ 512 → s.size + length p ≤ stream_size_max_v3)
    → length w.out + length s.buf + length p < 2 ^ 32 * w.sec_size
    → IsWritten given p (length p) (write sink w s p)
write-IsWritten sink w s given p accepts h v e opened limit small =
    subst (λ k. IsWritten given p k (write sink w s p)) (omega arith)
      (counted sink w s given p accepts h v e opened limit small)

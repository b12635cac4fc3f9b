-- ===== src/Writer/Mini/Holds.antt =====
-- The mini stream holds what has been written to it.
use go_cfb.Base.{
  ℕ, zero, suc, ◌+◌, ◌-◌, ◌*◌, ◌^◌, ◌%◌, min, ◌<◌, ◌≡◌, refl, sym, ap, ◌∙◌, Bool, arith, true,
  false, List, [], ◌∷◌, ◌++◌, map, ◌==◌, length, length-append, length-take, length-drop, take,
  drop,
}
use mathlib.Core.Path.{ap₂, subst}
use mathlib.Core.List.{append_assoc, append-nil, map-append}
use native.Mathlib.Decide.{dec_lt}
use go_cfb.Base.Slices.{drop_left, take_all}
use go_cfb.Writer.Stream.{Sink, SectorRun, sector_idx}
use go_cfb.Writer.Stream.Runs.{
  run_bytes, chain_bytes, InOut, chain_bytes-append, InOut-append, cancel,
}
use go_cfb.Writer.Stream.Flush.{Accepts, sector_idx-whole, cw_write-Accepts}
use go_cfb.Writer.Stream.Room.{take-drop}
use go_cfb.Writer.Mini.{MiniStore, flush_mini, with_buf, mini_rounds, write_mini}

-- The sectors of the mini stream, as runs.
abbrev pub one_sector : ℕ → SectorRun
one_sector sec = record { first = sec; count = 1 }

abbrev pub runs_of : MiniStore → List SectorRun
runs_of m = map one_sector m.secs

-- The output is whole sectors, the buffer is less than one, and the mini stream holds `given`.
pub record MiniHolds (m : MiniStore) (given : List ℕ) : Type 0 where
  pub sectors : ℕ
  pub whole : length m.shared.out ≡ sectors * m.shared.sec_size
  pub partial : length m.buf < m.shared.sec_size
  pub inside : InOut m.shared.sec_size m.shared.out (runs_of m)
  pub content : chain_bytes m.shared.sec_size m.shared.out (runs_of m) ++ m.buf ≡ given

chain_bytes-snoc :
    (size : ℕ) (out : List ℕ) (rs : List SectorRun) (r : SectorRun)
    → chain_bytes size out (rs ++ (r ∷ []))
      ≡ chain_bytes size out rs ++ chain_bytes size out (r ∷ [])
chain_bytes-snoc size out [] r = refl
chain_bytes-snoc size out (x ∷ rs) r =
    ap (λ xs. run_bytes size out x ++ xs) (chain_bytes-snoc size out rs r)
    ∙ sym (append_assoc (run_bytes size out x) (chain_bytes size out rs) _)

InOut-snoc :
    (size : ℕ) (out : List ℕ) (rs : List SectorRun) (r : SectorRun)
    → InOut size out rs
    → InOut size out (r ∷ [])
    → InOut size out (rs ++ (r ∷ []))
InOut-snoc size out [] r h k = k
InOut-snoc size out (x ∷ rs) r (h, hs) k = (h, InOut-snoc size out rs r hs k)

-- The store before its full buffer is written, and after.
module _ (sink : Sink) (accepts : Accepts sink) (m : MiniStore) (k : ℕ)
    (whole : length m.shared.out ≡ k * m.shared.sec_size) (full : length m.buf ≡ m.shared.sec_size)
    (positive : 0 < m.shared.sec_size) (small : k < 2 ^ 32) where
  abbrev out : List ℕ
  out = m.shared.out ++ m.buf

  abbrev size : ℕ
  size = m.shared.sec_size

  abbrev after : MiniStore
  after = record {
    shared = record { sec_size = m.shared.sec_size; out = out };
    secs = m.secs ++ (k ∷ []);
    buf = [];
  }

  flush_mini-eq : flush_mini sink m ≡ (after, true)
  unfolding flush_mini
  flush_mini-eq =
      let at : sector_idx m.shared % 2 ^ 32 ≡ k =
        rw (sector_idx-whole m.shared k positive whole) (omega (arith, small)) in
      rw (at, cw_write-Accepts sink accepts m.shared m.buf) refl

  after-MiniHolds :
      (given : List ℕ)
      → InOut size m.shared.out (runs_of m)
      → chain_bytes size m.shared.out (runs_of m) ++ m.buf ≡ given
      → MiniHolds after given
  after-MiniHolds given inside content = record {
    sectors = k + 1;
    whole = omega (arith, whole, full, length-append m.shared.out m.buf);
    partial = positive;
    inside = rw (map-append _ m.secs (k ∷ [])) (
        InOut-snoc size out (runs_of m) (one_sector k)
          (InOut-append size m.shared.out m.buf (runs_of m) inside)
          (omega (arith, whole, full, length-append m.shared.out m.buf), tt));
    content =
        append-nil _
        ∙ ap (chain_bytes size out) (map-append one_sector m.secs (k ∷ []))
        ∙ chain_bytes-snoc size out (runs_of m) (one_sector k)
        ∙ ap₂ (λ xs ys. xs ++ ys) (chain_bytes-append size m.shared.out m.buf (runs_of m) inside)
            fresh
        ∙ content;
  }
    where
      fresh : chain_bytes size out (one_sector k ∷ []) ≡ m.buf
      fresh =
          append-nil _
          ∙ ap (take (1 * size)) (drop_left (k * size) m.shared.out m.buf whole)
          ∙ take_all (1 * size) m.buf (omega (arith, full))

-- The three ways of a round: nothing is left, the sector is full, or it is not.
module _ (sink : Sink) (fuel : ℕ) (m : MiniStore) (p : List ℕ) where
  abbrev pub taken : ℕ
  taken = min (length p) (m.shared.sec_size - length m.buf)

  abbrev pub filled : MiniStore
  filled = with_buf m (take taken p)

  mini_rounds_done : length p ≡ 0 → mini_rounds (suc fuel) sink m p ≡ (m, true)
  unfolding mini_rounds
  mini_rounds_done e = let start : (length p == 0) ≡ true = ground (arith, e) in rw start refl

  mini_rounds_full :
      0 < length p
      → length filled.buf ≡ m.shared.sec_size
      → (flush_mini sink filled).1 ≡ true
      → mini_rounds (suc fuel) sink m p
        ≡ mini_rounds fuel sink (flush_mini sink filled).0 (drop taken p)
  unfolding mini_rounds
  mini_rounds_full some_left full flushed =
      let start : (length p == 0) ≡ false = ground (arith, some_left) in
      let end : (length filled.buf == m.shared.sec_size) ≡ true = ground (arith, full) in
      rw (start, end, flushed) refl

  mini_rounds_later :
      0 < length p
      → length filled.buf < m.shared.sec_size
      → mini_rounds (suc fuel) sink m p ≡ mini_rounds fuel sink filled (drop taken p)
  unfolding mini_rounds
  mini_rounds_later some_left room =
      let start : (length p == 0) ≡ false = ground (arith, some_left) in
      let end : (length filled.buf == m.shared.sec_size) ≡ false = ground (arith, room) in
      rw (start, end) refl

-- All of `p` is in the mini stream.
abbrev pub IsStored : List ℕ → List ℕ → MiniStore × Bool → Type 0
IsStored given p r = MiniHolds r.0 (given ++ p) × (r.1 ≡ true)

IsStored-rest :
    (k : ℕ) (given p : List ℕ) (r : MiniStore × Bool)
    → IsStored (given ++ take k p) (drop k p) r
    → IsStored given p r
IsStored-rest k given p r (h, done) = (
  subst (MiniHolds r.0)
      (append_assoc given (take k p) (drop k p) ∙ ap (λ xs. given ++ xs) (take-drop k p)) h,
  done,
)

nothing-IsStored :
    (m : MiniStore) (given p : List ℕ)
    → MiniHolds m given
    → length p ≡ 0
    → IsStored given p (m, true)
nothing-IsStored m given [] h e = (subst (MiniHolds m) (sym (append-nil given)) h, refl)
nothing-IsStored m given (x ∷ p) h e = absurd (omega (arith, e))

module _ (sink : Sink) (accepts : Accepts sink) where
  -- The store with the taken bytes, and what they add to it.
  module _ (fuel : ℕ) (m : MiniStore) (given p : List ℕ) (h : MiniHolds m given) where
    filled_content :
        chain_bytes m.shared.sec_size m.shared.out (runs_of m) ++ (filled sink fuel m p).buf
        ≡ given ++ take (taken sink fuel m p) p
    filled_content =
        sym (
          append_assoc (chain_bytes m.shared.sec_size m.shared.out (runs_of m)) m.buf
            (take (taken sink fuel m p) p))
        ∙ ap (λ xs. xs ++ take (taken sink fuel m p) p) h.content

    length-filled : length (filled sink fuel m p).buf ≡ length m.buf + taken sink fuel m p
    length-filled = omega (
      arith,
      length-append m.buf (take (taken sink fuel m p) p),
      length-take (taken sink fuel m p) p,
    )

    length-left : length (drop (taken sink fuel m p) p) + taken sink fuel m p ≡ length p
    length-left = omega (arith, length-drop (taken sink fuel m p) p)

    filled-MiniHolds :
        length (filled sink fuel m p).buf < m.shared.sec_size
        → MiniHolds (filled sink fuel m p) (given ++ take (taken sink fuel m p) p)
    filled-MiniHolds room = record {
      sectors = h.sectors;
      whole = h.whole;
      partial = room;
      inside = h.inside;
      content = filled_content;
    }

  mini_rounds-IsStored :
      (fuel : ℕ) (m : MiniStore) (given p : List ℕ)
      → MiniHolds m given
      → length p < fuel
      → length m.shared.out + length m.buf + length p < 2 ^ 32 * m.shared.sec_size
      → IsStored given p (mini_rounds fuel sink m p)
  mini_rounds-IsStored zero m given p h enough small = absurd (omega arith)
  mini_rounds-IsStored (suc fuel) m given p h enough small = elim (dec_lt 0 (length p)) [
    | no none_left ↦
        rw (mini_rounds_done sink fuel m p (omega arith))
          (nothing-IsStored m given p h (omega arith))
    | yes some_left ↦ elim (dec_lt (length (filled sink fuel m p).buf) m.shared.sec_size) [
      | yes room ↦ rw (mini_rounds_later sink fuel m p some_left room) (
          IsStored-rest (taken sink fuel m p) given p _ (
            mini_rounds-IsStored fuel (filled sink fuel m p) (given ++ take (taken sink fuel m p) p)
              (drop (taken sink fuel m p) p) (filled-MiniHolds fuel m given p h room)
              (omega (arith, length-left fuel m given p h, h.partial))
              (omega (arith, length-left fuel m given p h, length-filled fuel m given p h))))
      | no full ↦
          let whole : length (filled sink fuel m p).buf ≡ m.shared.sec_size =
            omega (arith, full, length-filled fuel m given p h, h.partial) in
          let positive : 0 < m.shared.sec_size = omega (arith, h.partial) in
          let fits = cancel h.sectors (2 ^ 32) m.shared.sec_size (omega (arith, h.whole, small)) in
          let flushed =
            flush_mini-eq sink accepts (filled sink fuel m p) h.sectors h.whole whole positive
              fits in
          rw (mini_rounds_full sink fuel m p some_left whole (ap (λ r. r.1) flushed), flushed)
            (IsStored-rest (taken sink fuel m p) given p _ (
              mini_rounds-IsStored fuel
                (after sink accepts (filled sink fuel m p) h.sectors h.whole whole positive fits)
                (given ++ take (taken sink fuel m p) p) (drop (taken sink fuel m p) p)
                (after-MiniHolds sink accepts (filled sink fuel m p) h.sectors h.whole whole
                  positive fits (given ++ take (taken sink fuel m p) p) h.inside
                  (filled_content fuel m given p h))
                (omega (
                  arith,
                  length-left fuel m given p h,
                  whole,
                  length-filled fuel m given p h,
                  h.partial,
                ))
                (omega (
                  arith,
                  length-left fuel m given p h,
                  whole,
                  length-filled fuel m given p h,
                  length-append m.shared.out (filled sink fuel m p).buf,
                ))))
    ]
  ]

-- writeMini over an underlying writer that takes everything appends its argument to the mini
-- stream: the sectors of the mini stream and then its buffer hold what they held and then `p`. The
-- file has less than 2 ^ 32 sectors.
pub write_mini-IsStored :
    (sink : Sink) (m : MiniStore) (given p : List ℕ)
    → Accepts sink
    → MiniHolds m given
    → length m.shared.out + length m.buf + length p < 2 ^ 32 * m.shared.sec_size
    → IsStored given p (write_mini sink m p)
unfolding write_mini
write_mini-IsStored sink m given p accepts h small =
    mini_rounds-IsStored sink accepts (length p + 1) m given p h (omega arith) small

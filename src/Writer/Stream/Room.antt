-- ===== src/Writer/Stream/Room.antt =====
-- What a round of Write takes: the room up to the cutoff, to the end of a sector, or whole sectors.
use go_cfb.Base.{
  ℕ, zero, suc, ◌+◌, ◌-◌, ◌*◌, ◌/◌, ◌≤◌, ◌<◌, ◌≡◌, refl, ap, List, [], ◌∷◌, ◌++◌, arith, ◌⊎◌, inl,
  inr, length, take, drop,
}
use go_cfb.Format.{mini_stream_cutoff}
use go_cfb.Writer.Stream.{Shared, StreamWriter, room_of}

-- Between two calls, a stream below the cutoff is in the buffer as a whole, and of a larger stream
-- less than a sector is.
pub record IsReady (w : Shared) (s : StreamWriter) : Type 0 where
  pub sized : (w.sec_size ≡ 512) ⊎ (w.sec_size ≡ 4096)
  pub small : s.size < mini_stream_cutoff → length s.buf ≡ s.size
  pub large : mini_stream_cutoff ≤ s.size → length s.buf < w.sec_size

-- A full round: what it flushes is whole sectors, and the stream is then past the cutoff.
pub record IsFull (w : Shared) (s : StreamWriter) (room : ℕ) : Type 0 where
  pub sectors : ℕ
  pub whole : length s.buf + room ≡ sectors * w.sec_size
  pub past : mini_stream_cutoff ≤ s.size + room

-- The three kinds of rounds: up to the cutoff, to the end of a sector, and whole sectors.
room_of-cases :
    (w : Shared) (s : StreamWriter) (n : ℕ)
    → ((s.size < mini_stream_cutoff) × (room_of w s n ≡ mini_stream_cutoff - s.size))
      ⊎ ((mini_stream_cutoff ≤ s.size) × (room_of w s n ≡ w.sec_size - length s.buf))
      ⊎ ((mini_stream_cutoff ≤ s.size)
          × (length s.buf ≡ 0)
          × (room_of w s n ≡ n / w.sec_size * w.sec_size))
unfolding room_of
room_of-cases w s n = ground arith

cutoff_sectors :
    (w : Shared)
    → ((w.sec_size ≡ 512) ⊎ (w.sec_size ≡ 4096))
    → 4096 ≡ 4096 / w.sec_size * w.sec_size
cutoff_sectors w (inl e) = rw e refl
cutoff_sectors w (inr e) = rw e refl

pub room_of-IsFull :
    (w : Shared) (s : StreamWriter) (n : ℕ) → IsReady w s → IsFull w s (room_of w s n)
room_of-IsFull w s n v = go (room_of-cases w s n)
  where
    go :
        ((s.size < mini_stream_cutoff) × (room_of w s n ≡ mini_stream_cutoff - s.size))
          ⊎ ((mini_stream_cutoff ≤ s.size) × (room_of w s n ≡ w.sec_size - length s.buf))
          ⊎ ((mini_stream_cutoff ≤ s.size)
              × (length s.buf ≡ 0)
              × (room_of w s n ≡ n / w.sec_size * w.sec_size))
        → IsFull w s (room_of w s n)
    go (inl (below, e)) = record {
      sectors = 4096 / w.sec_size;
      whole = omega (arith, e, v.small below, cutoff_sectors w v.sized, below);
      past = omega (arith, e);
    }
    go (inr (inl (above, e))) = record {
      sectors = 1;
      whole = omega (arith, e, v.large above);
      past = omega (arith, above);
    }
    go (inr (inr (above, empty, e))) = record {
      sectors = n / w.sec_size;
      whole = omega (arith, e, empty);
      past = omega (arith, above);
    }

-- The bytes of a round, and what is left.
pub take-drop : (k : ℕ) (p : List ℕ) → take k p ++ drop k p ≡ p
take-drop zero p = refl
take-drop (suc k) [] = refl
take-drop (suc k) (x ∷ p) = ap (λ ys. x ∷ ys) (take-drop k p)

pub sized-positive : (w : Shared) → (w.sec_size ≡ 512) ⊎ (w.sec_size ≡ 4096) → 0 < w.sec_size
sized-positive w (inl e) = omega arith
sized-positive w (inr e) = omega arith

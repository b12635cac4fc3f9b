-- ===== src/FileTime/RoundTrip.antt =====
-- Ticks to times and back.
use go_cfb.Base.{ℕ, ◌-◌, ◌*◌, ◌/◌, ◌^◌, ◌<◌, ◌≡◌, ◌≢◌, ok, err, arith, if◌then◌else◌, leb}
use go_cfb.FileTime.{Time, ticks_per_sec, nanos_per_tick, after_60056, decode, encode}

-- A tick count that fits 64 bits survives decoding and encoding, but for those of the last, partial
-- second of the range, which Encode refuses.
pub encode-decode :
    (ft : ℕ)
    → ft < 2 ^ 64
    → encode (decode ft)
      ≡ (if leb ((2 ^ 64 - 1) / ticks_per_sec) (ft / ticks_per_sec) then err after_60056 else ok ft)
unfolding encode decode
encode-decode ft h = ground arith

-- A time that Encode takes without an error comes back cut to whole ticks of 100 nanoseconds, unless
-- it is encoded as 0: the unset time, or a time in the first tick of 1601.
pub decode-encode :
    (t : Time) (ft : ℕ)
    → t.nsec < 1000000000
    → encode t ≡ ok ft
    → ft ≢ 0
    → decode ft ≡ record { sec = t.sec; nsec = t.nsec / nanos_per_tick * nanos_per_tick }
unfolding encode decode
decode-encode t ft n e h = ground arith

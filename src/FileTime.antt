-- ===== src/FileTime.antt =====
-- internal/filetime/filetime.go: Windows FILETIME ticks and times.
--
-- A time.Time is the pair of its Unix seconds and nanoseconds; the zero time is the first instant
-- of year 1.
pub mod RoundTrip
use go_cfb.Base.{
  ℕ, ◌+◌, ◌-◌, ◌*◌, ◌/◌, ◌%◌, ◌^◌, ◌&&◌, Bool, Result, ok, err, ltb, ◌==◌, if◌then◌else◌,
}
use go_cfb.Base.Int.{ℤ, pos, negsuc, pos_part, neg_part, sub_ℕ, ◌+ℤ◌, ltb_ℤ}

pub record Time : Type 0 where
  pub sec : ℤ
  pub nsec : ℕ

abbrev pub zero_sec : ℤ
zero_sec = negsuc (62135596800 - 1)

abbrev pub zero_time : Time
zero_time = record { sec = zero_sec; nsec = 0 }

-- time.Time.IsZero
abbrev pub is_zero : Time → Bool
is_zero t =
    pos_part t.sec == pos_part zero_sec && neg_part t.sec == neg_part zero_sec && t.nsec == 0

-- 1601-01-01 to the Unix epoch.
abbrev pub epoch_delta_secs : ℕ
epoch_delta_secs = 11644473600

abbrev pub ticks_per_sec : ℕ
ticks_per_sec = 10000000

abbrev pub nanos_per_tick : ℕ
nanos_per_tick = 100

abbrev pub max_unix_sec : ℕ
max_unix_sec = (2 ^ 64 - 1) / ticks_per_sec - epoch_delta_secs - 1

pub data TimeError : Type 0 where
  before_1601 after_60056 : TimeError

unfoldable pub decode : ℕ → Time
decode ft = if ft == 0 then zero_time else record {
  sec = sub_ℕ (ft / ticks_per_sec) epoch_delta_secs;
  nsec = ft % ticks_per_sec * nanos_per_tick;
}

-- `sec + epochDeltaSecs` is not negative where it is converted, so its bits are its value.
unfoldable pub encode : Time → Result TimeError ℕ
unfolding ◌+ℤ◌
encode t =
    if is_zero t
    then ok 0
    else if ltb_ℤ t.sec (sub_ℕ 0 epoch_delta_secs)
    then err before_1601
    else if ltb_ℤ (pos max_unix_sec) t.sec
    then err after_60056
    else ok (
        (pos_part (t.sec +ℤ pos epoch_delta_secs) * ticks_per_sec + t.nsec / nanos_per_tick)
        % 2 ^ 64)

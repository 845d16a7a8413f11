-- ===== src/Go/Time.antt =====
-- time.Time as the instant that it stands for, in nanoseconds since the Unix epoch: every use is
-- `UTC()`, `Sub` or a stored timestamp, and none reads the location.
use quick_bite_analytics_ser.Prelude.{◌*◌, ◌^◌, ◌-◌, ℤ, pos, negsuc, ◌-ℤ◌, ltb_ℤ, if◌then◌else◌}
use quick_bite_analytics_ser.Go.Int64.{int64_limit, quot}

abbrev pub Time : Type 0
Time = ℤ

-- The zero Time is January 1 of year 1, 62,135,596,800 seconds before the epoch.
abbrev pub zero_time : Time
zero_time = negsuc (62135596800 * 10 ^ 9 - 1)

-- time.Time.Sub: a Duration is an int64 count of nanoseconds, and the difference saturates.
unfoldable pub sub : Time → Time → ℤ
unfolding ◌-ℤ◌
sub t u =
    let d = t -ℤ u in
    if ltb_ℤ (pos (int64_limit - 1)) d
    then pos (int64_limit - 1)
    else if ltb_ℤ d (negsuc (int64_limit - 1))
    then negsuc (int64_limit - 1)
    else d

-- time.Duration.Milliseconds
unfoldable pub milliseconds : ℤ → ℤ
unfolding quot
milliseconds d = quot d (10 ^ 6)

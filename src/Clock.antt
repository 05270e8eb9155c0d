-- ===== src/Clock.antt =====
-- Go's `time` package as the monitor uses it, and clock/clock.go.
-- A `time.Time` is its distance in nanoseconds from Go's absolute zero year, before which there is
-- no time; a `time.Duration` is a signed number of nanoseconds.
pub mod Timer
use bitmarkd_broadcast_monit.Common.{
  ℕ, suc, ◌+◌, ◌-◌, ◌*◌, ◌^◌, ◌≤◌, min, ◌≡◌, refl, Bool, ltb, leb, le→leb, if◌then◌else◌,
}
use bitmarkd_broadcast_monit.Common.Int.{ℤ, pos, negsuc}

abbrev pub Time : Type 0
Time = ℕ

abbrev pub Duration : Type 0
Duration = ℤ

abbrev pub second : ℕ
second = 1_000_000_000

abbrev pub minute : ℕ
minute = 60 * second

abbrev pub hour : ℕ
hour = 60 * minute

-- `time.Time{}`: the first of January of year 1.
abbrev pub zero_time : Time
zero_time = 9_223_371_966_579_724_800 * second

-- `time.Unix(0, 0)`.
abbrev pub unix_epoch : Time
unix_epoch = zero_time + 62_135_596_800 * second

-- The largest `time.Duration`; the smallest is -2^63.
abbrev pub max_duration : ℕ
max_duration = 2 ^ 63 - 1

-- `t.Add(d)`
abbrev pub add_time : Time → Duration → Time
add_time t (pos n) = t + n
add_time t (negsuc n) = t - suc n

-- `t.Sub(u)`, which saturates at the ends of `time.Duration`.
abbrev pub sub_time : Time → Time → Duration
sub_time t u = if leb u t then pos (min (t - u) max_duration) else negsuc (min (u - t) (2 ^ 63) - 1)

-- `t.After(u)` and `t.Before(u)`.
abbrev pub after : Time → Time → Bool
after t u = ltb u t

abbrev pub before : Time → Time → Bool
before t u = ltb t u

pub sub_time_of_le : (t u : Time) → u ≤ t → sub_time t u ≡ pos (min (t - u) max_duration)
sub_time_of_le t u h = rw (le→leb u t h) refl

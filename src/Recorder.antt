-- ===== src/Recorder.antt =====
-- recorder/: the constants that the three recorders share (recorder.go), and a module for each.
pub mod Periodic
pub mod Blocks
pub mod Transactions
pub mod Heartbeat
use bitmarkd_broadcast_monit.Common.{ℕ, zero, suc, ◌*◌, ◌/◌, ◌≤◌, ◌<◌}
use bitmarkd_broadcast_monit.Common.Int.{ℤ, pos, negsuc}
use bitmarkd_broadcast_monit.Clock.{hour, minute}

-- 2 hours, in nanoseconds.
abbrev pub expired_time_interval : ℕ
expired_time_interval = 2 * hour

-- The slots of `transactions`, one for each minute of the interval.
abbrev pub total_received_count : ℕ
total_received_count = expired_time_interval / minute

-- A drop rate. The source computes it in float64; here the quotient is exact.
pub record Ratio : Type 0 where
  pub num : ℕ
  pub den : ℕ

abbrev pub no_drop : Ratio
no_drop = record { num = 0; den = 1 }

-- A share of a whole.
pub record IsShare (r : Ratio) : Type 0 where
  pub positive : 0 < r.den
  pub at_most_all : r.num ≤ r.den

abbrev pub neg_of : ℕ → ℤ
neg_of zero = pos 0
neg_of (suc n) = negsuc n

-- Go's `/` on integers, which truncates.
abbrev pub quot : ℤ → ℕ → ℤ
quot (pos n) d = pos (n / d)
quot (negsuc n) d = neg_of (suc n / d)

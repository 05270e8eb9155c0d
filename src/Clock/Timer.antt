-- ===== src/Clock/Timer.antt =====
-- `time.Timer` of the Go version in go.mod (1.12): a channel that holds one value at most.
use bitmarkd_broadcast_monit.Common.{
  Bool, true, false, Option, none, some, ◌≡◌, ◌⊎◌, arith, if◌then◌else◌,
}

-- `active`: it will fire. `fired`: its channel holds a value.
pub record Timer : Type 0 where
  pub active : Bool
  pub fired : Bool

abbrev pub new_timer : Timer
new_timer = record { active = true; fired = false }

-- The clock reaches the time of an active timer.
abbrev pub expire : Timer → Timer
expire t = if t.active then record { active = false; fired = true } else t

-- `<-t.C`; `none` is a receive that never ends, as nothing will start the timer.
abbrev pub receive : Timer → Option Timer
receive t = if t.fired then some (record t { fired = false }) else none

-- `t.Stop()`: whether it was active, and the timer after it.
abbrev pub stop : Timer → Bool × Timer
stop t = (t.active, record t { active = false })

-- `t.Reset(d)`
abbrev pub reset : Timer → Timer
reset t = record t { active = true }

-- A timer that has been started: it will fire, or it has fired and nobody has looked.
abbrev pub IsPending : Timer → Type 0
IsPending t = ((t.active ≡ true) × (t.fired ≡ false)) ⊎ ((t.active ≡ false) × (t.fired ≡ true))

pub expire-IsPending : (t : Timer) → IsPending t → IsPending (expire t)
expire-IsPending t p = ground arith

-- When its time has come, a pending timer hands over its value and stands still.
pub expire-receive :
    (t : Timer) → IsPending t → receive (expire t) ≡ some (record { active = false; fired = false })
expire-receive t p = ground arith

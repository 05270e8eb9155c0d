-- ===== src/Recorder/Heartbeat.antt =====
-- recorder/heartbeat.go: the times at which heartbeats were received.
-- The map is an association list with each key once; `time.Now()` and the interval in seconds, a
-- package variable that `NewHeartbeat` sets, are arguments. float64 counts and rates are exact.
pub mod Expiry
pub mod Rate
pub mod Unordered
pub mod Text
mod Tests
use bitmarkd_broadcast_monit.Common.{
  ℕ, zero, suc, ◌+◌, ◌-◌, ◌*◌, ◌/◌, ◌%◌, ◌^◌, Bool, true, false, List, [], ◌∷◌, ltb, leb, ◌==◌,
  if◌then◌else◌, length,
}
use bitmarkd_broadcast_monit.Common.Int.{ℤ, pos, negsuc, leb_ℤ, ltb_ℤ}
use bitmarkd_broadcast_monit.Clock.{Time, Duration, second, add_time, sub_time, after, before}
use bitmarkd_broadcast_monit.Recorder.Periodic
use bitmarkd_broadcast_monit.Recorder.Periodic.{RemoveEvent}
use bitmarkd_broadcast_monit.Recorder.{expired_time_interval, Ratio, no_drop}

-- `heartbeat`, less the mutex: `entries` maps each time of receipt to its expiry.
pub record Heartbeat : Type 0 where
  pub entries : List (Time × Time)
  pub earliest : Time
  pub received : Bool

unfoldable pub new_heartbeat : Time → Heartbeat
new_heartbeat now = record { entries = []; earliest = now; received = false }

-- `m[k] = v`
unfoldable pub insert : Time → Time → List (Time × Time) → List (Time × Time)
insert k v [] = (k, v) ∷ []
insert k v ((j, w) ∷ m) = if j == k then (k, v) ∷ m else (j, w) ∷ insert k v m

unfoldable pub add : Heartbeat → Time → Heartbeat
unfolding insert
add h t = record h {
  received = true;
  entries = insert t (add_time t (pos expired_time_interval)) h.entries;
}

-- The loop that deletes the expired entries.
unfoldable pub delete_expired : Time → List (Time × Time) → List (Time × Time)
delete_expired now [] = []
delete_expired now ((k, v) ∷ m) =
    let rest = delete_expired now m in if after now v then rest else (k, v) ∷ rest

unfoldable pub cleanup_expired_heartbeat : Heartbeat → Time → Heartbeat
unfolding delete_expired
cleanup_expired_heartbeat h now = record h { entries = delete_expired now h.entries }

-- The loop of `durationFromEarliestReceive`, over `earliest` and `latest`.
unfoldable pub scan_receipts : List (Time × Time) → Time × Time → Time × Time
scan_receipts [] (earliest, latest) = (earliest, latest)
scan_receipts ((k, v) ∷ m) (earliest, latest) =
    scan_receipts m
      (if after earliest k then k else earliest, if before latest k then k else latest)

-- `now.Sub(latest).Seconds() >= intervalSecond`
unfoldable pub choose_closest_latest_receive_time : ℕ → Time → Time → Time
choose_closest_latest_receive_time interval now latest =
    if leb_ℤ (pos (interval * second)) (sub_time now latest) then now else latest

abbrev pub to_latest : ℕ → Time → Time × Time → Duration × Time
to_latest interval now (earliest, latest) =
    (sub_time (choose_closest_latest_receive_time interval now latest) earliest, earliest)

unfoldable pub duration_from_earliest_receive : ℕ → Time → Heartbeat → Duration × Time
duration_from_earliest_receive interval now h =
    to_latest interval now (scan_receipts h.entries (h.earliest, h.earliest))

-- `math.Floor(d.Seconds() / intervalSecond)` of a duration that is not negative; 0 of another, where
-- the source has a negative count.
abbrev pub whole_intervals : ℕ → Duration → ℕ
whole_intervals interval (pos n) = n / (interval * second)
whole_intervals interval (negsuc n) = 0

abbrev pub full_cycle_received_count : ℕ → ℕ
full_cycle_received_count interval = expired_time_interval / (interval * second)

abbrev pub rate_of : ℕ → ℕ → Ratio
rate_of actual expected =
    if expected == 0
    then no_drop
    else if leb expected actual
    then no_drop
    else record { num = expected - actual; den = expected }

unfoldable pub droprate : ℕ → ℕ → Duration → Ratio
droprate interval actual duration =
    if actual == 0
    then no_drop
    else rate_of actual (
        if ltb_ℤ duration (pos expired_time_interval)
        then whole_intervals interval duration
        else full_cycle_received_count interval)

pub record HeartbeatSummary : Type 0 where
  pub duration : Duration
  pub received_count : ℕ
  pub received : Bool
  pub droprate : Ratio

update_overall_earliest_time : Heartbeat → Time → Heartbeat
update_overall_earliest_time h earliest =
    if before earliest h.earliest then record h { earliest = earliest } else h

abbrev summarize : ℕ → Heartbeat → Duration × Time → HeartbeatSummary × Heartbeat
summarize interval h (duration, earliest) =
    let count = length h.entries % 2 ^ 16 in
    (
      record {
        duration = duration;
        received_count = count;
        received = h.received;
        droprate = droprate interval count duration;
      },
      update_overall_earliest_time h earliest,
    )

-- `Summary` may also move `earliest` back.
unfoldable pub summary : ℕ → Time → Heartbeat → HeartbeatSummary × Heartbeat
unfolding duration_from_earliest_receive update_overall_earliest_time
summary interval now h = summarize interval h (duration_from_earliest_receive interval now h)

-- A heartbeat summary never needs a notice.
unfoldable pub valid : HeartbeatSummary → Bool
valid s = true

-- The shared loop with the clean-up of this recorder.
unfoldable pub periodic_remove : ℕ → List RemoveEvent → Heartbeat → Heartbeat
unfolding cleanup_expired_heartbeat
periodic_remove args es s = Periodic.periodic_remove cleanup_expired_heartbeat args es s

-- ===== src/Recorder/Heartbeat/Tests.antt =====
-- recorder/heartbeat.go on a concrete record.
use bitmarkd_broadcast_monit.Common.{◌+◌, ◌*◌, ◌≡◌, refl, true, ◌&&◌, List, [], ◌∷◌, ◌++◌, leb}
use bitmarkd_broadcast_monit.Clock.{Time, zero_time, hour, minute, second}
use bitmarkd_broadcast_monit.Recorder.{expired_time_interval}
use bitmarkd_broadcast_monit.Recorder.Heartbeat.{Heartbeat, cleanup_expired_heartbeat}
use bitmarkd_broadcast_monit.Recorder.Heartbeat.Expiry.{has_key, IsValid, cleanup_lem}
use bitmarkd_broadcast_monit.Recorder.Periodic.{
  shutdown, timer, rounds, cleaned, periodic_remove, periodic_remove-cleaned,
}

abbrev noon : Time
noon = zero_time + 20_000 * hour

-- Two heartbeats, a minute apart.
abbrev two_beats : Heartbeat
two_beats = record {
  entries = (noon, noon + 2 * hour) ∷ (noon + minute, noon + minute + 2 * hour) ∷ [];
  earliest = noon;
  received = true;
}

two_beats-IsValid : IsValid two_beats
two_beats-IsValid = (refl, refl, (refl, refl, tt))

cleanup_lem_example :
    let h = cleanup_expired_heartbeat two_beats (noon + 2 * hour + second) in
    IsValid h
    × ((u : Time)
        → has_key u h.entries ≡ (
            has_key u two_beats.entries
            && leb (noon + 2 * hour + second) (u + expired_time_interval)))
cleanup_lem_example = cleanup_lem two_beats (noon + 2 * hour + second) two_beats-IsValid

abbrev turned : List (Time × Time)
turned = (noon + minute, noon + minute + 2 * hour) ∷ (noon, noon + 2 * hour) ∷ []

periodic_remove-cleaned_example :
    periodic_remove cleanup_expired_heartbeat 2
      (rounds ((noon + hour) ∷ (noon + 3 * hour) ∷ []) ++ shutdown ∷ timer noon ∷ [])
      two_beats
    ≡ cleaned cleanup_expired_heartbeat ((noon + hour) ∷ (noon + 3 * hour) ∷ []) two_beats
periodic_remove-cleaned_example =
    periodic_remove-cleaned cleanup_expired_heartbeat ((noon + hour) ∷ (noon + 3 * hour) ∷ [])
      (timer noon ∷ []) two_beats

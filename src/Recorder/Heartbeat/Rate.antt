-- ===== src/Recorder/Heartbeat/Rate.antt =====
-- recorder/heartbeat.go: the duration and the drop rate of a summary.
use bitmarkd_broadcast_monit.Common.{
  ℕ, ◌+◌, ◌-◌, ◌*◌, ◌/◌, ◌≤◌, ◌<◌, ◌≡◌, refl, Bool-cases, inl, inr, ◌||◌, List, [], ◌∷◌, arith, leb,
  if◌then◌else◌, ◌==◌, min, max, ap, ap₂, ◌∙◌,
}
use bitmarkd_broadcast_monit.Common.Int.{pos, ltb_ℤ}
use bitmarkd_broadcast_monit.Clock.{Time, second, sub_time_of_le, max_duration, before, after}
use bitmarkd_broadcast_monit.Recorder.{expired_time_interval, no_drop, IsShare}
use bitmarkd_broadcast_monit.Recorder.Heartbeat.{
  Heartbeat, scan_receipts, choose_closest_latest_receive_time, full_cycle_received_count, rate_of,
  droprate, summary, whole_intervals,
}

abbrev pub first_key : Time → List (Time × Time) → Time
first_key t [] = t
first_key t ((k, v) ∷ m) = min k (first_key t m)

abbrev pub last_key : Time → List (Time × Time) → Time
last_key t [] = t
last_key t ((k, v) ∷ m) = max k (last_key t m)

first_key-min :
    (k t : Time) (m : List (Time × Time)) → first_key (min t k) m ≡ min k (first_key t m)
first_key-min k t [] = omega arith
first_key-min k t ((j, v) ∷ m) = omega (arith, first_key-min k t m)

last_key-max : (k t : Time) (m : List (Time × Time)) → last_key (max t k) m ≡ max k (last_key t m)
last_key-max k t [] = omega arith
last_key-max k t ((j, v) ∷ m) = omega (arith, last_key-max k t m)

earlier : (k e : Time) → (if after e k then k else e) ≡ min e k
earlier k e = ground arith

later : (k l : Time) → (if before l k then k else l) ≡ max l k
later k l = ground arith

-- The scan does not depend on the order of the map: it finds the first and the last receipt.
pub scan_receipts_lem :
    (m : List (Time × Time)) (e l : Time) → scan_receipts m (e, l) ≡ (first_key e m, last_key l m)
unfolding scan_receipts
scan_receipts_lem [] e l = refl
scan_receipts_lem ((k, v) ∷ m) e l =
    ap (scan_receipts m) (ap₂ (λ x y. (x, y)) (earlier k e) (later k l))
    ∙ scan_receipts_lem m (min e k) (max l k)
    ∙ ap₂ (λ x y. (x, y)) (first_key-min k e m) (last_key-max k l m)

first_key-le : (t : Time) (m : List (Time × Time)) → first_key t m ≤ t
first_key-le t [] = omega arith
first_key-le t ((k, v) ∷ m) = omega (arith, first_key-le t m)

last_key-ge : (t : Time) (m : List (Time × Time)) → t ≤ last_key t m
last_key-ge t [] = omega arith
last_key-ge t ((k, v) ∷ m) = omega (arith, last_key-ge t m)

-- The receipt that the duration runs up to: now, unless the last receipt is closer than an interval.
abbrev pub end_of : ℕ → Time → Time → Time
end_of interval now latest = if leb (latest + interval * second) now then now else latest

choose_lem :
    (interval : ℕ) (now latest : Time)
    → interval * second ≤ max_duration
    → choose_closest_latest_receive_time interval now latest ≡ end_of interval now latest
unfolding choose_closest_latest_receive_time
choose_lem interval now latest small = ground arith

end_of-ge : (interval : ℕ) (now latest : Time) → latest ≤ end_of interval now latest
end_of-ge interval now latest = ground arith

end_of-le :
    (interval bound : ℕ) (now latest : Time)
    → now ≤ bound
    → latest ≤ bound
    → end_of interval now latest ≤ bound
end_of-le interval bound now latest h k = ground arith

-- The duration of a summary runs from the first receipt, or the start of the record if that is
-- earlier, to now, or to the last receipt if less than an interval has passed since; so it is not
-- negative. The summary keeps its start as the record's. (Times that `time.Duration` can measure.)
pub summary-duration :
    (interval : ℕ) (now : Time) (h : Heartbeat)
    → now ≤ max_duration + first_key h.earliest h.entries
    → last_key h.earliest h.entries ≤ max_duration + first_key h.earliest h.entries
    → interval * second ≤ max_duration
    → let first = first_key h.earliest h.entries in
      let end = end_of interval now (last_key h.earliest h.entries) in
      (first ≤ end)
      × ((summary interval now h).0.duration ≡ pos (end - first))
      × ((summary interval now h).1.earliest ≡ first)
unfolding summary
summary-duration interval now h fits fits' small =
    let first = first_key h.earliest h.entries in
    let latest = last_key h.earliest h.entries in
    let low = first_key-le h.earliest h.entries in
    let high = last_key-ge h.earliest h.entries in
    let below : first ≤ end_of interval now latest =
      omega (arith, low, high, end_of-ge interval now latest) in
    rw (scan_receipts_lem h.entries h.earliest h.earliest) (
      below,
      rw (choose_lem interval now latest small) (
          sub_time_of_le (end_of interval now latest) first below
          ∙ ap pos
              (omega (arith, end_of-le interval (max_duration + first) now latest fits fits'))),
      ground (arith, low, high),
    )

-- The receipts to be expected in a time: the whole intervals in it, or in two hours if it is longer.
abbrev pub receipts_expected : ℕ → ℕ → ℕ
receipts_expected interval n = min n expired_time_interval / (interval * second)

expected_lem :
    (interval n : ℕ)
    → (if ltb_ℤ (pos n) (pos expired_time_interval)
        then whole_intervals interval (pos n)
        else full_cycle_received_count interval)
      ≡ receipts_expected interval n
expected_lem interval n = elim (Bool-cases (ltb_ℤ (pos n) (pos expired_time_interval))) [
  | inl short ↦ rw short (ap (λ m. m / (interval * second)) (ground arith))
  | inr long ↦ rw long (ap (λ m. m / (interval * second)) (ground arith))
]

rate_of_lem :
    (actual expected : ℕ)
    → let rate = if actual == 0 then no_drop else rate_of actual expected in
      IsShare rate
      × (rate ≡ (
          if actual == 0 || leb expected actual
          then no_drop
          else record { num = expected - actual; den = expected }))
rate_of_lem actual expected = ground arith

-- The drop rate lies between 0 and 1. It is 0 if nothing was received, or as much as was expected;
-- else it is the share of the expected receipts that did not come.
pub droprate_lem :
    (interval actual n : ℕ)
    → 0 < interval
    → let expected = receipts_expected interval n in
      IsShare (droprate interval actual (pos n))
      × (droprate interval actual (pos n) ≡ (
          if actual == 0 || leb expected actual
          then no_drop
          else record { num = expected - actual; den = expected }))
unfolding droprate
droprate_lem interval actual n positive =
    rw (expected_lem interval n) (rate_of_lem actual (receipts_expected interval n))

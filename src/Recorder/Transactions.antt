-- ===== src/Recorder/Transactions.antt =====
-- recorder/transaction.go: a slot for each minute, set when something was received in it.
-- `time.Now()` is an argument, and float64 counts and rates are exact.
pub mod Invariant
pub mod Recording
pub mod Rate
mod Tests
pub mod Restart
pub mod Text
use bitmarkd_broadcast_monit.Common.{
  ℕ, suc, ◌+◌, ◌-◌, ◌*◌, ◌/◌, Bool, true, false, not, Option, none, some, List, [], ◌∷◌, ◌++◌, ltb,
  leb, ◌==◌, if◌then◌else◌, set, drop, replicate,
}
use bitmarkd_broadcast_monit.Common.Int.{ℤ, pos, negsuc}
use bitmarkd_broadcast_monit.Clock.{Time, Duration, minute, zero_time, add_time, sub_time, after}
use bitmarkd_broadcast_monit.Recorder.Periodic
use bitmarkd_broadcast_monit.Recorder.Periodic.{RemoveEvent}
use bitmarkd_broadcast_monit.Recorder.{
  expired_time_interval, total_received_count, Ratio, no_drop, quot,
}

-- `transactions`, less the mutex. `slots` is the array `data`.
pub record Transactions : Type 0 where
  pub slots : List Bool
  pub earliest : Time
  pub first_item_received_time : Time
  pub received : Bool

unfoldable pub new_transaction : Time → Transactions
new_transaction now = record {
  slots = replicate total_received_count false;
  earliest = now;
  first_item_received_time = zero_time;
  received = false;
}

-- The start of the minute (in a zone whose offset is a number of minutes).
abbrev pub round_time_to_minute : Time → Time
round_time_to_minute t = t / minute * minute

-- The guard of `add`, and its write.
abbrev pub mark : List Bool → ℤ → List Bool
mark slots (pos i) = if leb total_received_count i then slots else set slots i true
mark slots (negsuc i) = slots

unfoldable pub add_received : Transactions → Time → Transactions
add_received t received_time =
    let time_diff = sub_time (round_time_to_minute received_time) t.first_item_received_time in
    record t { slots = mark t.slots (quot time_diff minute) }

-- The first reception of all sets the base of the array.
unfoldable pub note_first : Transactions → Time → Transactions
note_first t received_time =
    if not t.received
    then record t { received = true; first_item_received_time = round_time_to_minute received_time }
    else t

unfoldable pub add : Transactions → Time → Transactions
unfolding add_received note_first
add t received_time = add_received (note_first t received_time) received_time

-- The loop of `findReceivedItemFromIndex` over the slots from index `i` on.
abbrev pub find_received : List Bool → ℕ → Option ℕ
find_received [] i = none
find_received (x ∷ xs) i = let rest = find_received xs (i + 1) in if x then some i else rest

abbrev pub find_received_item_from_index : Transactions → ℕ → Option ℕ
find_received_item_from_index t start = find_received (drop start t.slots) start

-- `copy(tmpArray[firstItem:], t.data[firstItem:])` into a cleared array.
unfoldable pub restart : Transactions → Option ℕ → Transactions
restart t none = record t {
  slots = replicate total_received_count false;
  first_item_received_time = zero_time;
}
restart t (some i) = record t {
  slots = replicate i false ++ drop i t.slots;
  first_item_received_time = add_time t.first_item_received_time (pos ((i + 1) * minute));
}

unfoldable pub cleanup_expired_transaction : Transactions → Time → Transactions
unfolding restart
cleanup_expired_transaction t now =
    if after t.first_item_received_time (add_time now (negsuc (expired_time_interval - 1)))
    then t
    else restart t (find_received_item_from_index t 1)

pub record TransactionSummary : Type 0 where
  pub droprate : Ratio
  pub duration : Duration
  pub received : Bool
  pub received_count : ℕ

abbrev pub received_count_from_prev_two_hour : List Bool → ℕ
received_count_from_prev_two_hour [] = 0
received_count_from_prev_two_hour (x ∷ xs) =
    let rest = received_count_from_prev_two_hour xs in if x then suc rest else rest

-- The clamp of `expectedCount`.
abbrev pub clamp_expected : ℤ → ℤ
clamp_expected (pos n) =
    if n == 0 then pos 1 else if ltb total_received_count n then pos total_received_count else pos n
clamp_expected (negsuc n) = negsuc n

unfoldable pub expected_count : Time → Transactions → ℤ
expected_count now t = clamp_expected (quot (sub_time now t.first_item_received_time) minute)

-- Where fewer minutes were expected than something was received in, the source's subtraction would
-- give a negative rate; the guard leaves that case, where `-` on ℕ stops at 0, to the other branch.
abbrev pub drop_rate : ℤ → ℕ → Ratio
drop_rate (pos expected) received =
    if ltb received expected then record { num = expected - received; den = expected } else no_drop
drop_rate (negsuc n) received = no_drop

-- `now` and `later` are the two readings of the clock.
unfoldable pub summary : Time → Time → Transactions → TransactionSummary
unfolding expected_count
summary now later t = elim (find_received_item_from_index t 0) [
  | none ↦ record {
    droprate = if t.received then record { num = 1; den = 1 } else no_drop;
    duration = pos 0;
    received = t.received;
    received_count = 0;
  }
  | some _ ↦ record {
    droprate = drop_rate (expected_count now t) (received_count_from_prev_two_hour t.slots);
    duration = sub_time later t.first_item_received_time;
    received = t.received;
    received_count = received_count_from_prev_two_hour t.slots;
  }
]

-- `t.Droprate <= 0.1`
unfoldable pub valid : TransactionSummary → Bool
valid s = leb (10 * s.droprate.num) s.droprate.den

-- The shared loop with the clean-up of this recorder.
unfoldable pub periodic_remove : ℕ → List RemoveEvent → Transactions → Transactions
unfolding cleanup_expired_transaction
periodic_remove args es s = Periodic.periodic_remove cleanup_expired_transaction args es s

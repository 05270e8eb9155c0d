-- ===== src/Recorder/Transactions/Rate.antt =====
-- recorder/transaction.go: the drop rate of a summary, and when it needs no notice.
use bitmarkd_broadcast_monit.Common.{
  ℕ, ◌+◌, ◌⊎◌, if◌then◌else◌, ◌-◌, ◌*◌, ◌/◌, ◌≤◌, ◌<◌, ◌≡◌, ◌≢◌, ◌↔◌, Bool, true, arith, min, max,
  none, Option-cases, inl, inr,
}
use bitmarkd_broadcast_monit.Common.Int.{pos}
use bitmarkd_broadcast_monit.Clock.{Time, minute, sub_time_of_le}
use bitmarkd_broadcast_monit.Recorder.{total_received_count, no_drop}
use bitmarkd_broadcast_monit.Recorder.Transactions.{
  Transactions, find_received, summary, expected_count, valid, TransactionSummary,
  received_count_from_prev_two_hour,
}

-- The minutes in which something was to be expected: those since the base, at least one and at most
-- two hours.
abbrev pub minutes_expected : Time → Transactions → ℕ
minutes_expected now t =
    max 1 (min total_received_count ((now - t.first_item_received_time) / minute))

expected_count_lem :
    (t : Transactions) (now : Time)
    → t.first_item_received_time ≤ now
    → expected_count now t ≡ pos (minutes_expected now t)
unfolding expected_count
expected_count_lem t now h = rw (sub_time_of_le now t.first_item_received_time h) (ground arith)

-- The drop rate and the count of a summary, when something is in the slots: the minutes that were
-- to be expected and had nothing, out of those expected, unless there were as many as expected.
abbrev pub IsMeasured : ℕ → ℕ → TransactionSummary → Type 0
IsMeasured expected received s =
    (s.received_count ≡ received)
    × (((received < expected)
          × (s.droprate.num + received ≡ expected)
          × (s.droprate.den ≡ expected))
        ⊎ ((expected ≤ received) × (s.droprate ≡ no_drop)))

-- With nothing in the slots, everything was dropped if something ever came, and nothing otherwise.
abbrev pub IsQuiet : Bool → TransactionSummary → Type 0
IsQuiet received s =
    (s.received_count ≡ 0)
    × (s.droprate ≡ (if received then record { num = 1; den = 1 } else no_drop))

-- Where something was received in the last two hours and the base does not lie ahead, a summary is
-- valid exactly when something was received in at least nine tenths of the minutes expected.
pub valid-summary_iff :
    (t : Transactions) (now later : Time)
    → t.first_item_received_time ≤ now
    → find_received t.slots 0 ≢ none
    → (valid (summary now later t) ≡ true)
      ↔ (9 * minutes_expected now t ≤ 10 * received_count_from_prev_two_hour t.slots)
unfolding valid summary
valid-summary_iff t now later h some_set = elim (Option-cases (find_received t.slots 0)) [
  | inl e ↦ absurd (some_set e)
  | inr (i, e) ↦ rw (e, summary) (rw (expected_count_lem t now h) (ground arith))
]

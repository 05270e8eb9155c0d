-- ===== src/Recorder/Transactions/Tests.antt =====
-- recorder/transaction.go on concrete records.
use bitmarkd_broadcast_monit.Common.{
  ◌+◌, ◌*◌, ◌≡◌, refl, true, false, [], ◌∷◌, arith, replicate, get_or,
}
use bitmarkd_broadcast_monit.Clock.{Time, zero_time, hour, minute, second}
use bitmarkd_broadcast_monit.Recorder.{no_drop}
use bitmarkd_broadcast_monit.Recorder.Transactions.{
  Transactions, add, summary, expected_count, add_received, note_first, new_transaction,
}
use bitmarkd_broadcast_monit.Recorder.Transactions.Invariant.{IsValid}
use bitmarkd_broadcast_monit.Recorder.Transactions.Recording.{add-slots}
use bitmarkd_broadcast_monit.Recorder.Transactions.Restart.{
  NoneSet-replicate, IsCleared, receive, clean, run, run-IsCleared,
}

abbrev noon : Time
noon = zero_time + 20_000 * hour

-- Something was received in the minute of noon and two minutes later.
abbrev heard_twice : Transactions
heard_twice = record {
  slots = true ∷ false ∷ true ∷ replicate 117 false;
  earliest = noon;
  first_item_received_time = noon;
  received = true;
}

heard_twice-IsValid : IsValid heard_twice
heard_twice-IsValid = record { full_array = refl; whole_minute = refl }

-- Two receptions on a new record set two slots.
two_receptions :
    (add (add (new_transaction noon) (noon + 5 * second)) (noon + 2 * minute + second)).slots
    ≡ heard_twice.slots
unfolding add add_received note_first new_transaction
two_receptions = refl

add-slots_example :
    (get_or (add heard_twice (noon + 5 * minute)).slots 5 false ≡ true)
    × ((add heard_twice (noon + 5 * minute)).first_item_received_time ≡ noon)
    × ((add heard_twice (noon + 5 * minute)).received ≡ true)
add-slots_example =
    add-slots heard_twice (noon + 5 * minute) 5 heard_twice-IsValid (omega arith) (omega arith)

-- Two minutes of sixty, and more minutes than the one that was expected.
droprate_test :
    ((summary (noon + hour) (noon + hour) heard_twice).droprate ≡ record { num = 58; den = 60 })
    × ((summary noon noon heard_twice).droprate ≡ no_drop)
unfolding summary expected_count
droprate_test = (refl, refl)

-- Heard once, in the first minute.
abbrev reset_record : Transactions
reset_record = record {
  slots = replicate 120 false;
  earliest = noon;
  first_item_received_time = zero_time;
  received = true;
}

reset_record-IsCleared : IsCleared reset_record
reset_record-IsCleared = record { heard = refl; base = refl; silent = NoneSet-replicate 120 }

run-IsCleared_example :
    let t = run reset_record (receive (noon + 3 * hour) ∷ clean (noon + 4 * hour) ∷ []) in
    IsCleared t
    × ((summary noon noon t).received_count ≡ 0)
    × ((summary noon noon t).droprate ≡ record { num = 1; den = 1 })
run-IsCleared_example =
    run-IsCleared reset_record (receive (noon + 3 * hour) ∷ clean (noon + 4 * hour) ∷ []) noon noon
      (omega arith, (omega arith, tt)) reset_record-IsCleared

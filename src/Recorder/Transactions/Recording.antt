-- ===== src/Recorder/Transactions/Recording.antt =====
-- recorder/transaction.go: which slot `Add` sets.
use bitmarkd_broadcast_monit.Common.{
  ℕ, zero, suc, ◌+◌, ◌-◌, ◌*◌, ◌/◌, ◌%◌, ◌≤◌, ◌<◌, ◌≡◌, refl, ap, ap₂, sym, subst, ◌∙◌, Bool, true,
  false, List, [], ◌∷◌, arith, length, set, get_or, min, ◌==◌, if◌then◌else◌,
}
use bitmarkd_broadcast_monit.Common.Int.{pos}
use bitmarkd_broadcast_monit.Clock.{Time, minute, sub_time, sub_time_of_le, max_duration}
use bitmarkd_broadcast_monit.Recorder.{total_received_count, quot}
use bitmarkd_broadcast_monit.Recorder.Transactions.{
  Transactions, add, add_received, note_first, round_time_to_minute,
}
use bitmarkd_broadcast_monit.Recorder.Transactions.Invariant.{IsValid, note_first-IsValid}

get_or-set :
    (xs : List Bool) (k i : ℕ)
    → k < length xs
    → get_or (set xs k true) i false ≡ (if i == k then true else get_or xs i false)
get_or-set [] k i h = absurd (omega arith)
get_or-set (x ∷ xs) zero zero h = refl
get_or-set (x ∷ xs) zero (suc i) h = ground arith
get_or-set (x ∷ xs) (suc k) zero h = ground arith
get_or-set (x ∷ xs) (suc k) (suc i) h = ground (arith, get_or-set xs k i)

-- The number of whole minutes of a time.
abbrev pub minutes : Time → ℕ
minutes t = t / minute

-- The index at which `Add` writes.
pub slot_index :
    (first time : Time)
    → first % minute ≡ 0
    → first ≤ time
    → quot (sub_time (round_time_to_minute time) first) minute
      ≡ pos (min (minutes time - minutes first) (max_duration / minute))
slot_index first time whole h =
    ap (λ d. quot d minute)
      (sub_time_of_le (round_time_to_minute time) first (omega (arith, whole)))
    ∙ ap pos (omega (arith, whole))

-- What the slots count from when something is received: the first reception of all sets it to the
-- start of its minute.
abbrev pub base : Transactions → Time → Time
base t time = if t.received then t.first_item_received_time else time / minute * minute

slots_lem :
    (t : Transactions) (time : Time) (i : ℕ)
    → length t.slots ≡ total_received_count
    → t.first_item_received_time % minute ≡ 0
    → t.first_item_received_time ≤ time
    → i < total_received_count
    → get_or (add_received t time).slots i false ≡ (
        if minutes t.first_item_received_time + i == minutes time
        then true
        else get_or t.slots i false)
unfolding add_received
slots_lem t time i full whole h below = rw (slot_index t.first_item_received_time time whole h) (
    ground (
      arith,
      full,
      whole,
      get_or-set t.slots
          (min (minutes time - minutes t.first_item_received_time) (max_duration / minute)) i,
    ))

note_first_lem :
    (t : Transactions) (time : Time)
    → ((note_first t time).first_item_received_time ≡ base t time)
      × ((note_first t time).slots ≡ t.slots)
      × ((note_first t time).received ≡ true)
unfolding note_first
note_first_lem t time = ground arith

-- On a valid record, a reception that does not lie before the base, which the first reception of all
-- sets to the start of its own minute, sets the slot of its minute, if the array has one, and
-- changes no other slot; the base and that something was received are recorded.
pub add-slots :
    (t : Transactions) (time : Time) (i : ℕ)
    → IsValid t
    → base t time ≤ time
    → i < total_received_count
    → (get_or (add t time).slots i false
        ≡ (if minutes (base t time) + i == minutes time then true else get_or t.slots i false))
      × ((add t time).first_item_received_time ≡ base t time)
      × ((add t time).received ≡ true)
unfolding add add_received
add-slots t time i v h below =
    let (first, slots, heard) = note_first_lem t time in
    let valid = note_first-IsValid t time v in
    (
      slots_lem (note_first t time) time i valid.full_array valid.whole_minute
            (subst (λ b. b ≤ time) (sym first) h) below
          ∙ ap₂ (λ b s. if minutes b + i == minutes time then true else get_or s i false) first
              slots,
      first,
      heard,
    )

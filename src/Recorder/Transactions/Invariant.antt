-- ===== src/Recorder/Transactions/Invariant.antt =====
-- recorder/transaction.go: the array keeps its length, and its base a whole minute.
use bitmarkd_broadcast_monit.Common.{
  ℕ, suc, ◌+◌, ◌-◌, ◌%◌, ◌≤◌, ◌<◌, ◌≡◌, refl, ap, ◌∙◌, Bool, true, false, Option, none, some, List,
  [], ◌∷◌, arith, length, length-append, length-set, length-replicate, length-drop, drop, replicate,
  Bool-cases, inl, inr, get_elem?,
}
use bitmarkd_broadcast_monit.Common.Int.{ℤ, pos, negsuc}
use bitmarkd_broadcast_monit.Clock.{Time, minute, sub_time, after, add_time}
use bitmarkd_broadcast_monit.Recorder.{quot, total_received_count, expired_time_interval}
use bitmarkd_broadcast_monit.Recorder.Transactions.{
  Transactions, new_transaction, mark, add, add_received, note_first, round_time_to_minute,
  find_received, restart, cleanup_expired_transaction,
}

abbrev pub expiry : Time → Time
expiry now = add_time now (negsuc (expired_time_interval - 1))

pub record IsValid (t : Transactions) : Type 0 where
  pub full_array : length t.slots ≡ total_received_count
  pub whole_minute : t.first_item_received_time % minute ≡ 0

length-mark : (slots : List Bool) (i : ℤ) → length (mark slots i) ≡ length slots
length-mark slots (pos i) = ground (arith, length-set slots i true)
length-mark slots (negsuc i) = refl

pub new_transaction-IsValid : (now : Time) → IsValid (new_transaction now)
unfolding new_transaction
new_transaction-IsValid now = record {
  full_array = length-replicate total_received_count false;
  whole_minute = omega arith;
}

find_received_step :
    (x : Bool) (xs : List Bool) (i k : ℕ)
    → find_received (x ∷ xs) i ≡ some k
    → (find_received xs (i + 1) ≡ some k
        → (i + 1 ≤ k) × (k < i + 1 + length xs) × (get_elem? xs (k - (i + 1)) ≡ some true))
    → (i ≤ k) × (k < i + length (x ∷ xs)) × (get_elem? (x ∷ xs) (k - i) ≡ some true)
find_received_step true xs i k h ih =
    let e : i ≡ k = ground arith in
    (omega arith, omega arith, ap (get_elem? (true ∷ xs)) {x = k - i} {y = 0} (omega arith))
find_received_step false xs i k h ih =
    let (low, high, hit) = ih h in
    (
      omega arith,
      omega arith,
      ap (get_elem? (false ∷ xs)) {x = k - i} {y = suc (k - (i + 1))} (omega arith) ∙ hit,
    )

-- What the search returns lies in the array, and is set.
pub find_received-some :
    (xs : List Bool) (i k : ℕ)
    → find_received xs i ≡ some k
    → (i ≤ k) × (k < i + length xs) × (get_elem? xs (k - i) ≡ some true)
find_received-some [] i k h = absurd (ground arith)
find_received-some (x ∷ xs) i k h = find_received_step x xs i k h (find_received-some xs (i + 1) k)

restart-IsValid :
    (t : Transactions) (found : Option ℕ)
    → ((i : ℕ) → found ≡ some i → i < total_received_count)
    → IsValid t
    → IsValid (restart t found)
unfolding restart
restart-IsValid t none below v = record {
  full_array = length-replicate total_received_count false;
  whole_minute = omega arith;
}
restart-IsValid t (some i) below v = record {
  full_array = omega (
    arith,
    below i refl,
    length-append (replicate i false) (drop i t.slots),
    length-replicate i false,
    length-drop i t.slots,
    v.full_array,
  );
  whole_minute = omega (arith, v.whole_minute);
}

add_received-IsValid : (t : Transactions) (time : Time) → IsValid t → IsValid (add_received t time)
unfolding add_received
add_received-IsValid t time v = record {
  full_array =
      length-mark t.slots
        (quot (sub_time (round_time_to_minute time) t.first_item_received_time) minute)
      ∙ v.full_array;
  whole_minute = v.whole_minute;
}

pub note_first-IsValid : (t : Transactions) (time : Time) → IsValid t → IsValid (note_first t time)
unfolding note_first
note_first-IsValid t time v = ground arith

-- `Add` keeps the record valid.
pub add-IsValid : (t : Transactions) (time : Time) → IsValid t → IsValid (add t time)
unfolding add
add-IsValid t time v = add_received-IsValid (note_first t time) time (note_first-IsValid t time v)

-- So does the clean-up.
pub cleanup-IsValid :
    (t : Transactions) (now : Time) → IsValid t → IsValid (cleanup_expired_transaction t now)
unfolding cleanup_expired_transaction
cleanup-IsValid t now v = elim (Bool-cases (after t.first_item_received_time (expiry now))) [
  | inl young ↦ rw young v
  | inr old ↦ rw old (restart-IsValid t (find_received (drop 1 t.slots) 1) below v)
]
  where
    below : (i : ℕ) → find_received (drop 1 t.slots) 1 ≡ some i → i < total_received_count
    below i h =
        omega
          (arith, find_received-some (drop 1 t.slots) 1 i h, length-drop 1 t.slots, v.full_array)

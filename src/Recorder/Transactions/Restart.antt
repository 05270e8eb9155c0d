-- ===== src/Recorder/Transactions/Restart.antt =====
-- recorder/transaction.go: what the clean-up does to the base of the array.
use bitmarkd_broadcast_monit.Common.{
  ℕ, zero, suc, ◌+◌, ◌*◌, ◌≤◌, ◌≡◌, refl, ap, ◌∙◌, Bool, true, false, List, [], ◌∷◌, ◌++◌, arith,
  some, none, get_or, if◌then◌else◌, leb, Bool-cases, inl, inr, replicate, drop,
}
use bitmarkd_broadcast_monit.Clock.{Time, minute, zero_time, sub_time, after}
use bitmarkd_broadcast_monit.Recorder.{total_received_count, quot, expired_time_interval}
use bitmarkd_broadcast_monit.Recorder.Transactions.{
  Transactions, add, add_received, note_first, mark, round_time_to_minute, find_received,
  find_received_item_from_index, restart, cleanup_expired_transaction, summary,
}
use bitmarkd_broadcast_monit.Recorder.Transactions.Invariant.{expiry}
use bitmarkd_broadcast_monit.Recorder.Transactions.Recording.{slot_index}

abbrev pub NoneSet : List Bool → Type 0
NoneSet [] = Unit {0}
NoneSet (x ∷ xs) = (x ≡ false) × NoneSet xs

find_received-NoneSet : (xs : List Bool) (i : ℕ) → NoneSet xs → find_received xs i ≡ none
find_received-NoneSet [] i h = refl
find_received-NoneSet (x ∷ xs) i h = rw h.0 (find_received-NoneSet xs (i + 1) h.1)

pub NoneSet-replicate : (n : ℕ) → NoneSet (replicate n false)
NoneSet-replicate zero = tt
NoneSet-replicate (suc n) = (refl, NoneSet-replicate n)

NoneSet-drop : (n : ℕ) (xs : List Bool) → NoneSet xs → NoneSet (drop n xs)
NoneSet-drop zero xs h = h
NoneSet-drop (suc n) [] h = tt
NoneSet-drop (suc n) (x ∷ xs) h = NoneSet-drop n xs h.1

-- A recorder that has heard something, whose array is cleared and whose base is reset.
pub record IsCleared (t : Transactions) : Type 0 where
  pub heard : t.received ≡ true
  pub base : t.first_item_received_time ≡ zero_time
  pub silent : NoneSet t.slots

-- What happens to a recorder.
pub data Event : Type 0 where
  receive : Time → Event
  clean : Time → Event

abbrev pub step : Transactions → Event → Transactions
step t (receive time) = add t time
step t (clean now) = cleanup_expired_transaction t now

unfoldable pub run : Transactions → List Event → Transactions
run t [] = t
run t (e ∷ es) = run (step t e) es

abbrev pub AllFrom : Time → List Event → Type 0
AllFrom u [] = Unit {0}
AllFrom u (receive time ∷ es) = (u ≤ time) × AllFrom u es
AllFrom u (clean now ∷ es) = (u ≤ now) × AllFrom u es

-- Two hours and more behind the base nothing is written.
mark_far :
    (slots : List Bool) (time : Time)
    → zero_time + expired_time_interval ≤ time
    → mark slots (quot (sub_time (round_time_to_minute time) zero_time) minute) ≡ slots
mark_far slots time h =
    ap (mark slots) (slot_index zero_time time (omega arith) (omega arith)) ∙ ground arith

add-IsCleared :
    (t : Transactions) (time : Time)
    → zero_time + expired_time_interval ≤ time
    → IsCleared t
    → IsCleared (add t time)
unfolding add add_received note_first
add-IsCleared t time h c =
    rw c.heard (record {
      heard = refl;
      base = c.base;
      silent = rw (c.base, mark_far t.slots time h) c.silent;
    })

restart-IsCleared : (t : Transactions) → t.received ≡ true → IsCleared (restart t none)
unfolding restart
restart-IsCleared t r = record {
  heard = r;
  base = refl;
  silent = NoneSet-replicate total_received_count;
}

-- Where a recorder that has heard something finds no set slot behind its first one in a clean-up
-- two hours after its base, it is cleared.
pub cleanup-IsCleared :
    (t : Transactions) (now : Time)
    → t.received ≡ true
    → t.first_item_received_time + expired_time_interval ≤ now
    → NoneSet (drop 1 t.slots)
    → IsCleared (cleanup_expired_transaction t now)
unfolding cleanup_expired_transaction
cleanup-IsCleared t now r h silent =
    elim (Bool-cases (after t.first_item_received_time (expiry now))) [
      | inl young ↦ absurd (ground arith)
      | inr old ↦ rw (old, find_received-NoneSet (drop 1 t.slots) 1 silent) (restart-IsCleared t r)
    ]

step-IsCleared :
    (t : Transactions) (e : Event)
    → AllFrom (zero_time + expired_time_interval) (e ∷ [])
    → IsCleared t
    → IsCleared (step t e)
step-IsCleared t (receive time) h c = add-IsCleared t time h.0 c
step-IsCleared t (clean now) h c =
    cleanup-IsCleared t now c.heard (rw c.base h.0) (NoneSet-drop 1 t.slots c.silent)

summary-NoneSet :
    (t : Transactions) (now later : Time)
    → NoneSet t.slots
    → t.received ≡ true
    → ((summary now later t).received_count ≡ 0)
      × ((summary now later t).droprate ≡ record { num = 1; den = 1 })
unfolding summary
summary-NoneSet t now later silent heard =
    let e = find_received-NoneSet t.slots 0 silent in
    (rw (e, summary) refl, rw (e, summary, heard) refl)

-- A cleared recorder never records again: whatever it receives and however often it is cleaned up,
-- at times two hours after the zero time or later, it stays cleared, and its summary counts nothing
-- and gives a drop rate of 1.
pub run-IsCleared :
    (t : Transactions) (es : List Event) (now later : Time)
    → AllFrom (zero_time + expired_time_interval) es
    → IsCleared t
    → IsCleared (run t es)
      × ((summary now later (run t es)).received_count ≡ 0)
      × ((summary now later (run t es)).droprate ≡ record { num = 1; den = 1 })
unfolding run
run-IsCleared t [] now later h c =
    let (nothing, all) = summary-NoneSet t now later c.silent c.heard in (c, nothing, all)
run-IsCleared t (receive time ∷ es) now later h c =
    run-IsCleared (add t time) es now later h.1 (add-IsCleared t time h.0 c)
run-IsCleared t (clean time ∷ es) now later h c =
    run-IsCleared (cleanup_expired_transaction t time) es now later h.1
      (step-IsCleared t (clean time) (h.0, tt) c)

-- The start of the minute that a slot stands for.
abbrev pub minute_of_slot : Transactions → ℕ → Time
minute_of_slot t i = t.first_item_received_time + i * minute

get_or-false : (k i : ℕ) → get_or (replicate k false ++ []) i false ≡ false
get_or-false zero i = refl
get_or-false (suc k) zero = refl
get_or-false (suc k) (suc i) = get_or-false k i

get_or-restart :
    (slots : List Bool) (k i : ℕ)
    → get_or (replicate k false ++ drop k slots) i false
      ≡ (if leb k i then get_or slots i false else false)
get_or-restart slots zero i = ground arith
get_or-restart [] (suc k) zero = ground arith
get_or-restart [] (suc k) (suc i) = get_or-false k i ∙ ground arith
get_or-restart (x ∷ xs) (suc k) zero = ground arith
get_or-restart (x ∷ xs) (suc k) (suc i) = ground (arith, get_or-restart xs k i)

-- Where the clean-up of a recorder two hours after its base finds slot `k` set, and none between
-- it and the first, it leaves each slot from `k` on as it was and clears the others. But each slot
-- now stands for a minute that is `k + 1` minutes later.
pub cleanup_shifts :
    (t : Transactions) (now : Time) (k i : ℕ)
    → t.first_item_received_time + expired_time_interval ≤ now
    → find_received_item_from_index t 1 ≡ some k
    → let t' = cleanup_expired_transaction t now in
      (get_or t'.slots i false ≡ (if leb k i then get_or t.slots i false else false))
      × (minute_of_slot t' i ≡ minute_of_slot t i + (k + 1) * minute)
unfolding cleanup_expired_transaction restart
cleanup_shifts t now k i h found =
    elim (Bool-cases (after t.first_item_received_time (expiry now))) [
      | inl young ↦ absurd (ground arith)
      | inr old ↦ rw (old, found, restart) (get_or-restart t.slots k i, omega arith)
    ]

-- ===== src/Recorder/Blocks.antt =====
-- recorder/blocks.go: the record of received blocks, with its forks and late confirmations.
-- `*blocks` methods return the new record; `none` is a run-time panic; `time.Now()` is an argument.
-- The mutex is left out: each operation here is what runs under it.
pub mod Summary
pub mod Invariant
pub mod Forks
pub mod Missing
pub mod Ascending
pub mod Ring
pub mod Verdict
pub mod Hashless
pub mod Silent
mod Tests
mod CleanupTests
pub mod Window
pub mod Cleanup
pub mod Expiry
pub mod Overrun
pub mod Text
use bitmarkd_broadcast_monit.Common.{
  ℕ, ◌+◌, ◌-◌, ◌*◌, Bool, true, false, not, ◌&&◌, ◌||◌, Option, none, some, List, [], ◌∷◌, ◌++◌,
  ltb, leb, ◌==◌, if◌then◌else◌, length, set, take, drop, replicate, Bytes, bytes_eq,
  is_empty_string,
}
use bitmarkd_broadcast_monit.Common.Int.{pos, negsuc, leb_ℤ}
use bitmarkd_broadcast_monit.Clock.{
  Time, Duration, minute, zero_time, add_time, sub_time, after, before,
}
use bitmarkd_broadcast_monit.Recorder.Periodic
use bitmarkd_broadcast_monit.Recorder.Periodic.{RemoveEvent}
use bitmarkd_broadcast_monit.Recorder.{expired_time_interval}

abbrev pub data_length : ℕ
data_length = 100

abbrev pub long_confirm_interval : ℕ
long_confirm_interval = 30 * minute

pub record BlockData : Type 0 where
  pub hash : Bytes
  pub number : ℕ
  pub generate_time : Time
  pub received_time : Time

-- Go's zero value of the struct.
abbrev pub zero_block : BlockData
zero_block = record { hash = []; number = 0; generate_time = zero_time; received_time = zero_time }

abbrev pub is_empty : BlockData → Bool
is_empty b = 0 == b.number || is_empty_string b.hash

pub record Fork : Type 0 where
  pub begin : ℕ
  pub end : ℕ
  pub expired_at : Time

pub record LongConfirm : Type 0 where
  pub block_number : ℕ
  pub expired_at : Time
  pub period : Duration
  pub reported : Bool

-- `blocks`, less the mutex. `slots` is the array `data`.
pub record Blocks : Type 0 where
  pub slots : List BlockData
  pub earliest : Time
  pub latest_block : BlockData
  pub fork_in_progress : Bool
  pub forks : List Fork
  pub long_confirms : List LongConfirm
  pub id : ℕ

-- Each block should only be broadcast once.
unfoldable pub is_fork : Blocks → BlockData → Bool
is_fork b next =
    if is_empty b.latest_block
    then false
    else if ltb next.number b.latest_block.number
    then true
    else b.latest_block.number == next.number && not (bytes_eq b.latest_block.hash next.hash)

process_first_fork_block : Blocks → BlockData → Blocks
process_first_fork_block b next = record b {
  fork_in_progress = if b.latest_block.number == next.number then b.fork_in_progress else true;
  forks =
      b.forks
      ++ record {
        begin = next.number;
        end = b.latest_block.number;
        expired_at = add_time next.received_time (pos expired_time_interval);
      }
        ∷ [];
}

is_fork_finish : Blocks → BlockData → Bool
is_fork_finish b next = b.latest_block.number == next.number

update_fork_info : Blocks → BlockData → Blocks
unfolding process_first_fork_block is_fork_finish
update_fork_info b next =
    if not b.fork_in_progress
    then process_first_fork_block b next
    else if is_fork_finish b next
    then record b { fork_in_progress = false }
    else b

reset_fork_status : Blocks → Blocks
reset_fork_status b = if b.fork_in_progress then record b { fork_in_progress = false } else b

unfoldable pub process_fork : Blocks → BlockData → Blocks
unfolding is_fork update_fork_info reset_fork_status
process_fork b next = if is_fork b next then update_fork_info b next else reset_fork_status b

next_id : ℕ → ℕ
next_id id = if data_length - 1 == id then 0 else id + 1

-- A write past the end of the array panics.
unfoldable pub add_block : Blocks → BlockData → Option Blocks
unfolding next_id
add_block b next =
    if ltb b.id (length b.slots)
    then some (record b { slots = set b.slots b.id next; id = next_id b.id })
    else none

unfoldable pub update_latest_block : Blocks → BlockData → Blocks
update_latest_block b next =
    if leb b.latest_block.number next.number && not (bytes_eq next.hash b.latest_block.hash)
    then record b { latest_block = next }
    else b

unfoldable pub update_long_confirm_period_info : Blocks → BlockData → Blocks
update_long_confirm_period_info b next =
    let confirm_interval = sub_time next.received_time next.generate_time in
    if leb_ℤ (pos long_confirm_interval) confirm_interval
    then record b {
      long_confirms =
          b.long_confirms
          ++ record {
            block_number = next.number;
            expired_at = add_time next.received_time (pos expired_time_interval);
            period = confirm_interval;
            reported = false;
          }
            ∷ [];
    }
    else b

abbrev finish_add : BlockData → Option Blocks → Option Blocks
finish_add next none = none
finish_add next (some b) = some (update_long_confirm_period_info (update_latest_block b next) next)

unfoldable pub add : Blocks → Time → BlockData → Option Blocks
unfolding process_fork add_block update_latest_block update_long_confirm_period_info
add b t block =
    let next = record block { received_time = t } in
    finish_add next (add_block (process_fork b next) next)

unfoldable pub new_block : Time → Blocks
new_block now = record {
  slots = replicate data_length zero_block;
  earliest = now;
  latest_block = zero_block;
  fork_in_progress = false;
  forks = [];
  long_confirms = [];
  id = 0;
}

-- A fresh block at index `i` starts the window or ends it.
abbrev pub extend_window : ℕ → Option (ℕ × ℕ) → Option (ℕ × ℕ)
extend_window i none = some (i, i)
extend_window i (some (s, e)) = some (s, i)

-- The loop of `cleanupExpiredBlocks` from index `i`: `startIdx` and `endIdx`, both set or both not.
unfoldable pub find_fresh : Time → List BlockData → ℕ → Option (ℕ × ℕ) → Option (ℕ × ℕ)
find_fresh expired [] i found = found
find_fresh expired (b ∷ bs) i found =
    let rest =
      find_fresh expired bs (i + 1)
        (if after b.received_time expired then extend_window i found else found) in
    if is_empty b then found else rest

-- `xs[start:end]`
abbrev pub slice {ℓ} : {A : Type ℓ} → List A → ℕ → ℕ → List A
slice xs start end = take (end - start) (drop start xs)

-- `copy(tempArray[:], kept)` into an empty array.
abbrev pub copy_to_array : List BlockData → List BlockData
copy_to_array kept = take data_length kept ++ replicate (data_length - length kept) zero_block

keep_window : Blocks → Option (ℕ × ℕ) → Blocks
keep_window b none = b
keep_window b (some (s, e)) = record b {
  slots = copy_to_array (slice b.slots s (e + 1));
  id = e - s + 1;
}

unfoldable pub cleanup_expired_blocks : Blocks → Time → Blocks
unfolding find_fresh keep_window
cleanup_expired_blocks b now =
    let expired = add_time now (negsuc (expired_time_interval - 1)) in
    keep_window b (find_fresh expired b.slots 0 none)

-- `endIdx + 1`: the index after the last fork that has expired, from index `i` on.
unfoldable pub after_expired : Time → List Fork → ℕ → ℕ → ℕ
after_expired now [] i found = found
after_expired now (f ∷ fs) i found =
    after_expired now fs (i + 1) (if after now f.expired_at then i + 1 else found)

unfoldable pub cleanup_expired_forks : Blocks → Time → Blocks
unfolding after_expired
cleanup_expired_forks b now =
    let next = after_expired now b.forks 0 0 in
    record b { forks = if ltb (length b.forks) next then [] else drop next b.forks }

-- `startIdx`: the index of the last confirmation that has not expired, from index `i` on.
unfoldable pub last_fresh : Time → List LongConfirm → ℕ → ℕ → ℕ
last_fresh now [] i found = found
last_fresh now (c ∷ cs) i found =
    last_fresh now cs (i + 1) (if before now c.expired_at then i else found)

unfoldable pub cleanup_expired_long_confirms : Blocks → Time → Blocks
unfolding last_fresh
cleanup_expired_long_confirms b now =
    let start = last_fresh now b.long_confirms 0 0 in
    if start == 0 then b else record b { long_confirms = drop start b.long_confirms }

-- What the timer of `PeriodicRemove` triggers.
unfoldable pub cleanup : Blocks → Time → Blocks
unfolding cleanup_expired_blocks cleanup_expired_forks cleanup_expired_long_confirms
cleanup b now =
    cleanup_expired_long_confirms (cleanup_expired_forks (cleanup_expired_blocks b now) now) now

-- The shared loop with the clean-up of this recorder.
unfoldable pub periodic_remove : ℕ → List RemoveEvent → Blocks → Blocks
unfolding cleanup
periodic_remove args es s = Periodic.periodic_remove cleanup args es s

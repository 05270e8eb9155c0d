-- ===== src/Recorder/Blocks/Ring/Tests.antt =====
-- recorder/blocks.go: an array of blocks that has wrapped around.
use bitmarkd_broadcast_monit.Common.{
  ℕ, zero, suc, ◌+◌, ◌*◌, ◌≤◌, ◌<◌, ◌≡◌, ◌↔◌, refl, true, false, some, List, [], ◌∷◌, arith, length,
  codes, take, replicate, none, ◌++◌, ◌≢◌, ◌⊎◌, inr,
}
use bitmarkd_broadcast_monit.Clock.{Time, zero_time, hour, minute, sub_time}
use bitmarkd_broadcast_monit.Recorder.Blocks.{
  data_length, BlockData, Blocks, new_block, add, cleanup,
}
use bitmarkd_broadcast_monit.Recorder.Blocks.Cleanup.{expiry}
use bitmarkd_broadcast_monit.Recorder.Blocks.Window.{received_after, InOrder}
use bitmarkd_broadcast_monit.Recorder.Blocks.Ring.Expiring.{AreFilled}
use bitmarkd_broadcast_monit.Recorder.Blocks.Ring.History.{
  Op, push, expire, act_each, queue_each, act_each-new_block,
}
use bitmarkd_broadcast_monit.Recorder.Blocks.Ring.Reporting.{act_each-summarize}
use bitmarkd_broadcast_monit.Recorder.Blocks.Ring.Timer.{cleanup-Holds}
use bitmarkd_broadcast_monit.Recorder.Blocks.Ascending.{Rising, stored}
use bitmarkd_broadcast_monit.Recorder.Blocks.Invariant.{add_all}
use bitmarkd_broadcast_monit.Recorder.Blocks.Missing.{numbers, AscendsFrom}
use bitmarkd_broadcast_monit.Recorder.Blocks.Ring.Summary.{Received, summarize-latest}
use bitmarkd_broadcast_monit.Recorder.Blocks.Ring.{latest, Holds}
use bitmarkd_broadcast_monit.Recorder.Blocks.Summary.{contains, summarize, sort_array, last_number}

abbrev pub noon : Time
noon = zero_time + 20_000 * hour

abbrev pub block_numbered : ℕ → BlockData
block_numbered n = record {
  hash = codes "h";
  number = n;
  generate_time = noon;
  received_time = noon;
}

-- `k` blocks from number `n` on, one a minute, with every other number left out.
abbrev pub chain : ℕ → ℕ → List (Time × BlockData)
chain zero n = []
chain (suc k) n = (noon + n * minute, block_numbered n) ∷ chain k (n + 2)

chain-Rising : (k m n : ℕ) → m < n → Rising m (stored (chain k n))
chain-Rising zero m n h = tt
chain-Rising (suc k) m n h = (h, refl, chain-Rising k n (n + 2) (omega arith))

chain-Received : (k n : ℕ) → Received (stored (chain k n))
chain-Received zero n = tt
chain-Received (suc k) n = (omega arith, chain-Received k (n + 2))

-- Test: after 103 blocks the oldest block that is held is the fourth.
latest_test : numbers (take 1 (latest (stored (chain 103 1001)))) ≡ 1007 ∷ []
latest_test = refl

summarize-latest_example :
    let calls = chain 103 1001 in
    (b : Blocks) × (first : BlockData) × (rest : List BlockData) × (missing : List ℕ) × (add_all
        (new_block noon)
        calls
      ≡ some b)
    × (latest (stored calls) ≡ first ∷ rest)
    × (sort_array b.slots ≡ first ∷ rest)
    × (summarize (noon + hour) b
        ≡ some (sub_time (noon + hour) first.received_time, suc (length rest), missing))
    × AscendsFrom first.number missing
    × ((n : ℕ)
        → (contains n missing ≡ true) ↔ (
            (first.number ≤ n)
            × (n < last_number first rest)
            × (contains n (numbers (first ∷ rest)) ≡ false)))
summarize-latest_example =
    summarize-latest noon (noon + hour) (noon + 1001 * minute) (block_numbered 1001)
      (chain 102 1003) (chain-Rising 103 0 1001 (omega arith)) (chain-Received 103 1001)

-- Three blocks, a turn of the timer at which the first of them has expired, and one more block.
abbrev busy : List Op
busy =
    push noon (block_numbered 1)
    ∷ push (noon + hour) (block_numbered 2)
    ∷ push (noon + 2 * hour) (block_numbered 4)
    ∷ expire (noon + 2 * hour + minute)
    ∷ push (noon + 3 * hour) (block_numbered 5)
    ∷ []

queue_test : numbers (queue_each busy []) ≡ 2 ∷ 4 ∷ 5 ∷ []
queue_test = refl

act_each-new_block_example :
    (b : Blocks) × (act_each busy (new_block noon) ≡ some b) × Holds b (queue_each busy [])
act_each-new_block_example =
    act_each-new_block noon busy
      ((omega arith, refl, (omega arith, refl, (omega arith, refl, (omega arith, refl, tt)))))
      (omega arith, tt)

act_each-summarize_example :
    let first = record (block_numbered 2) { received_time = noon + hour } in
    let rest =
      record (block_numbered 4) { received_time = noon + 2 * hour }
      ∷ record (block_numbered 5) { received_time = noon + 3 * hour }
      ∷ [] in
    (b : Blocks) × (missing : List ℕ) × (act_each busy (new_block noon) ≡ some b)
    × (summarize (noon + 4 * hour) b ≡ some (sub_time (noon + 4 * hour) (noon + hour), 3, missing))
    × AscendsFrom 2 missing
    × ((n : ℕ)
        → (contains n missing ≡ true)
          ↔ ((2 ≤ n) × (n < 5) × (contains n (numbers (first ∷ rest)) ≡ false)))
act_each-summarize_example =
    act_each-summarize noon (noon + 4 * hour) busy
      (record (block_numbered 2) { received_time = noon + hour })
      (record (block_numbered 4) { received_time = noon + 2 * hour }
        ∷ record (block_numbered 5) { received_time = noon + 3 * hour }
        ∷ [])
      ((omega arith, refl, (omega arith, refl, (omega arith, refl, (omega arith, refl, tt)))))
      ((omega arith, refl, (omega arith, refl, (omega arith, refl, (omega arith, refl, tt)))))
      (omega arith, tt) refl

-- A record that has wrapped around: its last slots hold the oldest blocks.
abbrev turned : Blocks
turned = record (new_block noon) {
  slots =
      record (block_numbered 101) { received_time = noon + 3 * hour }
      ∷ replicate 99 (block_numbered 100);
  id = 1;
}

abbrev turned_queue : List BlockData
turned_queue =
    replicate 99 (block_numbered 100)
    ++ record (block_numbered 101) { received_time = noon + 3 * hour } ∷ []

turned_queue-AreFilled : AreFilled turned_queue
turned_queue-AreFilled = grind arith

turned_queue-InOrder : InOrder turned_queue
turned_queue-InOrder = omega arith

cleanup-Holds_example :
    ((received_after (expiry (noon + 4 * hour)) turned_queue ≡ [])
      × Holds (cleanup turned (noon + 4 * hour)) turned_queue)
    ⊎ (((received_after (expiry (noon + 4 * hour)) turned_queue ≢ [])
          × Holds
              (cleanup turned (noon + 4 * hour))
              (received_after (expiry (noon + 4 * hour)) turned_queue))
        ⊎ ((length turned_queue ≡ data_length)
            × ((t : Time) (block : BlockData)
                → add (cleanup turned (noon + 4 * hour)) t block ≡ none)))
unfolding new_block
cleanup-Holds_example =
    cleanup-Holds turned (noon + 4 * hour) turned_queue
      (record { full_array = refl; forks_fit = tt; confirms_fit = tt })
      (inr (record {
        older = replicate 99 (block_numbered 100);
        newer = record (block_numbered 101) { received_time = noon + 3 * hour } ∷ [];
        queue = refl;
        slots = refl;
        index = refl;
        room = omega arith;
        full = refl;
      }))
      turned_queue-AreFilled turned_queue-InOrder

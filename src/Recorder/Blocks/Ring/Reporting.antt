-- ===== src/Recorder/Blocks/Ring/Reporting.antt =====
-- recorder/blocks.go: the summary after additions and clean-ups in any order.
use bitmarkd_broadcast_monit.Common.{
  ℕ, suc, ◌≤◌, ◌<◌, ◌≡◌, subst, ◌↔◌, true, false, some, List, [], ◌∷◌, arith, length,
}
use bitmarkd_broadcast_monit.Clock.{Time, zero_time, sub_time}
use bitmarkd_broadcast_monit.Recorder.Blocks.{BlockData, Blocks, new_block}
use bitmarkd_broadcast_monit.Recorder.Blocks.Missing.{numbers, AscendsFrom, missing_blocks_lem}
use bitmarkd_broadcast_monit.Recorder.Blocks.Ring.History.{
  Op, push, expire, act_each, queue_each, AreTimely, HasSpare, act_each-new_block,
}
use bitmarkd_broadcast_monit.Recorder.Blocks.Ring.Risen.{AreRising, IsRisen, queue_each-IsRisen}
use bitmarkd_broadcast_monit.Recorder.Blocks.Ring.Summary.{Received, summarize-Holds}
use bitmarkd_broadcast_monit.Recorder.Blocks.Ring.{Holds}
use bitmarkd_broadcast_monit.Recorder.Blocks.Summary.{summarize, contains, last_number}
use bitmarkd_broadcast_monit.Recorder.Blocks.Window.{AllFrom}

AreTimely-mono : (t u : Time) (ops : List Op) → t ≤ u → AreTimely u ops → AreTimely t ops
AreTimely-mono t u [] h a = tt
AreTimely-mono t u (push v block ∷ ops) h a = (omega (arith, a.0), a.1, a.2)
AreTimely-mono t u (expire now ∷ ops) h a = AreTimely-mono t u ops h a

AllFrom-Received : (bs : List BlockData) → AllFrom (suc zero_time) bs → Received bs
AllFrom-Received [] a = tt
AllFrom-Received (b ∷ bs) a = (λ e. omega (arith, a.0, e), AllFrom-Received bs a.1)

-- From a new record on, let blocks with hashes be added, each higher than those before, at times
-- after Go's zero time that do not go back, and the timer come at any times in between, each time
-- when the queue of the recorded blocks has a place free. Then no `Add` panics. If `first` is the
-- oldest block of the queue at the end, then the summary counts the blocks of the queue, takes the
-- time since `first`, and reports as missing, in ascending order, exactly the numbers between that
-- of `first` and that of the last block which no block of the queue has.
pub act_each-summarize :
    (start now : Time) (ops : List Op) (first : BlockData) (rest : List BlockData)
    → AreTimely (suc zero_time) ops
    → AreRising 0 ops
    → HasSpare ops []
    → queue_each ops [] ≡ first ∷ rest
    → (b : Blocks) × (missing : List ℕ) × (act_each ops (new_block start) ≡ some b)
      × (summarize now b ≡ some (sub_time now first.received_time, suc (length rest), missing))
      × AscendsFrom first.number missing
      × ((n : ℕ)
          → (contains n missing ≡ true) ↔ (
              (first.number ≤ n)
              × (n < last_number first rest)
              × (contains n (numbers (first ∷ rest)) ≡ false)))
act_each-summarize start now ops first rest timely rising spare e =
    let (b, r, h) =
      act_each-new_block start ops
        (AreTimely-mono zero_time (suc zero_time) ops (omega arith) timely) spare in
    let (m, risen) =
      queue_each-IsRisen ops 0 (suc zero_time) []
        (record { rising = tt; up_to = tt; received = tt }) rising timely (omega arith) in
    let i : IsRisen m (first ∷ rest) = subst (IsRisen m) e risen in
    let (keys, missing, found, _, _, up, iff) = missing_blocks_lem first rest in
    (
      b,
      missing,
      r,
      summarize-Holds now b first rest _ missing (subst (Holds b) e h) i.rising
          (AllFrom-Received (first ∷ rest) i.received) found,
      up,
      iff,
    )

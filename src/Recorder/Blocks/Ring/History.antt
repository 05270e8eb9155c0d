-- ===== src/Recorder/Blocks/Ring/History.antt =====
-- recorder/blocks.go: additions and clean-ups in any order, over a queue with expiry.
use bitmarkd_broadcast_monit.Common.{
  ◌-◌, ◌≤◌, ◌<◌, ◌≡◌, ◌≢◌, refl, sym, subst, ap, inl, inr, false, Option, none, some, List, [], ◌∷◌,
  ◌++◌, arith, length, length-append,
}
use bitmarkd_broadcast_monit.Clock.{Time, zero_time}
use bitmarkd_broadcast_monit.Recorder.Blocks.{
  data_length, is_empty, BlockData, Blocks, add, new_block, cleanup,
}
use bitmarkd_broadcast_monit.Recorder.Blocks.Cleanup.{expiry, cleanup-IsValid}
use bitmarkd_broadcast_monit.Recorder.Blocks.Invariant.{IsValid, add-IsValid, new_block-IsValid}
use bitmarkd_broadcast_monit.Recorder.Blocks.Ring.{
  latest, latest-short, Holds, Holds-below, Holds-latest, new_block-Filling,
}
use bitmarkd_broadcast_monit.Recorder.Blocks.Ring.Queue.{
  IsQueue, IsQueue-drop, IsQueue-snoc, IsQueue-received_after,
}
use bitmarkd_broadcast_monit.Recorder.Blocks.Ring.Timer.{cleanup-Holds}
use bitmarkd_broadcast_monit.Recorder.Blocks.Window.{received_after}

-- A call of `Add` with the time at which it reads the clock, or a turn of the timer.
pub data Op : Type 0 where
  push : Time → BlockData → Op
  expire : Time → Op

unfoldable pub act : Op → Blocks → Option Blocks
act (push t block) b = add b t block
act (expire now) b = some (cleanup b now)

unfoldable pub act_each : List Op → Blocks → Option Blocks
act_each [] b = some b
act_each (op ∷ ops) b = elim (act op b) [ none ↦ none | some b' ↦ act_each ops b' ]

abbrev pub unless_empty : List BlockData → List BlockData → List BlockData
unless_empty q [] = q
unless_empty q (b ∷ bs) = b ∷ bs

-- The queue: a hundred places, and an expiry of two hours, which does nothing to a queue of which
-- all has expired.
abbrev pub queue_op : Op → List BlockData → List BlockData
queue_op (push t block) q = latest (q ++ record block { received_time = t } ∷ [])
queue_op (expire now) q = unless_empty q (received_after (expiry now) q)

abbrev pub queue_each : List Op → List BlockData → List BlockData
queue_each [] q = q
queue_each (op ∷ ops) q = queue_each ops (queue_op op q)

-- The blocks have numbers and hashes, and `Add` never reads an earlier time than before.
abbrev pub AreTimely : Time → List Op → Type 0
AreTimely t [] = Unit {0}
AreTimely t (push u block ∷ ops) =
    (t ≤ u) × (is_empty (record block { received_time = u }) ≡ false) × AreTimely u ops
AreTimely t (expire now ∷ ops) = AreTimely t ops

-- Whenever the timer comes, the queue has a place free.
abbrev pub HasSpare : List Op → List BlockData → Type 0
HasSpare [] q = Unit {0}
HasSpare (push t block ∷ ops) q = HasSpare ops (queue_op (push t block) q)
HasSpare (expire now ∷ ops) q = (length q < data_length) × HasSpare ops (queue_op (expire now) q)

IsQueue-unless_empty :
    (t : Time) (q fresh : List BlockData)
    → IsQueue t q
    → IsQueue t fresh
    → IsQueue t (unless_empty q fresh)
IsQueue-unless_empty t q [] i j = i
IsQueue-unless_empty t q (b ∷ bs) i j = j

unless_empty-nonempty : (q fresh : List BlockData) → fresh ≢ [] → unless_empty q fresh ≡ fresh
unless_empty-nonempty q [] h = absurd (h refl)
unless_empty-nonempty q (b ∷ bs) h = refl

-- With a place free, the timer leaves the queue of the blocks that are fresh, or all if none is.
expire-Holds :
    (b : Blocks) (now t : Time) (q : List BlockData)
    → IsValid b
    → Holds b q
    → IsQueue t q
    → length q < data_length
    → Holds (cleanup b now) (queue_op (expire now) q)
expire-Holds b now t q v h i spare = elim (cleanup-Holds b now q v h i.filled i.in_order) [
  | inl (empty, same) ↦ subst (λ l. Holds (cleanup b now) (unless_empty q l)) (sym empty) same
  | inr (inl (some_fresh, kept)) ↦
      subst (Holds (cleanup b now)) (sym (unless_empty-nonempty q _ some_fresh)) kept
  | inr (inr (full, _)) ↦ absurd (omega (arith, full, spare))
]

push-Holds :
    (b : Blocks) (t : Time) (block : BlockData) (q : List BlockData)
    → IsValid b
    → Holds b q
    → length q ≤ data_length
    → (b' : Blocks) × (add b t block ≡ some b') × IsValid b' × Holds b' (queue_op (push t block) q)
push-Holds b t block q v h short =
    let (c, e, w, slots, id) = add-IsValid b t block v (Holds-below b q h) in
    let h' : Holds b (latest q) = subst (Holds b) (sym (latest-short q short)) h in
    (c, e, w, Holds-latest b c (record block { received_time = t }) q slots id h')

length-Holds : (b : Blocks) (q : List BlockData) → Holds b q → length q ≤ data_length
length-Holds b q (inl f) = omega (arith, f.room)
length-Holds b q (inr w) = omega (arith, w.full, ap length w.queue, length-append w.older w.newer)

act_each-Holds :
    (b : Blocks) (ops : List Op) (t : Time) (q : List BlockData)
    → IsValid b
    → Holds b q
    → IsQueue t q
    → AreTimely t ops
    → HasSpare ops q
    → (b' : Blocks) × (act_each ops b ≡ some b') × Holds b' (queue_each ops q)
unfolding act_each act
act_each-Holds b [] t q v h i timely spare = (b, refl, h)
act_each-Holds b (push u block ∷ ops) t q v h i timely spare =
    let x : BlockData = record block { received_time = u } in
    let (c, e, w, h') = push-Holds b u block q v h (length-Holds b q h) in
    let i' = IsQueue-snoc t q x timely.0 timely.1 i in
    let n = length (q ++ x ∷ []) - data_length in
    let (b', r, final) =
      act_each-Holds c ops u (queue_op (push u block) q) w h' (IsQueue-drop n u (q ++ x ∷ []) i')
        timely.2 spare in
    (b', rw (act_each, act, e) r, final)
act_each-Holds b (expire now ∷ ops) t q v h i timely spare =
    let q' = queue_op (expire now) q in
    act_each-Holds (cleanup b now) ops t q' (cleanup-IsValid b now v)
      (expire-Holds b now t q v h i spare.0)
      (IsQueue-unless_empty t q _ i (IsQueue-received_after t (expiry now) q i)) timely spare.1

-- From a new record on, let blocks with numbers and hashes be added, at times that do not go back,
-- and the timer come at any times in between, each time when the queue has a place free. Then no
-- `Add` panics, and the record is at the end the queue that holds the last hundred blocks and in
-- which each turn of the timer keeps those of the last two hours, if there is one.
pub act_each-new_block :
    (start : Time) (ops : List Op)
    → AreTimely zero_time ops
    → HasSpare ops []
    → (b : Blocks) × (act_each ops (new_block start) ≡ some b) × Holds b (queue_each ops [])
act_each-new_block start ops timely spare =
    act_each-Holds (new_block start) ops zero_time [] (new_block-IsValid start)
      (inl (new_block-Filling start)) (record { filled = tt; in_order = tt; until = tt }) timely
      spare

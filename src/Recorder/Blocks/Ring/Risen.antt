-- ===== src/Recorder/Blocks/Ring/Risen.antt =====
-- recorder/blocks.go: a queue of blocks with numbers that rise, through additions and clean-ups.
use bitmarkd_broadcast_monit.Common.{
  ℕ, zero, suc, ◌-◌, ◌≤◌, ◌<◌, ◌≡◌, false, List, [], ◌∷◌, ◌++◌, arith, length, drop,
  is_empty_string,
}
use bitmarkd_broadcast_monit.Clock.{Time, zero_time}
use bitmarkd_broadcast_monit.Recorder.Blocks.{data_length, BlockData}
use bitmarkd_broadcast_monit.Recorder.Blocks.Ascending.{Rising}
use bitmarkd_broadcast_monit.Recorder.Blocks.Cleanup.{expiry}
use bitmarkd_broadcast_monit.Recorder.Blocks.Ring.History.{
  Op, push, expire, unless_empty, queue_op, queue_each, AreTimely,
}
use bitmarkd_broadcast_monit.Recorder.Blocks.Ring.Queue.{AllFrom-received_after, AllFrom-snoc}
use bitmarkd_broadcast_monit.Recorder.Blocks.Ring.Summary.{Rising-tail}
use bitmarkd_broadcast_monit.Recorder.Blocks.Window.{received_after, AllFrom}

-- Each block that is added has a hash, and a higher number than those before and than `n`.
abbrev pub AreRising : ℕ → List Op → Type 0
AreRising n [] = Unit {0}
AreRising n (push t block ∷ ops) =
    (n < block.number) × (is_empty_string block.hash ≡ false) × AreRising block.number ops
AreRising n (expire now ∷ ops) = AreRising n ops

abbrev NoneAbove : ℕ → List BlockData → Type 0
NoneAbove n [] = Unit {0}
NoneAbove n (b ∷ bs) = (b.number ≤ n) × NoneAbove n bs

NoneAbove-mono : (n m : ℕ) (bs : List BlockData) → n ≤ m → NoneAbove n bs → NoneAbove m bs
NoneAbove-mono n m [] h a = tt
NoneAbove-mono n m (b ∷ bs) h a = (omega (arith, a.0), NoneAbove-mono n m bs h a.1)

-- Received after Go's zero time, with numbers that rise up to `n` at most.
pub record IsRisen (n : ℕ) (q : List BlockData) : Type 0 where
  pub rising : Rising 0 q
  pub up_to : NoneAbove n q
  pub received : AllFrom (suc zero_time) q

Rising-snoc :
    (m n : ℕ) (bs : List BlockData) (x : BlockData)
    → Rising m bs
    → NoneAbove n bs
    → m ≤ n
    → n < x.number
    → is_empty_string x.hash ≡ false
    → Rising m (bs ++ x ∷ [])
Rising-snoc m n [] x r a h up hashed = (omega arith, hashed, tt)
Rising-snoc m n (b ∷ bs) x r a h up hashed =
    (r.0, r.1, Rising-snoc b.number n bs x r.2 a.1 a.0 up hashed)

NoneAbove-snoc :
    (n : ℕ) (bs : List BlockData) (x : BlockData)
    → x.number ≤ n
    → NoneAbove n bs
    → NoneAbove n (bs ++ x ∷ [])
NoneAbove-snoc n [] x h a = (h, tt)
NoneAbove-snoc n (b ∷ bs) x h a = (a.0, NoneAbove-snoc n bs x h a.1)

IsRisen-snoc :
    (n : ℕ) (q : List BlockData) (x : BlockData)
    → n < x.number
    → is_empty_string x.hash ≡ false
    → suc zero_time ≤ x.received_time
    → IsRisen n q
    → IsRisen x.number (q ++ x ∷ [])
IsRisen-snoc n q x up hashed late i = record {
  rising = Rising-snoc 0 n q x i.rising i.up_to (omega arith) up hashed;
  up_to =
      NoneAbove-snoc x.number q x (omega arith)
        (NoneAbove-mono n x.number q (omega (arith, up)) i.up_to);
  received = AllFrom-snoc (suc zero_time) q x late i.received;
}

IsRisen-drop : (k n : ℕ) (q : List BlockData) → IsRisen n q → IsRisen n (drop k q)
IsRisen-drop zero n q i = i
IsRisen-drop (suc k) n [] i = i
IsRisen-drop (suc k) n (b ∷ bs) i =
    IsRisen-drop k n bs
      (record { rising = Rising-tail 0 b bs i.rising; up_to = i.up_to.1; received = i.received.1 })

Rising-lower : (n m : ℕ) (bs : List BlockData) → n ≤ m → Rising m bs → Rising n bs
Rising-lower n m [] h r = tt
Rising-lower n m (b ∷ bs) h r = (omega (arith, r.0), r.1, r.2)

Rising-received_after :
    (n : ℕ) (e : Time) (bs : List BlockData) → Rising n bs → Rising n (received_after e bs)
Rising-received_after n e [] r = tt
Rising-received_after n e (b ∷ bs) r =
    let rest = Rising-received_after b.number e bs r.2 in
    ground (
      arith,
      rest,
      r.0,
      r.1,
      Rising-lower n b.number (received_after e bs) (omega (arith, r.0)) rest,
    )

NoneAbove-received_after :
    (n : ℕ) (e : Time) (bs : List BlockData) → NoneAbove n bs → NoneAbove n (received_after e bs)
NoneAbove-received_after n e [] a = tt
NoneAbove-received_after n e (b ∷ bs) a = ground (arith, NoneAbove-received_after n e bs a.1, a.0)

IsRisen-unless_empty :
    (n : ℕ) (q fresh : List BlockData)
    → IsRisen n q
    → IsRisen n fresh
    → IsRisen n (unless_empty q fresh)
IsRisen-unless_empty n q [] i j = i
IsRisen-unless_empty n q (b ∷ bs) i j = j

pub queue_each-IsRisen :
    (ops : List Op) (n : ℕ) (t : Time) (q : List BlockData)
    → IsRisen n q
    → AreRising n ops
    → AreTimely t ops
    → suc zero_time ≤ t
    → (m : ℕ) × IsRisen m (queue_each ops q)
queue_each-IsRisen [] n t q i r timely late = (n, i)
queue_each-IsRisen (push u block ∷ ops) n t q i r timely late =
    let x : BlockData = record block { received_time = u } in
    let i' = IsRisen-snoc n q x r.0 r.1 (omega (arith, timely.0)) i in
    queue_each-IsRisen ops block.number u (queue_op (push u block) q)
      (IsRisen-drop (length (q ++ x ∷ []) - data_length) block.number (q ++ x ∷ []) i') r.2 timely.2
      (omega (arith, timely.0))
queue_each-IsRisen (expire now ∷ ops) n t q i r timely late =
    let fresh = received_after (expiry now) q in
    queue_each-IsRisen ops n t (queue_op (expire now) q)
      (IsRisen-unless_empty n q fresh i (record {
        rising = Rising-received_after 0 (expiry now) q i.rising;
        up_to = NoneAbove-received_after n (expiry now) q i.up_to;
        received = AllFrom-received_after (suc zero_time) (expiry now) q i.received;
      }))
      r timely late

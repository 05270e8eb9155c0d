-- ===== src/Recorder/Blocks/Ring/Queue.antt =====
-- recorder/blocks.go: what stays true of the queue that the array holds.
use bitmarkd_broadcast_monit.Common.{
  ℕ, zero, suc, ◌≤◌, ◌≡◌, false, List, [], ◌∷◌, ◌++◌, arith, drop,
}
use bitmarkd_broadcast_monit.Clock.{Time}
use bitmarkd_broadcast_monit.Recorder.Blocks.{is_empty, BlockData}
use bitmarkd_broadcast_monit.Recorder.Blocks.Ring.Expiring.{AreFilled, append-AreFilled}
use bitmarkd_broadcast_monit.Recorder.Blocks.Window.{received_after, AllFrom, InOrder}

-- All were received by `t`.
abbrev AllUntil : Time → List BlockData → Type 0
AllUntil t [] = Unit {0}
AllUntil t (b ∷ bs) = (b.received_time ≤ t) × AllUntil t bs

-- Blocks with numbers and hashes, in the order of receipt, all received by `t`.
pub record IsQueue (t : Time) (q : List BlockData) : Type 0 where
  pub filled : AreFilled q
  pub in_order : InOrder q
  pub until : AllUntil t q

AllUntil-mono : (t u : Time) (bs : List BlockData) → t ≤ u → AllUntil t bs → AllUntil u bs
AllUntil-mono t u [] h a = tt
AllUntil-mono t u (b ∷ bs) h a = (omega (arith, a.0), AllUntil-mono t u bs h a.1)

IsQueue-tail : (t : Time) (b : BlockData) (bs : List BlockData) → IsQueue t (b ∷ bs) → IsQueue t bs
IsQueue-tail t b bs i = record { filled = i.filled.1; in_order = i.in_order.1; until = i.until.1 }

pub IsQueue-drop : (n : ℕ) (t : Time) (q : List BlockData) → IsQueue t q → IsQueue t (drop n q)
IsQueue-drop zero t q i = i
IsQueue-drop (suc n) t [] i = i
IsQueue-drop (suc n) t (b ∷ bs) i = IsQueue-drop n t bs (IsQueue-tail t b bs i)

pub AllFrom-snoc :
    (t : Time) (bs : List BlockData) (x : BlockData)
    → t ≤ x.received_time
    → AllFrom t bs
    → AllFrom t (bs ++ x ∷ [])
AllFrom-snoc t [] x h a = (h, tt)
AllFrom-snoc t (b ∷ bs) x h a = (a.0, AllFrom-snoc t bs x h a.1)

InOrder-snoc :
    (t : Time) (bs : List BlockData) (x : BlockData)
    → t ≤ x.received_time
    → AllUntil t bs
    → InOrder bs
    → InOrder (bs ++ x ∷ [])
InOrder-snoc t [] x h a o = (tt, tt)
InOrder-snoc t (b ∷ bs) x h a o =
    (AllFrom-snoc b.received_time bs x (omega (arith, a.0)) o.0, InOrder-snoc t bs x h a.1 o.1)

AllUntil-snoc :
    (t : Time) (bs : List BlockData) (x : BlockData)
    → x.received_time ≤ t
    → AllUntil t bs
    → AllUntil t (bs ++ x ∷ [])
AllUntil-snoc t [] x h a = (h, tt)
AllUntil-snoc t (b ∷ bs) x h a = (a.0, AllUntil-snoc t bs x h a.1)

pub IsQueue-snoc :
    (t : Time) (q : List BlockData) (x : BlockData)
    → t ≤ x.received_time
    → is_empty x ≡ false
    → IsQueue t q
    → IsQueue x.received_time (q ++ x ∷ [])
IsQueue-snoc t q x h f i = record {
  filled = append-AreFilled q (x ∷ []) i.filled (f, tt);
  in_order = InOrder-snoc t q x h i.until i.in_order;
  until =
      AllUntil-snoc x.received_time q x (omega arith) (AllUntil-mono t x.received_time q h i.until);
}

pub AllFrom-received_after :
    (t e : Time) (bs : List BlockData) → AllFrom t bs → AllFrom t (received_after e bs)
AllFrom-received_after t e [] a = tt
AllFrom-received_after t e (b ∷ bs) a = ground (arith, AllFrom-received_after t e bs a.1, a.0)

AreFilled-received_after :
    (e : Time) (bs : List BlockData) → AreFilled bs → AreFilled (received_after e bs)
AreFilled-received_after e [] f = tt
AreFilled-received_after e (b ∷ bs) f = ground (arith, AreFilled-received_after e bs f.1, f.0)

InOrder-received_after :
    (e : Time) (bs : List BlockData) → InOrder bs → InOrder (received_after e bs)
InOrder-received_after e [] o = tt
InOrder-received_after e (b ∷ bs) o =
    ground (arith, InOrder-received_after e bs o.1, AllFrom-received_after b.received_time e bs o.0)

AllUntil-received_after :
    (t e : Time) (bs : List BlockData) → AllUntil t bs → AllUntil t (received_after e bs)
AllUntil-received_after t e [] a = tt
AllUntil-received_after t e (b ∷ bs) a = ground (arith, AllUntil-received_after t e bs a.1, a.0)

pub IsQueue-received_after :
    (t e : Time) (q : List BlockData) → IsQueue t q → IsQueue t (received_after e q)
IsQueue-received_after t e q i = record {
  filled = AreFilled-received_after e q i.filled;
  in_order = InOrder-received_after e q i.in_order;
  until = AllUntil-received_after t e q i.until;
}

-- ===== src/Recorder/Blocks/Ring/Expiring.antt =====
-- recorder/blocks.go: the clean-up of the array as a ring.
use bitmarkd_broadcast_monit.Common.{
  ℕ, zero, suc, ◌+◌, ◌≤◌, ◌≡◌, ◌≢◌, refl, sym, subst, ap, ◌∙◌, ◌⊎◌, inl, inr, false, Option, none,
  List, [], ◌∷◌, ◌++◌, arith, append-nil, length, replicate, take, drop,
}
use bitmarkd_broadcast_monit.Clock.{Time, after}
use bitmarkd_broadcast_monit.Recorder.Blocks.{
  zero_block, is_empty, BlockData, Blocks, find_fresh, cleanup_expired_blocks,
}
use bitmarkd_broadcast_monit.Recorder.Blocks.Ascending.{padded}
use bitmarkd_broadcast_monit.Recorder.Blocks.Cleanup.{
  expiry, kept_blocks, cleanup_expired_blocks_keeps, cleanup_expired_blocks_stale,
}
use bitmarkd_broadcast_monit.Recorder.Blocks.Invariant.{IsValid}
use bitmarkd_broadcast_monit.Recorder.Blocks.Overrun.{final}
use bitmarkd_broadcast_monit.Recorder.Blocks.Window.{
  recorded, received_after, AllFrom, InOrder, Window,
}

-- No block of the list passes for an empty slot.
abbrev pub AreFilled : List BlockData → Type 0
AreFilled [] = Unit {0}
AreFilled (b ∷ bs) = (is_empty b ≡ false) × AreFilled bs

pub recorded-free :
    (bs : List BlockData) (m : ℕ) → AreFilled bs → recorded (bs ++ replicate m zero_block) ≡ bs
recorded-free [] zero f = refl
recorded-free [] (suc m) f = refl
recorded-free (b ∷ bs) m f = rw f.0 (ap (λ l. b ∷ l) (recorded-free bs m f.1))

pub recorded-AreFilled : (bs : List BlockData) → AreFilled bs → recorded bs ≡ bs
recorded-AreFilled bs f = ap recorded (sym (append-nil bs)) ∙ recorded-free bs 0 f

pub AreFilled-append : (xs ys : List BlockData) → AreFilled (xs ++ ys) → AreFilled xs × AreFilled ys
AreFilled-append [] ys f = (tt, f)
AreFilled-append (x ∷ xs) ys f =
    let (left, right) = AreFilled-append xs ys f.1 in ((f.0, left), right)

pub append-AreFilled : (xs ys : List BlockData) → AreFilled xs → AreFilled ys → AreFilled (xs ++ ys)
append-AreFilled [] ys f g = g
append-AreFilled (x ∷ xs) ys f g = (f.0, append-AreFilled xs ys f.1 g)

pub length-received_after :
    (t : Time) (bs : List BlockData) → length (received_after t bs) ≤ length bs
length-received_after t [] = omega arith
length-received_after t (b ∷ bs) = ground (arith, length-received_after t bs)

empty_or_not : (bs : List BlockData) → (bs ≡ []) ⊎ (bs ≢ [])
empty_or_not [] = inl refl
empty_or_not (b ∷ bs) = inr (λ e. cc)

-- Where the recorded blocks, in the order of receipt, are the queue, the fresh ones stay.
pub cleanup-recorded :
    (b : Blocks) (now : Time) (q : List BlockData)
    → IsValid b
    → recorded b.slots ≡ q
    → InOrder q
    → let b' = cleanup_expired_blocks b now in
      let fresh = received_after (expiry now) q in
      ((fresh ≡ []) × (b' ≡ b))
      ⊎ ((fresh ≢ []) × (b'.slots ≡ padded fresh) × (b'.id ≡ length fresh))
cleanup-recorded b now q v same o =
    subst
      (λ l.
        let b' = cleanup_expired_blocks b now in
        let fresh = received_after (expiry now) l in
        ((fresh ≡ []) × (b' ≡ b))
        ⊎ ((fresh ≢ []) × (b'.slots ≡ padded fresh) × (b'.id ≡ length fresh)))
      same
      (elim (empty_or_not (kept_blocks b now)) [
        | inl empty ↦ inl (empty, cleanup_expired_blocks_stale b now o' empty)
        | inr some_fresh ↦
            let (slots, id) = cleanup_expired_blocks_keeps b now v o' some_fresh in
            inr (some_fresh, slots, id)
      ])
  where
    o' : InOrder (recorded b.slots)
    o' = subst InOrder (sym same) o

-- All were received by then.
abbrev pub AreStale : Time → List BlockData → Type 0
AreStale t [] = Unit {0}
AreStale t (b ∷ bs) = (after b.received_time t ≡ false) × AreStale t bs

pub AreStale-last :
    (t : Time) (b : BlockData) (bs : List BlockData)
    → InOrder (b ∷ bs)
    → after (final b bs).received_time t ≡ false
    → AreStale t (b ∷ bs)
AreStale-last t b [] o stale = (stale, tt)
AreStale-last t b (c ∷ cs) o stale =
    let rest = AreStale-last t c cs o.1 stale in (ground (arith, o.0.0, rest.0), rest)

pub received_after-stale :
    (t : Time) (xs ys : List BlockData)
    → AreStale t xs
    → received_after t (xs ++ ys) ≡ received_after t ys
received_after-stale t [] ys s = refl
received_after-stale t (x ∷ xs) ys s = rw s.0 (received_after-stale t xs ys s.1)

pub received_after-append_stale :
    (t : Time) (xs ys : List BlockData)
    → AreStale t ys
    → received_after t (xs ++ ys) ≡ received_after t xs
received_after-append_stale t [] ys s =
    ap (received_after t) (sym (append-nil ys)) ∙ received_after-stale t ys [] s
received_after-append_stale t (x ∷ xs) ys s = ground (arith, received_after-append_stale t xs ys s)

find_fresh-stale :
    (t : Time) (ys : List BlockData) (i : ℕ) (found : Option (ℕ × ℕ))
    → AreStale t ys
    → find_fresh t ys i found ≡ found
unfolding find_fresh
find_fresh-stale t [] i found s = refl
find_fresh-stale t (y ∷ ys) i found s = ground (arith, find_fresh-stale t ys (i + 1) found s.1, s.0)

pub find_fresh-append_stale :
    (t : Time) (xs ys : List BlockData) (i : ℕ) (found : Option (ℕ × ℕ))
    → AreFilled xs
    → AreStale t ys
    → find_fresh t (xs ++ ys) i found ≡ find_fresh t xs i found
unfolding find_fresh
find_fresh-append_stale t [] ys i found f s = find_fresh-stale t ys i found s
find_fresh-append_stale t (x ∷ xs) ys i found f s =
    rw f.0 (find_fresh-append_stale t xs ys (i + 1) _ f.1 s)

take-drop-append :
    (k n : ℕ) (xs ys : List BlockData)
    → length (take n (drop k xs)) ≡ n
    → take n (drop k (xs ++ ys)) ≡ take n (drop k xs)
take-drop-append zero zero xs ys h = refl
take-drop-append zero (suc n) [] ys h = absurd (omega arith)
take-drop-append zero (suc n) (x ∷ xs) ys h =
    ap (λ l. x ∷ l) (take-drop-append zero n xs ys (omega arith))
take-drop-append (suc k) zero [] ys h = refl
take-drop-append (suc k) (suc n) [] ys h = absurd (omega arith)
take-drop-append (suc k) n (x ∷ xs) ys h = take-drop-append k n xs ys h

pub Window-append_stale :
    (t : Time) (xs ys : List BlockData)
    → AreFilled xs
    → AreFilled ys
    → AreStale t ys
    → Window t xs 0
    → Window t (xs ++ ys) 0
Window-append_stale t xs ys f g s w = record {
  skipped = w.skipped;
  found = rw e (find_fresh-append_stale t xs ys 0 none f s ∙ w.found);
  held = rw e w.held;
  holds = rw e (
      take-drop-append w.skipped (length (received_after t (recorded xs))) xs ys (ap length w.holds)
      ∙ w.holds);
}
  where
    e : received_after t (recorded (xs ++ ys)) ≡ received_after t (recorded xs)
    e =
        ap (received_after t) (recorded-AreFilled (xs ++ ys) (append-AreFilled xs ys f g))
        ∙ received_after-append_stale t xs ys s
        ∙ ap (received_after t) (sym (recorded-AreFilled xs f))

AllFrom-left : (t : Time) (xs ys : List BlockData) → AllFrom t (xs ++ ys) → AllFrom t xs
AllFrom-left t [] ys a = tt
AllFrom-left t (x ∷ xs) ys a = (a.0, AllFrom-left t xs ys a.1)

pub InOrder-append : (xs ys : List BlockData) → InOrder (xs ++ ys) → InOrder xs × InOrder ys
InOrder-append [] ys o = (tt, o)
InOrder-append (x ∷ xs) ys o =
    let (left, right) = InOrder-append xs ys o.1 in
    ((AllFrom-left x.received_time xs ys o.0, left), right)

pub final-first :
    (o : BlockData) (os : List BlockData) (n : BlockData) (ns : List BlockData)
    → InOrder (o ∷ os ++ n ∷ ns)
    → (final o os).received_time ≤ n.received_time
final-first o [] n ns h = h.0.0
final-first o (p ∷ os) n ns h = final-first p os n ns h.1

pub final-append :
    (o : BlockData) (os : List BlockData) (n : BlockData) (ns : List BlockData)
    → final n (ns ++ o ∷ os) ≡ final o os
final-append o os n [] = refl
final-append o os n (m ∷ ns) = final-append o os m ns

-- ===== src/Recorder/Blocks/Ring/Summary.antt =====
-- recorder/blocks.go: the summary after any number of blocks that arrive in order.
use bitmarkd_broadcast_monit.Common.{
  ℕ, zero, suc, ◌+◌, ◌-◌, ◌≤◌, ◌<◌, ◌≡◌, ◌≢◌, refl, sym, subst, ap, ◌∙◌, inl, inr, ◌↔◌, true, false,
  some, List, [], ◌∷◌, ◌++◌, arith, length, length-drop, drop,
}
use bitmarkd_broadcast_monit.Clock.{Time, zero_time, sub_time}
use bitmarkd_broadcast_monit.Recorder.Blocks.{data_length, BlockData, Blocks, new_block}
use bitmarkd_broadcast_monit.Recorder.Blocks.Ascending.{
  Rising, stored, count_of, count_of-missing_blocks,
}
use bitmarkd_broadcast_monit.Recorder.Blocks.Invariant.{add_all}
use bitmarkd_broadcast_monit.Recorder.Blocks.Missing.{numbers, AscendsFrom, missing_blocks_lem}
use bitmarkd_broadcast_monit.Recorder.Blocks.Ring.Sorting.{sort_array-Holds}
use bitmarkd_broadcast_monit.Recorder.Blocks.Ring.{latest, Holds, add_all-latest}
use bitmarkd_broadcast_monit.Recorder.Blocks.Summary.{
  sort_array, summarize, contains, last_number, missing_blocks,
}

-- Each was received at a time that is not Go's zero time.
abbrev pub Received : List BlockData → Type 0
Received [] = Unit {0}
Received (b ∷ bs) = (b.received_time ≢ zero_time) × Received bs

Received-append : (xs ys : List BlockData) → Received (xs ++ ys) → Received xs × Received ys
Received-append [] ys r = (tt, r)
Received-append (x ∷ xs) ys r =
    let (left, right) = Received-append xs ys r.1 in ((r.0, left), right)

Received-drop : (n : ℕ) (xs : List BlockData) → Received xs → Received (drop n xs)
Received-drop zero xs r = r
Received-drop (suc n) [] r = tt
Received-drop (suc n) (x ∷ xs) r = Received-drop n xs r.1

pub Rising-tail : (n : ℕ) (x : BlockData) (xs : List BlockData) → Rising n (x ∷ xs) → Rising n xs
Rising-tail n x [] r = tt
Rising-tail n x (y ∷ ys) r = (omega (arith, r.0, r.2.0), r.2.1, r.2.2)

pub Rising-drop : (n m : ℕ) (xs : List BlockData) → Rising m xs → Rising m (drop n xs)
Rising-drop zero m xs r = r
Rising-drop (suc n) m [] r = tt
Rising-drop (suc n) m (x ∷ xs) r = Rising-drop n m xs (Rising-tail m x xs r)

-- The first slot holds a block that was received.
first_slot-Holds :
    (b : Blocks) (first : BlockData) (rest : List BlockData)
    → Holds b (first ∷ rest)
    → Received (first ∷ rest)
    → (slot : BlockData) × (slots : List BlockData) × (b.slots ≡ slot ∷ slots)
      × (slot.received_time ≢ zero_time)
first_slot-Holds b first rest (inl f) r = (first, _, f.slots, r.0)
first_slot-Holds b first rest (inr w) r =
    from w.newer w.older w.slots w.full (Received-append w.older w.newer (subst Received w.queue r))
  where
    from :
        (newer older : List BlockData)
        → b.slots ≡ newer ++ older
        → length newer + length older ≡ data_length
        → Received older × Received newer
        → (slot : BlockData) × (slots : List BlockData) × (b.slots ≡ slot ∷ slots)
          × (slot.received_time ≢ zero_time)
    from [] [] s full r = absurd (omega arith)
    from [] (o ∷ os) s full r = (o, os, s, r.0.0)
    from (n ∷ ns) older s full r = (n, ns ++ older, s, r.1.0)

pub summarize-Holds :
    (now : Time) (b : Blocks) (first : BlockData) (rest : List BlockData) (n : ℕ) (missing : List ℕ)
    → Holds b (first ∷ rest)
    → Rising 0 (first ∷ rest)
    → Received (first ∷ rest)
    → missing_blocks (first ∷ rest) ≡ some (n, missing)
    → summarize now b ≡ some (sub_time now first.received_time, suc (length rest), missing)
unfolding summarize
summarize-Holds now b first rest n missing h r late m =
    let e : n ≡ suc (length rest) = ap count_of (sym m) ∙ count_of-missing_blocks first rest r in
    let (slot, slots, s, received) = first_slot-Holds b first rest h late in
    rw (sort_array-Holds b first rest h r, m, e, s) (ground arith)

latest-cons :
    (x : BlockData) (xs : List BlockData)
    → (first : BlockData) × (rest : List BlockData) × (latest (x ∷ xs) ≡ first ∷ rest)
latest-cons x xs = from (latest (x ∷ xs)) refl
  where
    from :
        (l : List BlockData)
        → latest (x ∷ xs) ≡ l
        → (first : BlockData) × (rest : List BlockData) × (latest (x ∷ xs) ≡ first ∷ rest)
    from [] e =
        absurd (omega (arith, ap length e, length-drop (length (x ∷ xs) - data_length) (x ∷ xs)))
    from (first ∷ rest) e = (first, rest, e)

-- However many blocks with hashes a new record is given, at least one, each higher than the one
-- before and none at Go's zero time, so that it may have wrapped around any number of times: the
-- record is a queue of the last hundred of them. `sortArray` returns these in the order in which
-- they came, and the summary counts them, takes the time since the oldest of them, and reports as
-- missing, in ascending order, exactly the numbers between the oldest and the last of them that
-- none of them has.
pub summarize-latest :
    (start now t : Time) (block : BlockData) (calls : List (Time × BlockData))
    → Rising 0 (stored ((t, block) ∷ calls))
    → Received (stored ((t, block) ∷ calls))
    → (b : Blocks) × (first : BlockData) × (rest : List BlockData) × (missing : List ℕ) × (add_all
          (new_block start)
          ((t, block) ∷ calls)
        ≡ some b)
      × (latest (stored ((t, block) ∷ calls)) ≡ first ∷ rest)
      × (sort_array b.slots ≡ first ∷ rest)
      × (summarize now b ≡ some (sub_time now first.received_time, suc (length rest), missing))
      × AscendsFrom first.number missing
      × ((n : ℕ)
          → (contains n missing ≡ true) ↔ (
              (first.number ≤ n)
              × (n < last_number first rest)
              × (contains n (numbers (first ∷ rest)) ≡ false)))
summarize-latest start now t block calls r late =
    let all = stored ((t, block) ∷ calls) in
    let (b, e, h) = add_all-latest start ((t, block) ∷ calls) in
    let (first, rest, kept) = latest-cons (record block { received_time = t }) (stored calls) in
    let h' : Holds b (first ∷ rest) = subst (Holds b) kept h in
    let r' : Rising 0 (first ∷ rest) =
      subst (Rising 0) kept (Rising-drop (length all - data_length) 0 all r) in
    let late' : Received (first ∷ rest) =
      subst Received kept (Received-drop (length all - data_length) all late) in
    let (keys, missing, m, _, _, up, iff) = missing_blocks_lem first rest in
    (
      b,
      first,
      rest,
      missing,
      e,
      kept,
      sort_array-Holds b first rest h' r',
      summarize-Holds now b first rest _ missing h' r' late' m,
      up,
      iff,
    )

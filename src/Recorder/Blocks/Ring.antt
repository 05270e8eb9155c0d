-- ===== src/Recorder/Blocks/Ring.antt =====
-- recorder/blocks.go: the array of blocks as a ring, before and after it has wrapped around.
pub mod Sorting
pub mod Summary
pub mod Expiring
pub mod Timer
pub mod Queue
pub mod History
pub mod Risen
pub mod Reporting
mod Tests
use bitmarkd_broadcast_monit.Common.{
  ℕ, zero, suc, ◌+◌, ◌-◌, ◌%◌, ◌≤◌, ◌<◌, ◌≡◌, ◌≢◌, refl, sym, subst, ap, ap₂, ◌∙◌, ◌⊎◌, inl, inr,
  ◌↔◌, true, false, some, none, List, [], ◌∷◌, ◌++◌, arith, append_assoc, append-nil, Bool-cases,
  leb, length, length-append, length-drop, replicate, set, take, drop, is_empty_string,
}
use bitmarkd_broadcast_monit.Clock.{Time, zero_time, sub_time}
use bitmarkd_broadcast_monit.Recorder.Blocks.{data_length, zero_block, BlockData, Blocks, new_block}
use bitmarkd_broadcast_monit.Recorder.Blocks.Invariant.{
  IsValid, add-IsValid, add_all, new_block-IsValid,
}
use bitmarkd_broadcast_monit.Recorder.Blocks.Ascending.{Rising, stored, padded, set-padded}

-- What a queue of a hundred places that drops its oldest element holds after `xs`.
abbrev pub latest : List BlockData → List BlockData
latest xs = drop (length xs - data_length) xs

-- The newer blocks from the first slot on, the older ones behind them up to the last slot.
pub record Wrapped (b : Blocks) (q : List BlockData) : Type 0 where
  pub older : List BlockData
  pub newer : List BlockData
  pub queue : q ≡ older ++ newer
  pub slots : b.slots ≡ newer ++ older
  pub index : b.id ≡ length newer
  pub room : length newer < data_length
  pub full : length newer + length older ≡ data_length

-- The blocks of `q` from the first slot on, and the slots behind them free.
pub record Filling (b : Blocks) (q : List BlockData) : Type 0 where
  pub slots : b.slots ≡ padded q
  pub index : b.id ≡ length q
  pub room : length q < data_length

-- The array of the recorder holds the queue `q`, oldest block first.
abbrev pub Holds : Blocks → List BlockData → Type 0
Holds b q = Filling b q ⊎ Wrapped b q

length-zero : (xs : List BlockData) → length xs ≡ 0 → xs ≡ []
length-zero [] h = refl
length-zero (x ∷ xs) h = absurd (omega arith)

pub new_block-Filling : (start : Time) → Filling (new_block start) []
unfolding new_block
new_block-Filling start = record { slots = refl; index = refl; room = omega arith }

set-append :
    (xs : List BlockData) (y z : BlockData) (ys : List BlockData)
    → set (xs ++ y ∷ ys) (length xs) z ≡ (xs ++ z ∷ []) ++ ys
set-append [] y z ys = refl
set-append (x ∷ xs) y z ys = ap (λ l. x ∷ l) (set-append xs y z ys)

drop-append : (n : ℕ) (xs ys : List BlockData) → n ≤ length xs → drop n (xs ++ ys) ≡ drop n xs ++ ys
drop-append zero xs ys h = refl
drop-append (suc n) [] ys h = absurd (omega arith)
drop-append (suc n) (x ∷ xs) ys h = drop-append n xs ys (omega arith)

drop-suc : (n : ℕ) (xs : List BlockData) → drop (suc n) xs ≡ drop 1 (drop n xs)
drop-suc zero xs = refl
drop-suc (suc n) [] = refl
drop-suc (suc n) (x ∷ xs) = drop-suc n xs

pub latest-short : (xs : List BlockData) → length xs ≤ data_length → latest xs ≡ xs
latest-short xs h = ap (λ n. drop n xs) {y = 0} (omega arith)

latest-snoc :
    (xs : List BlockData) (x : BlockData)
    → data_length ≤ length xs
    → latest (xs ++ x ∷ []) ≡ drop 1 (latest xs ++ x ∷ [])
latest-snoc xs x h =
    let n : length (xs ++ x ∷ []) - data_length ≡ suc (length xs - data_length) =
      omega (arith, length-append xs (x ∷ [])) in
    ap (λ m. drop m (xs ++ x ∷ [])) n
    ∙ drop-suc (length xs - data_length) (xs ++ x ∷ [])
    ∙ ap (drop 1) (drop-append (length xs - data_length) xs (x ∷ []) (omega arith))

fits_or_full : (n : ℕ) → n < data_length → (n + 1 < data_length) ⊎ (n ≡ 99)
fits_or_full n h = ground arith

module _ (b b' : Blocks) (x : BlockData) (stored_at : b'.slots ≡ set b.slots b.id x)
    (moved : b'.id ≡ (b.id + 1) % data_length) where
  Filling-snoc : (q : List BlockData) → Filling b q → Holds b' (q ++ x ∷ [])
  Filling-snoc q f = elim (fits_or_full (length q) f.room) [
    | inl below ↦ inl (record {
      slots = slots';
      index = omega (arith, moved, f.index, below, length-append q (x ∷ []));
      room = omega (arith, below, length-append q (x ∷ []));
    })
    | inr last ↦ inr (record {
      older = q ++ x ∷ [];
      newer = [];
      queue = sym (append-nil (q ++ x ∷ []));
      slots =
          slots'
          ∙ ap (λ n. (q ++ x ∷ []) ++ replicate n zero_block) {y = 0}
              (omega (arith, last, length-append q (x ∷ [])))
          ∙ append-nil (q ++ x ∷ []);
      index = moved ∙ ap (λ n. (n + 1) % data_length) (f.index ∙ last);
      room = omega arith;
      full = omega (arith, last, length-append q (x ∷ []));
    })
  ]
    where
      slots' : b'.slots ≡ padded (q ++ x ∷ [])
      slots' = stored_at ∙ ap₂ (λ l n. set l n x) f.slots f.index ∙ set-padded q x f.room

  -- The new block takes the slot of the oldest.
  Wrapped-next :
      (o : BlockData) (os newer : List BlockData)
      → b.slots ≡ newer ++ o ∷ os
      → b.id ≡ length newer
      → length newer + length (o ∷ os) ≡ data_length
      → Wrapped b' (os ++ (newer ++ x ∷ []))
  Wrapped-next o os newer slots index full = elim (fits_or_full (length newer) (omega arith)) [
    | inl below ↦ record {
      older = os;
      newer = newer ++ x ∷ [];
      queue = refl;
      slots = slots';
      index = omega (arith, moved, index, below, length-append newer (x ∷ []));
      room = omega (arith, below, length-append newer (x ∷ []));
      full = omega (arith, full, length-append newer (x ∷ []));
    }
    | inr last ↦ record {
      older = os ++ (newer ++ x ∷ []);
      newer = [];
      queue = sym (append-nil (os ++ (newer ++ x ∷ [])));
      slots =
          slots' ∙ rw (length-zero os (omega (arith, full, last))) (append-nil (newer ++ x ∷ []));
      index = moved ∙ ap (λ n. (n + 1) % data_length) (index ∙ last);
      room = omega arith;
      full = omega (arith, full, length-append os (newer ++ x ∷ []), length-append newer (x ∷ []));
    }
  ]
    where
      slots' : b'.slots ≡ (newer ++ x ∷ []) ++ os
      slots' = stored_at ∙ ap₂ (λ l n. set l n x) slots index ∙ set-append newer o x os

  Wrapped-snoc : (q : List BlockData) → Wrapped b q → Wrapped b' (drop 1 (q ++ x ∷ []))
  Wrapped-snoc q w = from w.older refl
    where
      from : (older : List BlockData) → w.older ≡ older → Wrapped b' (drop 1 (q ++ x ∷ []))
      from [] e = absurd (omega (arith, w.full, w.room, ap length e))
      from (o ∷ os) e =
          subst (Wrapped b')
            (sym (
              ap (drop 1) (ap (λ l. l ++ x ∷ []) (w.queue ∙ ap (λ l. l ++ w.newer) e))
              ∙ append_assoc os w.newer (x ∷ [])))
            (Wrapped-next o os w.newer (w.slots ∙ ap (λ l. w.newer ++ l) e) w.index
              (ap (λ l. length w.newer + length l) (sym e) ∙ w.full))

pub Holds-below : (b : Blocks) (q : List BlockData) → Holds b q → b.id < data_length
Holds-below b q (inl f) = omega (arith, f.index, f.room)
Holds-below b q (inr w) = omega (arith, w.index, w.room)

pub Holds-latest :
    (b b' : Blocks) (x : BlockData) (xs : List BlockData)
    → b'.slots ≡ set b.slots b.id x
    → b'.id ≡ (b.id + 1) % data_length
    → Holds b (latest xs)
    → Holds b' (latest (xs ++ x ∷ []))
Holds-latest b b' x xs stored_at moved (inl f) =
    let short : length xs < data_length =
      omega (arith, f.room, length-drop (length xs - data_length) xs) in
    let e : latest xs ++ x ∷ [] ≡ latest (xs ++ x ∷ []) =
      ap (λ l. l ++ x ∷ []) (latest-short xs (omega arith))
      ∙ sym (latest-short (xs ++ x ∷ []) (omega (arith, length-append xs (x ∷ [])))) in
    subst (Holds b') e (Filling-snoc b b' x stored_at moved (latest xs) f)
Holds-latest b b' x xs stored_at moved (inr w) =
    let long : data_length ≤ length xs = omega (
      arith,
      w.full,
      ap length w.queue,
      length-append w.older w.newer,
      length-drop (length xs - data_length) xs,
    ) in
    inr (
      subst (Wrapped b') (sym (latest-snoc xs x long))
        (Wrapped-snoc b b' x stored_at moved (latest xs) w))

add_all-Holds :
    (b : Blocks) (xs : List BlockData) (calls : List (Time × BlockData))
    → IsValid b
    → Holds b (latest xs)
    → (b' : Blocks) × (add_all b calls ≡ some b') × Holds b' (latest (xs ++ stored calls))
unfolding add_all
add_all-Holds b xs [] v h = (b, refl, subst (λ l. Holds b (latest l)) (sym (append-nil xs)) h)
add_all-Holds b xs ((t, block) ∷ calls) v h =
    let x : BlockData = record block { received_time = t } in
    let (c, e, w, slots, id) = add-IsValid b t block v (Holds-below b (latest xs) h) in
    let (b', r, final) =
      add_all-Holds c (xs ++ x ∷ []) calls w (Holds-latest b c x xs slots id h) in
    (
      b',
      rw (e, add_all) r,
      subst (λ l. Holds b' (latest l)) (append_assoc xs (x ∷ []) (stored calls)) final,
    )

-- However many blocks a new record is given, its array is a queue of the last hundred of them.
pub add_all-latest :
    (start : Time) (calls : List (Time × BlockData))
    → (b : Blocks) × (add_all (new_block start) calls ≡ some b) × Holds b (latest (stored calls))
add_all-latest start calls =
    add_all-Holds (new_block start) [] calls (new_block-IsValid start)
      (inl (new_block-Filling start))

-- ===== src/Recorder/Blocks/Missing.antt =====
-- recorder/blocks.go: `missingBlocks` counts the distinct numbers and finds the gaps.
use bitmarkd_broadcast_monit.Common.{
  ℕ, zero, suc, ◌+◌, ◌-◌, ◌≤◌, ◌<◌, ◌≡◌, refl, ◌∙◌, inl, inr, ◌↔◌, true, false, not, ◌&&◌, ◌||◌,
  some, List, [], ◌∷◌, ◌++◌, arith, Bool-cases, leb, ltb, length,
}
use bitmarkd_broadcast_monit.Recorder.Blocks.{BlockData}
use bitmarkd_broadcast_monit.Recorder.Blocks.Summary.{
  contains, collect_keys, collect_missing, last_number, missing_blocks,
}

abbrev pub numbers : List BlockData → List ℕ
numbers [] = []
numbers (b ∷ bs) = b.number ∷ numbers bs

-- No element stands twice.
abbrev pub Distinct : List ℕ → Type 0
Distinct [] = Unit {0}
Distinct (k ∷ ks) = (contains k ks ≡ false) × Distinct ks

-- Each element is at least `n`, and greater than the one before it.
abbrev pub AscendsFrom : ℕ → List ℕ → Type 0
AscendsFrom n [] = Unit {0}
AscendsFrom n (k ∷ ks) = (n ≤ k) × AscendsFrom (suc k) ks

AscendsFrom-mono : (n m : ℕ) (ks : List ℕ) → m ≤ n → AscendsFrom n ks → AscendsFrom m ks
AscendsFrom-mono n m [] h a = tt
AscendsFrom-mono n m (k ∷ ks) h a = (omega arith, a.1)

contains-snoc :
    (n k : ℕ) (ks : List ℕ) → contains n (ks ++ k ∷ []) ≡ (contains n ks || contains n (k ∷ []))
contains-snoc n k [] = ground arith
contains-snoc n k (j ∷ ks) = ground (arith, contains-snoc n k ks)

Distinct-snoc :
    (k : ℕ) (ks : List ℕ) → contains k ks ≡ false → Distinct ks → Distinct (ks ++ k ∷ [])
Distinct-snoc k [] h d = (refl, tt)
Distinct-snoc k (j ∷ ks) h d =
    (ground (arith, contains-snoc j k ks), Distinct-snoc k ks (ground arith) d.1)

contains-collect_keys :
    (n : ℕ) (keys : List ℕ) (bs : List BlockData)
    → contains n (collect_keys keys bs) ≡ (contains n keys || contains n (numbers bs))
unfolding collect_keys
contains-collect_keys n keys [] = ground arith
contains-collect_keys n keys (b ∷ bs) = elim (Bool-cases (contains b.number keys)) [
  | inl old ↦ rw old (contains-collect_keys n keys bs ∙ ground arith)
  | inr new ↦ rw new (
      contains-collect_keys n (keys ++ b.number ∷ []) bs
      ∙ ground (arith, contains-snoc n b.number keys))
]

collect_keys-Distinct :
    (keys : List ℕ) (bs : List BlockData) → Distinct keys → Distinct (collect_keys keys bs)
unfolding collect_keys
collect_keys-Distinct keys [] d = d
collect_keys-Distinct keys (b ∷ bs) d = elim (Bool-cases (contains b.number keys)) [
  | inl old ↦ rw old (collect_keys-Distinct keys bs d)
  | inr new ↦
      rw new (collect_keys-Distinct (keys ++ b.number ∷ []) bs (Distinct-snoc b.number keys new d))
]

contains-collect_missing :
    (n : ℕ) (keys : List ℕ) (i rounds : ℕ)
    → contains n (collect_missing keys i rounds)
      ≡ (leb i n && ltb n (i + rounds) && not (contains n keys))
unfolding collect_missing
contains-collect_missing n keys i zero = ground arith
contains-collect_missing n keys i (suc rounds) =
    ground (arith, contains-collect_missing n keys (i + 1) rounds)

collect_missing-AscendsFrom :
    (keys : List ℕ) (i rounds : ℕ) → AscendsFrom i (collect_missing keys i rounds)
unfolding collect_missing
collect_missing-AscendsFrom keys i zero = tt
collect_missing-AscendsFrom keys i (suc rounds) =
    let later = collect_missing-AscendsFrom keys (i + 1) rounds in
    let rest = collect_missing keys (i + 1) rounds in
    ground (arith, later, AscendsFrom-mono (i + 1) i rest, AscendsFrom-mono (i + 1) (suc i) rest)

-- Of a list of blocks that is not empty, `missingBlocks` returns how many distinct numbers it has,
-- and in ascending order exactly those numbers, from the first block's on and below the last
-- block's, that no block of the list has.
pub missing_blocks_lem :
    (b : BlockData) (bs : List BlockData)
    → (keys : List ℕ) × (missing : List ℕ) × (missing_blocks (b ∷ bs) ≡ some (length keys, missing))
      × Distinct keys
      × ((n : ℕ) → contains n keys ≡ contains n (numbers (b ∷ bs)))
      × AscendsFrom b.number missing
      × ((n : ℕ)
          → (contains n missing ≡ true)
            ↔ ((b.number ≤ n) × (n < last_number b bs) × (contains n (numbers (b ∷ bs)) ≡ false)))
unfolding missing_blocks
missing_blocks_lem b bs =
    let keys = collect_keys [] (b ∷ bs) in
    let rounds = last_number b bs - b.number in
    (
      keys,
      collect_missing keys b.number rounds,
      refl,
      collect_keys-Distinct [] (b ∷ bs) tt,
      (λ n. contains-collect_keys n [] (b ∷ bs)),
      collect_missing-AscendsFrom keys b.number rounds,
      λ n. ground (
        arith,
        contains-collect_keys n [] (b ∷ bs),
        contains-collect_missing n keys b.number rounds,
      ),
    )

-- ===== src/Recorder/Blocks/Tests.antt =====
-- recorder/blocks.go on concrete records.
use bitmarkd_broadcast_monit.Common.{
  ℕ, ◌+◌, ◌*◌, ◌≤◌, ◌<◌, ◌≡◌, ◌↔◌, refl, true, false, some, none, Option, List, [], ◌∷◌, arith,
  length, replicate, codes, set,
}
use bitmarkd_broadcast_monit.Clock.{Time, zero_time, hour, minute}
use bitmarkd_broadcast_monit.Recorder.Blocks.{BlockData, Blocks, zero_block, add}
use bitmarkd_broadcast_monit.Recorder.Blocks.Invariant.{IsValid, add-IsValid, add_all}
use bitmarkd_broadcast_monit.Recorder.Blocks.Forks.{fork_to, add_all-reorganisation}
use bitmarkd_broadcast_monit.Recorder.Blocks.Missing.{AscendsFrom, Distinct, missing_blocks_lem}
use bitmarkd_broadcast_monit.Recorder.Blocks.Summary.{contains, missing_blocks}

abbrev pub noon : Time
noon = zero_time + 20_000 * hour

abbrev pub block_at : ℕ → Time → BlockData
block_at n t = record { hash = codes "h"; number = n; generate_time = t; received_time = t }

-- One slot holds a block, the others are free.
abbrev pub one_block : Blocks
one_block = record {
  slots = block_at 103 noon ∷ replicate 99 zero_block;
  earliest = noon;
  latest_block = block_at 103 noon;
  fork_in_progress = false;
  forks = [];
  long_confirms = [];
  id = 1;
}

one_block-IsValid : IsValid one_block
one_block-IsValid = record { full_array = refl; forks_fit = tt; confirms_fit = tt }

abbrev count_forks : Option Blocks → ℕ
count_forks none = 0
count_forks (some b) = length b.forks

-- Tests: a reorganisation from 103 down to 101 and back.
fork_test :
    count_forks (
      add_all one_block (
        (noon + minute, record (block_at 101 noon) { hash = codes "a" })
        ∷ (noon + 2 * minute, record (block_at 102 noon) { hash = codes "b" })
        ∷ (noon + 3 * minute, record (block_at 103 noon) { hash = codes "c" })
        ∷ []))
    ≡ 1
unfolding add_all add
fork_test = refl

add-IsValid_example :
    (b' : Blocks) × (add one_block (noon + minute) (block_at 104 noon) ≡ some b')
    × IsValid b'
    × (b'.slots
        ≡ set one_block.slots 1 (record (block_at 104 noon) { received_time = noon + minute }))
    × (b'.id ≡ 2)
add-IsValid_example =
    add-IsValid one_block (noon + minute) (block_at 104 noon) one_block-IsValid (omega arith)

abbrev pub other : ℕ → BlockData
other n = record (block_at n noon) { hash = codes "g" }

add_all-reorganisation_example :
    (b' : Blocks) × (add_all one_block
        ((noon, other 101) ∷ (noon, other 102) ∷ (noon + minute, other 103) ∷ [])
      ≡ some b')
    × (b'.forks ≡ fork_to one_block noon (other 101) ∷ [])
    × (b'.fork_in_progress ≡ false)
    × (b'.latest_block ≡ record (other 103) { received_time = noon + minute })
add_all-reorganisation_example =
    add_all-reorganisation one_block noon (other 101) ((noon, other 102) ∷ []) (noon + minute)
      (other 103) one_block-IsValid (omega arith) refl refl (omega arith) (omega arith, tt) refl
      refl

missing_blocks_lem_example :
    (keys : List ℕ) × (missing : List ℕ) × (missing_blocks (other 101 ∷ other 103 ∷ [])
      ≡ some (length keys, missing))
    × Distinct keys
    × ((n : ℕ) → contains n keys ≡ contains n (101 ∷ 103 ∷ []))
    × AscendsFrom 101 missing
    × ((n : ℕ)
        → (contains n missing ≡ true)
          ↔ ((101 ≤ n) × (n < 103) × (contains n (101 ∷ 103 ∷ []) ≡ false)))
missing_blocks_lem_example = missing_blocks_lem (other 101) (other 103 ∷ [])

abbrev readme_calls : List (Time × BlockData)
readme_calls = (noon + minute, other 103) ∷ (noon + 2 * minute, other 106) ∷ []

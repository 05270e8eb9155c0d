-- ===== src/Recorder/Blocks/Forks.antt =====
-- recorder/blocks.go: when a fork is recorded, and when it is over.
use bitmarkd_broadcast_monit.Common.{
  ℕ, ◌<◌, ◌≡◌, refl, ◌∙◌, ◌⊎◌, true, false, some, List, [], ◌∷◌, ◌++◌, arith, if◌then◌else◌,
  bytes_eq_comm, bytes_eq, ◌↔◌,
}
use bitmarkd_broadcast_monit.Common.Int.{pos}
use bitmarkd_broadcast_monit.Clock.{Time, add_time}
use bitmarkd_broadcast_monit.Recorder.{expired_time_interval}
use bitmarkd_broadcast_monit.Recorder.Blocks.{
  data_length, BlockData, Fork, Blocks, is_empty, is_fork, process_fork, update_latest_block,
}
use bitmarkd_broadcast_monit.Recorder.Blocks.Invariant.{
  IsValid, Added, add-Added, add-IsValid, add_all, add_all-append,
}

-- The fork that `Add` records for a block that arrives at `t`.
abbrev pub fork_to : Blocks → Time → BlockData → Fork
fork_to b t block = record {
  begin = block.number;
  end = b.latest_block.number;
  expired_at = add_time t (pos expired_time_interval);
}

-- A block is taken for part of a fork exactly when there is a latest block that stands higher, or
-- as high with another hash.
pub is_fork_iff :
    (b : Blocks) (next : BlockData)
    → (is_fork b next ≡ true) ↔ (
        (is_empty b.latest_block ≡ false)
        × ((next.number < b.latest_block.number)
            ⊎ ((next.number ≡ b.latest_block.number)
                × (bytes_eq b.latest_block.hash next.hash ≡ false))))
unfolding is_fork
is_fork_iff b next = ground arith

-- Blocks below the latest one, while a fork is in progress, change neither.
abbrev pub AllBelow : ℕ → List (Time × BlockData) → Type 0
AllBelow n [] = Unit {0}
AllBelow n ((t, block) ∷ rest) = (block.number < n) × AllBelow n rest

pub add_below :
    (b : Blocks) (t : Time) (block : BlockData) {b' : Blocks}
    → Added b (record block { received_time = t }) b'
    → is_empty b.latest_block ≡ false
    → block.number < b.latest_block.number
    → (b'.latest_block ≡ b.latest_block)
      × (b'.fork_in_progress ≡ true)
      × (b'.forks ≡ (if b.fork_in_progress then b.forks else b.forks ++ fork_to b t block ∷ []))
unfolding process_fork is_fork update_latest_block
add_below b t block a known h = ground (arith, a.latest, a.in_progress, a.forks)

-- A block as high as the latest one, with another hash, ends a fork that is in progress.
add_level :
    (b : Blocks) (t : Time) (block : BlockData) {b' : Blocks}
    → Added b (record block { received_time = t }) b'
    → is_empty b.latest_block ≡ false
    → block.number ≡ b.latest_block.number
    → bytes_eq b.latest_block.hash block.hash ≡ false
    → b.fork_in_progress ≡ true
    → (b'.latest_block ≡ record block { received_time = t })
      × (b'.fork_in_progress ≡ false)
      × (b'.forks ≡ b.forks)
unfolding process_fork is_fork update_latest_block
add_level b t block a known h d p =
    ground (arith, a.latest, a.in_progress, a.forks, bytes_eq_comm b.latest_block.hash block.hash)

-- A record that a fork has reached: it waits for blocks as high as its latest one.
pub record InFork (b : Blocks) : Type 0 where
  pub valid : IsValid b
  pub inside : b.id < data_length
  pub known : is_empty b.latest_block ≡ false
  pub in_progress : b.fork_in_progress ≡ true

below_many :
    (b : Blocks) (calls : List (Time × BlockData))
    → InFork b
    → AllBelow b.latest_block.number calls
    → (b' : Blocks) × (add_all b calls ≡ some b')
      × InFork b'
      × (b'.latest_block ≡ b.latest_block)
      × (b'.forks ≡ b.forks)
unfolding add_all
below_many b [] f h = (b, refl, f, refl, refl)
below_many b ((t, block) ∷ rest) f h =
    let (c, e, v, _, moved) = add-IsValid b t block f.valid f.inside in
    let (top, busy, forks) = add_below b t block (add-Added b t block e) f.known h.0 in
    let g : InFork c = record {
      valid = v;
      inside = rw moved (omega arith);
      known = rw top f.known;
      in_progress = busy;
    } in
    let (b', r, g', top', forks') = below_many c rest g (rw top h.1) in
    (b', rw (e, add_all) r, g', top' ∙ top, forks' ∙ forks ∙ ground (arith, f.in_progress))

-- A reorganisation: a block below the latest one, more blocks below it, and at last one as high as
-- it with another hash. It is recorded as one fork, from the first block up to the latest one of
-- the time; no fork is in progress after it, and its last block is the latest.
pub add_all-reorganisation :
    (b : Blocks) (t : Time) (first : BlockData) (calls : List (Time × BlockData)) (u : Time)
    (last : BlockData)
    → IsValid b
    → b.id < data_length
    → is_empty b.latest_block ≡ false
    → b.fork_in_progress ≡ false
    → first.number < b.latest_block.number
    → AllBelow b.latest_block.number calls
    → last.number ≡ b.latest_block.number
    → bytes_eq b.latest_block.hash last.hash ≡ false
    → (b' : Blocks) × (add_all b ((t, first) ∷ calls ++ (u, last) ∷ []) ≡ some b')
      × (b'.forks ≡ b.forks ++ fork_to b t first ∷ [])
      × (b'.fork_in_progress ≡ false)
      × (b'.latest_block ≡ record last { received_time = u })
unfolding add_all
add_all-reorganisation b t first calls u last v inside known idle low lows level other =
    let (c, e, vc, _, moved) = add-IsValid b t first v inside in
    let (top, busy, forks) = add_below b t first (add-Added b t first e) known low in
    let g : InFork c = record {
      valid = vc;
      inside = rw moved (omega arith);
      known = rw top known;
      in_progress = busy;
    } in
    let (d, r, f, top', forks') = below_many c calls g (rw top lows) in
    let same : d.latest_block ≡ b.latest_block = top' ∙ top in
    let (b', e', _, _, _) = add-IsValid d u last f.valid f.inside in
    let (latest, done, forks'') =
      add_level d u last (add-Added d u last e') f.known (rw same level) (rw same other)
        f.in_progress in
    (
      b',
      rw (e, add_all) (add_all-append c calls ((u, last) ∷ []) r ∙ rw (add_all, e') refl),
      forks'' ∙ forks' ∙ forks ∙ ground (arith, idle),
      done,
      latest,
    )

-- ===== src/Recorder/Blocks/Invariant.antt =====
-- recorder/blocks.go: what every reachable `blocks` satisfies, and when `Add` panics.
use bitmarkd_broadcast_monit.Common.{
  ℕ, ◌+◌, ◌-◌, ◌≤◌, ◌<◌, ◌≡◌, refl, inl, inr, true, false, Option, none, some, List, [], ◌∷◌, ◌++◌,
  arith, length, length-set, length-replicate, Bool-cases, Option-cases, set, lt→ltb, ◌%◌, ◌↔◌,
  ◌==◌, if◌then◌else◌,
}
use bitmarkd_broadcast_monit.Common.Int.{pos, ◌≤ℤ◌, leb_ℤ, leb_ℤ→≤ℤ}
use bitmarkd_broadcast_monit.Clock.{Time, Duration, add_time, sub_time}
use bitmarkd_broadcast_monit.Recorder.{expired_time_interval}
use bitmarkd_broadcast_monit.Recorder.Blocks.{
  data_length, long_confirm_interval, zero_block, BlockData, Fork, LongConfirm, Blocks, add,
  new_block, is_fork, process_fork, add_block, update_latest_block, update_long_confirm_period_info,
}

-- A recorded fork goes from a block up to the latest one of the time.
abbrev pub ForksFit : List Fork → Type 0
ForksFit [] = Unit {0}
ForksFit (f ∷ fs) = (f.begin ≤ f.end) × ForksFit fs

-- A recorded confirmation took at least half an hour, and is not marked as reported.
abbrev pub ConfirmsFit : List LongConfirm → Type 0
ConfirmsFit [] = Unit {0}
ConfirmsFit (c ∷ cs) =
    (pos long_confirm_interval ≤ℤ c.period) × (c.reported ≡ false) × ConfirmsFit cs

pub record IsValid (b : Blocks) : Type 0 where
  pub full_array : length b.slots ≡ data_length
  pub forks_fit : ForksFit b.forks
  pub confirms_fit : ConfirmsFit b.long_confirms

ForksFit-snoc :
    (fs : List Fork) (begin end : ℕ) (expired_at : Time)
    → begin ≤ end
    → ForksFit fs
    → ForksFit (fs ++ record { begin = begin; end = end; expired_at = expired_at } ∷ [])
ForksFit-snoc [] begin end expired_at h fit = (h, tt)
ForksFit-snoc (f ∷ fs) begin end expired_at h fit =
    (fit.0, ForksFit-snoc fs begin end expired_at h fit.1)

ConfirmsFit-snoc :
    (cs : List LongConfirm) (c : LongConfirm)
    → pos long_confirm_interval ≤ℤ c.period
    → c.reported ≡ false
    → ConfirmsFit cs
    → ConfirmsFit (cs ++ c ∷ [])
ConfirmsFit-snoc [] c h k fit = (h, k, tt)
ConfirmsFit-snoc (d ∷ ds) c h k fit = (fit.0, fit.1, ConfirmsFit-snoc ds c h k fit.2)

-- A fork begins no higher than the latest block.
is_fork-le :
    (b : Blocks) (next : BlockData) → is_fork b next ≡ true → next.number ≤ b.latest_block.number
unfolding is_fork
is_fork-le b next h = ground arith

process_fork-ForksFit :
    (b : Blocks) (next : BlockData) → ForksFit b.forks → ForksFit (process_fork b next).forks
unfolding process_fork
process_fork-ForksFit b next h = ground (
  arith,
  is_fork-le b next,
  ForksFit-snoc b.forks next.number b.latest_block.number
      (add_time next.received_time (pos expired_time_interval)),
)

confirm-ConfirmsFit :
    (b : Blocks) (next : BlockData)
    → ConfirmsFit b.long_confirms
    → ConfirmsFit (update_long_confirm_period_info b next).long_confirms
unfolding update_long_confirm_period_info
confirm-ConfirmsFit b next h = elim (Bool-cases (leb_ℤ (pos long_confirm_interval) period)) [
  | inl late ↦
      rw late (
        ConfirmsFit-snoc b.long_confirms _ (leb_ℤ→≤ℤ (pos long_confirm_interval) period late) refl
          h)
  | inr soon ↦ rw soon h
]
  where
    period : Duration
    period = sub_time next.received_time next.generate_time

-- What `Add` leaves in each field, where it does not panic.
pub record Added (b : Blocks) (next : BlockData) (b' : Blocks) : Type 0 where
  pub slots : b'.slots ≡ set b.slots b.id next
  pub forks : b'.forks ≡ (process_fork b next).forks
  pub in_progress : b'.fork_in_progress ≡ (process_fork b next).fork_in_progress
  pub latest : b'.latest_block ≡ (update_latest_block b next).latest_block
  pub confirms : b'.long_confirms ≡ (update_long_confirm_period_info b next).long_confirms
  pub moved : b'.id ≡ (if data_length - 1 == b.id then 0 else b.id + 1)

process_fork_keeps :
    (b : Blocks) (next : BlockData)
    → ((process_fork b next).slots ≡ b.slots)
      × ((process_fork b next).latest_block ≡ b.latest_block)
      × ((process_fork b next).id ≡ b.id)
      × ((process_fork b next).long_confirms ≡ b.long_confirms)
unfolding process_fork
process_fork_keeps b next = ground arith

pub add-Added :
    (b : Blocks) (t : Time) (block : BlockData) {b' : Blocks}
    → add b t block ≡ some b'
    → Added b (record block { received_time = t }) b'
unfolding add add_block update_latest_block update_long_confirm_period_info
add-Added b t block h = ground (arith, process_fork_keeps b (record block { received_time = t }))

add-some :
    (b : Blocks) (t : Time) (block : BlockData)
    → b.id < length b.slots
    → (b' : Blocks) × (add b t block ≡ some b')
unfolding add add_block
add-some b t block h =
    rw (process_fork_keeps b next).0
      (rw (process_fork_keeps b next).2 (rw (lt→ltb _ _ h) (_, refl)))
  where
    next : BlockData
    next = record block { received_time = t }

-- On a valid record `Add` panics exactly when the next slot lies past the array.
pub add-none_iff :
    (b : Blocks) (t : Time) (block : BlockData)
    → IsValid b
    → (add b t block ≡ none) ↔ (data_length ≤ b.id)
unfolding add add_block
add-none_iff b t block v = ground (arith, process_fork_keeps b (record block { received_time = t }))

Added-IsValid : {b b' : Blocks} (next : BlockData) → IsValid b → Added b next b' → IsValid b'
Added-IsValid {b} {b'} next v a = record {
  full_array = rw (a.slots, length-set) v.full_array;
  forks_fit = rw a.forks (process_fork-ForksFit b next v.forks_fit);
  confirms_fit = rw a.confirms (confirm-ConfirmsFit b next v.confirms_fit);
}

-- On a valid record with its next slot inside the array, `Add` does not panic, leaves a valid
-- record, stores the block with its time of receipt in the slot, and moves on to the next slot,
-- round the end of the array.
pub add-IsValid :
    (b : Blocks) (t : Time) (block : BlockData)
    → IsValid b
    → b.id < data_length
    → (b' : Blocks) × (add b t block ≡ some b')
      × IsValid b'
      × (b'.slots ≡ set b.slots b.id (record block { received_time = t }))
      × (b'.id ≡ (b.id + 1) % data_length)
add-IsValid b t block v h =
    let (b', e) = add-some b t block (rw v.full_array h) in
    let a = add-Added b t block e in
    (
      b',
      e,
      Added-IsValid (record block { received_time = t }) v a,
      a.slots,
      rw a.moved (ground arith),
    )

pub new_block-IsValid : (now : Time) → IsValid (new_block now)
unfolding new_block
new_block-IsValid now = record {
  full_array = length-replicate data_length zero_block;
  forks_fit = tt;
  confirms_fit = tt;
}

-- A history of calls of `Add`.
unfoldable pub add_all : Blocks → List (Time × BlockData) → Option Blocks
add_all b [] = some b
add_all b ((t, block) ∷ rest) = elim (add b t block) [ none ↦ none | some b' ↦ add_all b' rest ]

pub add_all_ok :
    (b : Blocks) (calls : List (Time × BlockData))
    → IsValid b
    → b.id < data_length
    → (b' : Blocks) × (add_all b calls ≡ some b') × IsValid b' × (b'.id < data_length)
unfolding add_all
add_all_ok b [] v h = (b, refl, v, h)
add_all_ok b ((t, block) ∷ rest) v h =
    let (b', e, v', _, moved) = add-IsValid b t block v h in
    rw (e, add_all) (add_all_ok b' rest v' (rw moved (omega arith)))

-- However many blocks a new record is given, of whatever kind, no `Add` panics and the record
-- stays valid.
pub add_all_new :
    (now : Time) (calls : List (Time × BlockData))
    → (b : Blocks) × (add_all (new_block now) calls ≡ some b) × IsValid b × (b.id < data_length)
unfolding new_block
add_all_new now calls = add_all_ok (new_block now) calls (new_block-IsValid now) (omega arith)

pub add_all-append :
    (b : Blocks) (xs ys : List (Time × BlockData)) {b' : Blocks}
    → add_all b xs ≡ some b'
    → add_all b (xs ++ ys) ≡ add_all b' ys
unfolding add_all
add_all-append b [] ys h = ground arith
add_all-append b ((t, block) ∷ xs) ys h = elim (Option-cases (add b t block)) [
  | inl e ↦ absurd (ground (arith, e))
  | inr (c, e) ↦ rw (e, add_all) (add_all-append c xs ys (rw (e, add_all) at h))
]

-- ===== src/Recorder/Blocks/Hashless.antt =====
-- recorder/blocks.go under the calls of nodes/node/receiver.go, whose blocks carry no hash.
use bitmarkd_broadcast_monit.Common.{
  ℕ, zero, suc, ◌-◌, ◌≤◌, ◌<◌, ◌≡◌, ◌≢◌, refl, ap, ◌∙◌, inl, inr, true, false, some, none, List, [],
  ◌∷◌, arith, length, set, replicate, ◌==◌, Bool-cases,
}
use bitmarkd_broadcast_monit.Common.Int.{pos, negsuc}
use bitmarkd_broadcast_monit.Clock.{Time, Duration, zero_time, sub_time, add_time}
use bitmarkd_broadcast_monit.Recorder.{expired_time_interval}
use bitmarkd_broadcast_monit.Recorder.Blocks.{
  data_length, BlockData, Blocks, zero_block, is_empty, add, new_block, process_fork, is_fork,
  update_latest_block, find_fresh, keep_window, cleanup_expired_blocks,
}
use bitmarkd_broadcast_monit.Recorder.Blocks.Invariant.{
  IsValid, Added, add-Added, add-IsValid, add_all, new_block-IsValid,
}
use bitmarkd_broadcast_monit.Recorder.Blocks.Summary.{
  scan_extent, find_block_start_and_end, sort_array, between, summarize, collect_keys,
  collect_missing, missing_blocks,
}

abbrev pub AllEmpty : List BlockData → Type 0
AllEmpty [] = Unit {0}
AllEmpty (b ∷ bs) = (is_empty b ≡ true) × AllEmpty bs

abbrev pub Hashless : List (Time × BlockData) → Type 0
Hashless [] = Unit {0}
Hashless ((t, block) ∷ calls) = (block.hash ≡ []) × Hashless calls

-- A record that takes all its slots for free ones, and knows no latest block.
pub record IsBlind (b : Blocks) : Type 0 where
  pub valid : IsValid b
  pub inside : b.id < data_length
  pub free : AllEmpty b.slots
  pub unknown : b.latest_block ≡ zero_block
  pub idle : b.fork_in_progress ≡ false
  pub unforked : b.forks ≡ []

AllEmpty-set :
    (bs : List BlockData) (i : ℕ) (b : BlockData)
    → is_empty b ≡ true
    → AllEmpty bs
    → AllEmpty (set bs i b)
AllEmpty-set [] i b e a = tt
AllEmpty-set (c ∷ bs) zero b e a = (e, a.1)
AllEmpty-set (c ∷ bs) (suc i) b e a = (a.0, AllEmpty-set bs i b e a.1)

pub AllEmpty-replicate : (n : ℕ) → AllEmpty (replicate n zero_block)
AllEmpty-replicate zero = tt
AllEmpty-replicate (suc n) = (refl, AllEmpty-replicate n)

add-latest :
    (b : Blocks) (next : BlockData) {b' : Blocks}
    → Added b next b'
    → next.hash ≡ []
    → b.latest_block ≡ zero_block
    → b.fork_in_progress ≡ false
    → (b'.latest_block ≡ zero_block) × (b'.fork_in_progress ≡ false) × (b'.forks ≡ b.forks)
unfolding process_fork is_fork update_latest_block
add-latest b next a h u i = ground (arith, a.latest, a.in_progress, a.forks)

pub Added-IsBlind :
    (b : Blocks) (t : Time) (block : BlockData)
    → block.hash ≡ []
    → IsBlind b
    → (b' : Blocks) × (add b t block ≡ some b') × IsBlind b'
Added-IsBlind b t block h blind =
    let next : BlockData = record block { received_time = t } in
    let (b', e, v, slots, id) = add-IsValid b t block blind.valid blind.inside in
    let (u, i, f) = add-latest b next (add-Added b t block e) h blind.unknown blind.idle in
    (
      b',
      e,
      record {
        valid = v;
        inside = rw id (omega arith);
        free = rw slots (AllEmpty-set b.slots b.id next (ground arith) blind.free);
        unknown = u;
        idle = i;
        unforked = f ∙ blind.unforked;
      },
    )

add_all-IsBlind :
    (b : Blocks) (calls : List (Time × BlockData))
    → Hashless calls
    → IsBlind b
    → (b' : Blocks) × (add_all b calls ≡ some b') × IsBlind b'
unfolding add_all
add_all-IsBlind b [] h blind = (b, refl, blind)
add_all-IsBlind b ((t, block) ∷ calls) h blind =
    let (c, e, blind') = Added-IsBlind b t block h.0 blind in
    let (b', r, last) = add_all-IsBlind c calls h.1 blind' in (b', rw (e, add_all) r, last)

pub new_block-IsBlind : (now : Time) → IsBlind (new_block now)
unfolding new_block
new_block-IsBlind now = record {
  valid = new_block-IsValid now;
  inside = omega arith;
  free = AllEmpty-replicate data_length;
  unknown = refl;
  idle = refl;
  unforked = refl;
}

-- A new record that is only given blocks without a hash never records a fork, knows no latest
-- block, and takes every slot for a free one.
pub add_all-Hashless :
    (start : Time) (calls : List (Time × BlockData))
    → Hashless calls
    → (b : Blocks) × (add_all (new_block start) calls ≡ some b) × IsBlind b
add_all-Hashless start calls h = add_all-IsBlind (new_block start) calls h (new_block-IsBlind start)

find_fresh-AllEmpty :
    (expired : Time) (bs : List BlockData) → AllEmpty bs → find_fresh expired bs 0 none ≡ none
unfolding find_fresh
find_fresh-AllEmpty expired [] a = refl
find_fresh-AllEmpty expired (b ∷ bs) a = rw a.0 refl

scan_extent-AllEmpty :
    (slots : List BlockData) → AllEmpty slots → find_block_start_and_end slots ≡ (0, 0)
unfolding find_block_start_and_end scan_extent
scan_extent-AllEmpty [] a = refl
scan_extent-AllEmpty (b ∷ []) a = refl
scan_extent-AllEmpty (b ∷ c ∷ bs) a = rw a.1.0 refl

missing_blocks_single : (b : BlockData) → missing_blocks (b ∷ []) ≡ some (1, [])
unfolding missing_blocks collect_keys collect_missing
missing_blocks_single b =
    ap (λ r. some (1, collect_missing (b.number ∷ []) b.number r)) {y = 0} (omega arith)

sort_array-AllEmpty :
    (b : BlockData) (bs : List BlockData) → AllEmpty (b ∷ bs) → sort_array (b ∷ bs) ≡ b ∷ []
unfolding sort_array
sort_array-AllEmpty b bs a = ap (between (b ∷ bs)) (scan_extent-AllEmpty (b ∷ bs) a)

summarize-AllEmpty :
    (now : Time) (b : Blocks) (slots : List BlockData)
    → b.slots ≡ slots
    → slots ≢ []
    → AllEmpty slots
    → (d : Duration) × (n : ℕ) × (summarize now b ≡ some (d, n, [])) × (n ≤ 1)
unfolding summarize
summarize-AllEmpty now b [] e h a = absurd (h refl)
summarize-AllEmpty now b (c ∷ cs) e h a = elim (Bool-cases (zero_time == c.received_time)) [
  | inl never ↦ (pos 0, 0, rw (e, never) refl, omega arith)
  | inr some_time ↦ (
    sub_time now c.received_time,
    1,
    rw (e, some_time, sort_array-AllEmpty c cs a, missing_blocks_single c) refl,
    omega arith,
  )
]

-- The clean-up of a blind record throws no block away, and its summary never reports a missing
-- block, and counts one block at most.
pub summarize-IsBlind :
    (now : Time) (b : Blocks)
    → IsBlind b
    → (cleanup_expired_blocks b now ≡ b)
      × (d : Duration) × (n : ℕ) × (summarize now b ≡ some (d, n, []))
      × (n ≤ 1)
unfolding cleanup_expired_blocks
summarize-IsBlind now b blind =
    let (d, n, e, h) =
      summarize-AllEmpty now b b.slots refl
        (λ e. omega (arith, blind.valid.full_array, ap length e)) blind.free in
    (
      rw
          (
            find_fresh-AllEmpty (add_time now (negsuc (expired_time_interval - 1))) b.slots
                blind.free,
            keep_window,
          )
          refl,
      d,
      n,
      e,
      h,
    )

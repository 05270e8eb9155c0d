-- ===== src/Recorder/Blocks/Cleanup.antt =====
-- recorder/blocks.go: which blocks the clean-up keeps, and when it overruns the array.
use bitmarkd_broadcast_monit.Common.{
  ℕ, zero, suc, ◌+◌, ◌-◌, ◌≤◌, ◌<◌, ◌≡◌, ◌≢◌, refl, ap, ap₂, inl, inr, Option, none, some, List, [],
  ◌∷◌, ◌++◌, arith, length, length-append, length-replicate, length-take, take, drop, replicate,
}
use bitmarkd_broadcast_monit.Common.Int.{negsuc}
use bitmarkd_broadcast_monit.Clock.{Time, add_time}
use bitmarkd_broadcast_monit.Recorder.{expired_time_interval}
use bitmarkd_broadcast_monit.Recorder.Blocks.{
  data_length, zero_block, BlockData, Fork, LongConfirm, Blocks, add, find_fresh, keep_window,
  slice, copy_to_array, cleanup_expired_blocks, after_expired, cleanup_expired_forks, last_fresh,
  cleanup_expired_long_confirms, cleanup,
}
use bitmarkd_broadcast_monit.Recorder.Blocks.Invariant.{
  IsValid, add-none_iff, ForksFit, ConfirmsFit,
}
use bitmarkd_broadcast_monit.Recorder.Blocks.Window.{
  recorded, received_after, InOrder, Window, length-recorded, find_fresh-none,
}

abbrev pub expiry : Time → Time
expiry now = add_time now (negsuc (expired_time_interval - 1))

abbrev pub kept_blocks : Blocks → Time → List BlockData
kept_blocks b now = received_after (expiry now) (recorded b.slots)

length-received_after : (t : Time) (bs : List BlockData) → length (received_after t bs) ≤ length bs
length-received_after t [] = omega arith
length-received_after t (b ∷ bs) = ground (arith, length-received_after t bs)

take_all : (n : ℕ) (bs : List BlockData) → length bs ≤ n → take n bs ≡ bs
take_all zero [] h = refl
take_all zero (b ∷ bs) h = absurd (omega arith)
take_all (suc n) [] h = refl
take_all (suc n) (b ∷ bs) h = ap (λ l. b ∷ l) (take_all n bs (omega arith))

slice_window :
    (bs : List BlockData) (k n : ℕ)
    → 0 < n
    → slice bs (0 + k) (0 + k + n - 1 + 1) ≡ take n (drop k bs)
slice_window bs k n h = ap₂ (λ m j. take m (drop j bs)) (omega arith) (omega arith)

length-kept_blocks :
    (b : Blocks) (now : Time) → IsValid b → length (kept_blocks b now) ≤ data_length
length-kept_blocks b now v = omega (
  arith,
  v.full_array,
  length-received_after (expiry now) (recorded b.slots),
  length-recorded b.slots,
)

pub keep_window_lem :
    (b : Blocks) (now : Time)
    → IsValid b
    → Window (expiry now) b.slots 0
    → let kept = kept_blocks b now in
      let b' = cleanup_expired_blocks b now in
      (b'.slots ≡ kept ++ replicate (data_length - length kept) zero_block) × (b'.id ≡ length kept)
unfolding cleanup_expired_blocks
keep_window_lem b now v w =
    rw (w.found, keep_window)
      (rw (slice_window b.slots w.skipped _ w.held, w.holds)
        (
          ap (λ l. l ++ replicate (data_length - length (kept_blocks b now)) zero_block)
              (take_all data_length _ (length-kept_blocks b now v)),
          omega arith,
        ))

-- Where the recorded blocks stand in the order of receipt and one was received within the last two
-- hours, exactly the blocks received within the last two hours stay, in their order; all other
-- slots are emptied, and the next block goes behind them.
pub cleanup_expired_blocks_keeps :
    (b : Blocks) (now : Time)
    → IsValid b
    → InOrder (recorded b.slots)
    → kept_blocks b now ≢ []
    → let kept = kept_blocks b now in
      let b' = cleanup_expired_blocks b now in
      (b'.slots ≡ kept ++ replicate (data_length - length kept) zero_block) × (b'.id ≡ length kept)
cleanup_expired_blocks_keeps b now v o some_fresh =
    elim (find_fresh-none (expiry now) b.slots 0 o) [
      | inl (e, _) ↦ absurd (some_fresh e)
      | inr w ↦ keep_window_lem b now v w
    ]

-- Where every recorded block was received more than two hours ago, none is thrown away.
pub cleanup_expired_blocks_stale :
    (b : Blocks) (now : Time)
    → InOrder (recorded b.slots)
    → kept_blocks b now ≡ []
    → cleanup_expired_blocks b now ≡ b
unfolding cleanup_expired_blocks
cleanup_expired_blocks_stale b now o stale = elim (find_fresh-none (expiry now) b.slots 0 o) [
  | inl (_, f) ↦ rw (f, keep_window) refl
  | inr w ↦ absurd (omega (arith, w.held, ap length stale))
]

length-copy_to_array : (kept : List BlockData) → length (copy_to_array kept) ≡ data_length
length-copy_to_array kept = omega (
  arith,
  length-append (take data_length kept) (replicate (data_length - length kept) zero_block),
  length-take data_length kept,
  length-replicate (data_length - length kept) zero_block,
)

keep_window-IsValid :
    (b : Blocks) (found : Option (ℕ × ℕ)) → IsValid b → IsValid (keep_window b found)
unfolding keep_window
keep_window-IsValid b none v = v
keep_window-IsValid b (some (s, e)) v = record {
  full_array = length-copy_to_array (slice b.slots s (e + 1));
  forks_fit = v.forks_fit;
  confirms_fit = v.confirms_fit;
}

ForksFit-drop : (n : ℕ) (fs : List Fork) → ForksFit fs → ForksFit (drop n fs)
ForksFit-drop zero fs h = h
ForksFit-drop (suc n) [] h = tt
ForksFit-drop (suc n) (f ∷ fs) h = ForksFit-drop n fs h.1

ConfirmsFit-drop : (n : ℕ) (cs : List LongConfirm) → ConfirmsFit cs → ConfirmsFit (drop n cs)
ConfirmsFit-drop zero cs h = h
ConfirmsFit-drop (suc n) [] h = tt
ConfirmsFit-drop (suc n) (c ∷ cs) h = ConfirmsFit-drop n cs h.2

pub cleanup_expired_blocks-IsValid :
    (b : Blocks) (now : Time) → IsValid b → IsValid (cleanup_expired_blocks b now)
unfolding cleanup_expired_blocks
cleanup_expired_blocks-IsValid b now v =
    keep_window-IsValid b (find_fresh (expiry now) b.slots 0 none) v

cleanup_expired_forks-IsValid :
    (b : Blocks) (now : Time) → IsValid b → IsValid (cleanup_expired_forks b now)
unfolding cleanup_expired_forks
cleanup_expired_forks-IsValid b now v = record {
  full_array = v.full_array;
  forks_fit = ground (arith, ForksFit-drop (after_expired now b.forks 0 0) b.forks v.forks_fit);
  confirms_fit = v.confirms_fit;
}

cleanup_expired_long_confirms-IsValid :
    (b : Blocks) (now : Time) → IsValid b → IsValid (cleanup_expired_long_confirms b now)
unfolding cleanup_expired_long_confirms
cleanup_expired_long_confirms-IsValid b now v =
    let start = last_fresh now b.long_confirms 0 0 in
    ground (arith, ConfirmsFit-drop start b.long_confirms v.confirms_fit)

-- What the timer of `PeriodicRemove` triggers keeps the record valid.
pub cleanup-IsValid : (b : Blocks) (now : Time) → IsValid b → IsValid (cleanup b now)
unfolding cleanup
cleanup-IsValid b now v =
    cleanup_expired_long_confirms-IsValid _ now
      (cleanup_expired_forks-IsValid _ now (cleanup_expired_blocks-IsValid b now v))

-- Where all slots hold a block of the last two hours, in the order of receipt, the clean-up moves
-- the next slot past the array, and the next `Add` panics.
pub cleanup-add_panics :
    (b : Blocks) (now t : Time) (block : BlockData)
    → IsValid b
    → InOrder (recorded b.slots)
    → length (kept_blocks b now) ≡ data_length
    → add (cleanup_expired_blocks b now) t block ≡ none
cleanup-add_panics b now t block v o full =
    (add-none_iff _ t block valid).1 (omega (arith, kept.1, full))
  where
    kept :
        let k = kept_blocks b now in
        let b' = cleanup_expired_blocks b now in
        (b'.slots ≡ k ++ replicate (data_length - length k) zero_block) × (b'.id ≡ length k)
    kept = cleanup_expired_blocks_keeps b now v o (λ e. omega (arith, full, ap length e))

    valid : IsValid (cleanup_expired_blocks b now)
    valid = cleanup_expired_blocks-IsValid b now v

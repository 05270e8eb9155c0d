-- ===== src/Recorder/Blocks/CleanupTests.antt =====
-- recorder/blocks.go: clean-ups, summaries and hashless blocks on concrete records.
use bitmarkd_broadcast_monit.Common.{
  ℕ, ◌+◌, ◌*◌, ◌≡◌, ◌↔◌, refl, true, false, none, [], ◌∷◌, ◌++◌, arith, replicate,
}
use bitmarkd_broadcast_monit.Common.Int.{pos}
use bitmarkd_broadcast_monit.Clock.{Time, hour, minute, after}
use bitmarkd_broadcast_monit.Recorder.Blocks.{
  BlockData, Fork, LongConfirm, Blocks, zero_block, add, cleanup_expired_forks, cleanup,
}
use bitmarkd_broadcast_monit.Recorder.Blocks.Summary.{valid, BlocksSummary}
use bitmarkd_broadcast_monit.Recorder.Blocks.Cleanup.{expiry}
use bitmarkd_broadcast_monit.Recorder.Blocks.Overrun.{IsFull, cleanup-add_panics_iff}
use bitmarkd_broadcast_monit.Recorder.Blocks.Expiry.{cleanup_expired_forks-live}
use bitmarkd_broadcast_monit.Recorder.Blocks.Verdict.{AllReported, valid_iff}
use bitmarkd_broadcast_monit.Recorder.Blocks.Hashless.{IsBlind, AllEmpty-replicate}
use bitmarkd_broadcast_monit.Recorder.Blocks.Tests.{noon, block_at, one_block, other}

-- A record with an old block and a new one.
abbrev old_and_new : Blocks
old_and_new = record one_block {
  slots = block_at 103 noon ∷ block_at 104 (noon + 2 * hour) ∷ replicate 98 zero_block;
  id = 2;
}

-- A record that has wrapped around, stale but for its first and last slots.
abbrev wrapped_record : Blocks
wrapped_record = record one_block {
  slots =
      block_at 203 (noon + 2 * hour) ∷ replicate 98 (block_at 103 noon)
      ++ block_at 202 (noon + 2 * hour) ∷ [];
  id = 1;
}

cleanup-add_panics_iff_example :
    (add (cleanup wrapped_record (noon + 3 * hour)) noon (other 105) ≡ none) ↔ (
      IsFull wrapped_record.slots
      × (after (noon + 2 * hour) (expiry (noon + 3 * hour)) ≡ true)
      × (after (noon + 2 * hour) (expiry (noon + 3 * hour)) ≡ true))
cleanup-add_panics_iff_example =
    cleanup-add_panics_iff wrapped_record (noon + 3 * hour) noon (other 105)
      (record { full_array = refl; forks_fit = tt; confirms_fit = tt }) (omega arith)

abbrev fork_at : ℕ → Time → Fork
fork_at n t = record { begin = n; end = n; expired_at = t }

cleanup_expired_forks-live_example :
    (cleanup_expired_forks
      (record one_block { forks = fork_at 5 noon ∷ fork_at 6 (noon + hour) ∷ [] })
      (noon + minute)).forks
    ≡ fork_at 6 (noon + hour) ∷ []
cleanup_expired_forks-live_example =
    cleanup_expired_forks-live
      (record one_block { forks = fork_at 5 noon ∷ fork_at 6 (noon + hour) ∷ [] }) (noon + minute)
      ((omega arith, tt), (tt, tt))

abbrev late : ℕ → Time → LongConfirm
late n t = record { block_number = n; expired_at = t; period = pos hour; reported = false }

abbrev late_record : Blocks
late_record = record one_block { long_confirms = late 5 (noon + hour) ∷ late 6 (noon + hour) ∷ [] }

-- Neither has expired, and one is thrown away.

late_summary : BlocksSummary
late_summary = record {
  block_count = 1;
  duration = pos hour;
  forks = [];
  long_confirms = late_record.long_confirms;
  missing_blocks = [];
}

valid_iff_example : ((valid late_summary).0 ≡ true) ↔ (
    (late_summary.missing_blocks ≡ [])
    × (late_summary.forks ≡ [])
    × AllReported late_summary.long_confirms)
valid_iff_example = valid_iff late_summary

abbrev no_hash : ℕ → BlockData
no_hash n = record (block_at n noon) { hash = [] }

abbrev blind_record : Blocks
blind_record = record {
  slots = no_hash 9 ∷ no_hash 5 ∷ replicate 98 zero_block;
  earliest = noon;
  latest_block = zero_block;
  fork_in_progress = false;
  forks = [];
  long_confirms = [];
  id = 2;
}

blind_record-IsBlind : IsBlind blind_record
blind_record-IsBlind = record {
  valid = record { full_array = refl; forks_fit = tt; confirms_fit = tt };
  inside = omega arith;
  free = (refl, (refl, AllEmpty-replicate 98));
  unknown = refl;
  idle = refl;
  unforked = refl;
}

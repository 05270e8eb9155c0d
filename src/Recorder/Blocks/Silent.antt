-- ===== src/Recorder/Blocks/Silent.antt =====
-- recorder/blocks.go: what the clean-up, the summary and its verdict make of a blind record.
use bitmarkd_broadcast_monit.Common.{◌≡◌, refl, ap, ◌∙◌, some, [], arith}
use bitmarkd_broadcast_monit.Clock.{Time}
use bitmarkd_broadcast_monit.Recorder.Blocks.{
  Blocks, cleanup_expired_blocks, after_expired, cleanup_expired_forks,
  cleanup_expired_long_confirms, cleanup,
}
use bitmarkd_broadcast_monit.Recorder.Blocks.Summary.{BlocksSummary, summary, valid}
use bitmarkd_broadcast_monit.Recorder.Blocks.Cleanup.{cleanup-IsValid}
use bitmarkd_broadcast_monit.Recorder.Blocks.Hashless.{IsBlind, summarize-IsBlind}

-- Neither a fork nor a missing block.
pub record IsSilent (s : BlocksSummary) : Type 0 where
  pub unforked : s.forks ≡ []
  pub complete : s.missing_blocks ≡ []

cleanup_expired_forks-unforked :
    (b : Blocks) (now : Time) → b.forks ≡ [] → cleanup_expired_forks b now ≡ record b { forks = [] }
unfolding cleanup_expired_forks
cleanup_expired_forks-unforked b now e = rw (e, after_expired) refl

cleanup_expired_long_confirms-same :
    (b : Blocks) (now : Time)
    → let b' = cleanup_expired_long_confirms b now in
      b' ≡ record b { long_confirms = b'.long_confirms }
unfolding cleanup_expired_long_confirms
cleanup_expired_long_confirms-same b now = ground arith

pub cleanup-IsBlind : (b : Blocks) (now : Time) → IsBlind b → IsBlind (cleanup b now)
unfolding cleanup
cleanup-IsBlind b now blind =
    let kept : cleanup_expired_forks (cleanup_expired_blocks b now) now ≡ record b { forks = [] } =
      ap (λ c. cleanup_expired_forks c now) (summarize-IsBlind now b blind).0
      ∙ cleanup_expired_forks-unforked b now blind.unforked in
    let same = cleanup_expired_long_confirms-same (record b { forks = [] }) now in
    let e : cleanup b now ≡ cleanup_expired_long_confirms (record b { forks = [] }) now =
      ap (λ c. cleanup_expired_long_confirms c now) kept in
    let f = e ∙ same in
    record {
      valid = cleanup-IsValid b now blind.valid;
      inside = rw f blind.inside;
      free = rw f blind.free;
      unknown = rw f blind.unknown;
      idle = rw f blind.idle;
      unforked = rw f refl;
    }

pub summary-IsSilent :
    (now : Time) (b : Blocks)
    → IsBlind b
    → (s : BlocksSummary) × (summary now b ≡ some s) × IsSilent s
unfolding summary
summary-IsSilent now b blind =
    let (_, d, n, e, _) = summarize-IsBlind now b blind in
    (
      record {
        block_count = n;
        duration = d;
        forks = b.forks;
        long_confirms = b.long_confirms;
        missing_blocks = [];
      },
      rw e refl,
      record { unforked = blind.unforked; complete = refl },
    )

pub valid-IsSilent : (s : BlocksSummary) → IsSilent s → IsSilent (valid s).1
unfolding valid
valid-IsSilent s silent = ground arith

-- ===== src/Recorder/Blocks/Text/Tests.antt =====
-- recorder/blocks.go: the text of a summary, on a concrete one.
use bitmarkd_broadcast_monit.Common.{◌≡◌, refl, true, [], ◌∷◌, Bytes, codes}
use bitmarkd_broadcast_monit.Common.Int.{pos}
use bitmarkd_broadcast_monit.Clock.{Duration}
use bitmarkd_broadcast_monit.Network.Address.{itoa}
use bitmarkd_broadcast_monit.Recorder.Blocks.Summary.{BlocksSummary}
use bitmarkd_broadcast_monit.Recorder.Blocks.Text.{
  numbers_text, fork_info, forks_text, confirm_info, confirms_text, int_text, summary_text,
}

abbrev in_minutes : Duration → Bytes
in_minutes d = codes "5m0s"

abbrev troubled : BlocksSummary
troubled = record {
  block_count = 12;
  duration = pos 300_000_000_000;
  forks = record { begin = 101; end = 103; expired_at = 0 } ∷ [];
  long_confirms =
      record { block_number = 103; expired_at = 0; period = pos 7; reported = true } ∷ [];
  missing_blocks = 98 ∷ 99 ∷ [];
}

-- Test: the text of the summary.
summary_text_test :
    summary_text in_minutes troubled
    ≡ codes
        "receive 12 blolcks in 5m0s, forks: 1, long confirms: 1, missing blocks: [98 99]\nforks info: 101 to 103 \nlong confirms: block 103 takes 7 "
unfolding summary_text numbers_text fork_info forks_text confirm_info confirms_text int_text itoa
summary_text_test = refl

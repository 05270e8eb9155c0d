-- ===== src/Node/Checker/TextTests.antt =====
-- nodes/node/node.go: the message about a node with a fork and two missing blocks.
use bitmarkd_broadcast_monit.Common.{◌≡◌, refl, true, [], ◌∷◌, Bytes, codes}
use bitmarkd_broadcast_monit.Common.Int.{pos}
use bitmarkd_broadcast_monit.Clock.{Duration}
use bitmarkd_broadcast_monit.Recorder.Blocks.Summary.{BlocksSummary}
use bitmarkd_broadcast_monit.Recorder.Blocks.Text.Report.{report, read_report}
use bitmarkd_broadcast_monit.Node.Checker.Text.{notice_text, message_of, read_report-notice_text}

abbrev some_minutes : Duration → Bytes
some_minutes d = codes "5m0s"

abbrev alarming : BlocksSummary
alarming = record {
  block_count = 12;
  duration = pos 300_000_000_000;
  forks = record { begin = 101; end = 103; expired_at = 0 } ∷ [];
  long_confirms =
      record { block_number = 103; expired_at = 0; period = pos 7; reported = true } ∷ [];
  missing_blocks = 98 ∷ 99 ∷ [];
}

read_report-notice_text_example :
    read_report (message_of (codes "node") (notice_text some_minutes (codes "node", alarming)))
    ≡ report some_minutes alarming
read_report-notice_text_example = read_report-notice_text some_minutes (codes "node") alarming refl

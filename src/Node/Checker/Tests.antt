-- ===== src/Node/Checker/Tests.antt =====
-- nodes/node/checker.go with new recorders and a Slack channel.
use bitmarkd_broadcast_monit.Common.{◌*◌, ◌≡◌, refl, true, false, some, [], ◌∷◌, ◌++◌, codes}
use bitmarkd_broadcast_monit.Common.Int.{pos}
use bitmarkd_broadcast_monit.Clock.{hour, minute}
use bitmarkd_broadcast_monit.Messengers.{new_slack}
use bitmarkd_broadcast_monit.Recorder
use bitmarkd_broadcast_monit.Recorder.Blocks.{new_block}
use bitmarkd_broadcast_monit.Recorder.Blocks.Summary.{BlocksSummary, summary, summarize}
use bitmarkd_broadcast_monit.Recorder.Transactions.{new_transaction}
use bitmarkd_broadcast_monit.Recorder.Heartbeat.{new_heartbeat}
use bitmarkd_broadcast_monit.Node.Receiver.{Recorders}
use bitmarkd_broadcast_monit.Node.Checker.{Checker, new_checker, on_block}
use bitmarkd_broadcast_monit.Node.Checker.Rounds.{Round, notices, on_block-notices}

abbrev recorders : Recorders
recorders = record {
  heartbeat = new_heartbeat 0;
  transaction = Recorder.Transactions.add (new_transaction 0) minute;
  block = new_block 0;
}

abbrev checker : Checker
checker =
    new_checker (record { database = codes "db"; queue = []; is_ok = true })
      (new_slack (codes "token") (codes "channel"))

abbrev round : Round
round = record { now = hour; later = hour; written = hour; recorders = recorders }

-- A record whose one block took an hour and a half.
abbrev slow : Recorders
slow = record recorders {
  block = record (new_block 0) {
    slots =
        record { hash = codes "h"; number = 5; generate_time = hour; received_time = 3 * hour }
        ∷ [];
    long_confirms =
        record {
          block_number = 5;
          expired_at = 5 * hour;
          period = pos (2 * hour);
          reported = false;
        }
        ∷ [];
  };
}

abbrev slow_summary : BlocksSummary
slow_summary = record {
  block_count = 1;
  duration = pos hour;
  forks = [];
  long_confirms =
      record { block_number = 5; expired_at = 5 * hour; period = pos (2 * hour); reported = false }
      ∷ [];
  missing_blocks = [];
}

slow_summary_test : summary (4 * hour) slow.block ≡ some slow_summary
unfolding summary new_block Recorder.Blocks.Summary.sort_array
    Recorder.Blocks.Summary.missing_blocks Recorder.Blocks.Summary.find_block_start_and_end
slow_summary_test = refl

on_block-notices_example :
    on_block (codes "node") (4 * hour) slow checker
    ≡ some (record checker {
      slack = record checker.slack {
        outgoing = checker.slack.outgoing ++ notices (codes "node") checker slow_summary;
      };
    })
on_block-notices_example =
    on_block-notices (codes "node") (4 * hour) slow checker slow_summary slow_summary_test

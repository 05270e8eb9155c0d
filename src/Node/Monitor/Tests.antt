-- ===== src/Node/Monitor/Tests.antt =====
-- nodes/node/ with the small decoder of the receiver's tests: a block that took two hours.
use bitmarkd_broadcast_monit.Common.{
  ◌+◌, ◌*◌, ◌≡◌, refl, true, Option, none, some, List, [], ◌∷◌, codes, length, ℕ,
}
use bitmarkd_broadcast_monit.Clock.{hour, unix_epoch}
use bitmarkd_broadcast_monit.Messengers
use bitmarkd_broadcast_monit.Messengers.{new_slack, send}
use bitmarkd_broadcast_monit.Recorder
use bitmarkd_broadcast_monit.Recorder.Blocks.{new_block}
use bitmarkd_broadcast_monit.Recorder.Blocks.Summary.{
  summary, missing_blocks, sort_array, find_block_start_and_end,
}
use bitmarkd_broadcast_monit.Node.Receiver.{process, find_header, process_block, dispatch, slice_to}
use bitmarkd_broadcast_monit.Node.Receiver.Tests.{chain, lasting, blank, block_message}
use bitmarkd_broadcast_monit.Node.Checker.{
  new_checker, checker_event, elapse_block, check_block, on_block, send_to_slack,
}
use bitmarkd_broadcast_monit.Node.Monitor.{
  Machine, Action, receive, clean_blocks, check, act, act_all,
}

abbrev start : Machine chain lasting
start = record {
  shared = blank;
  checker =
      new_checker (record { database = codes "db"; queue = []; is_ok = true })
        (new_slack (codes "token") (codes "channel"));
}

abbrev pub actions : List (Action chain lasting)
actions =
    receive (unix_epoch + 2 * hour) block_message
    ∷ clean_blocks (unix_epoch + 3 * hour)
    ∷ check elapse_block
    ∷ check (check_block (unix_epoch + 3 * hour))
    ∷ []

abbrev outcome : Option (Machine chain lasting) → Machine chain lasting
outcome none = start
outcome (some m) = m

abbrev end : Machine chain lasting
end = outcome (act_all chain lasting (codes "node") actions start)

act_all_test : act_all chain lasting (codes "node") actions start ≡ some end
unfolding act_all act process dispatch process_block find_header slice_to Recorder.Blocks.add
    new_block Recorder.Blocks.cleanup new_checker new_slack checker_event on_block summary
    send_to_slack send missing_blocks sort_array find_block_start_and_end
    Recorder.Blocks.Summary.valid Messengers.valid
act_all_test = refl

one_notice_test : ◌≡◌ {A = ℕ} (length end.checker.slack.outgoing) 1
unfolding act_all act process dispatch process_block find_header slice_to Recorder.Blocks.add
    new_block Recorder.Blocks.cleanup new_checker new_slack checker_event on_block summary
    send_to_slack send missing_blocks sort_array find_block_start_and_end
    Recorder.Blocks.Summary.valid Messengers.valid
one_notice_test = refl

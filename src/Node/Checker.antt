-- ===== src/Node/Checker.antt =====
-- nodes/node/checker.go: the loop that takes the summaries of the recorders. A notice is the name of
-- the node and the summary of which it gives the text.
use bitmarkd_broadcast_monit.Common.{
  ℕ, ◌*◌, Bool, true, false, not, Option, none, some, List, [], ◌∷◌, ◌++◌, Bytes, codes,
  if◌then◌else◌,
}
use bitmarkd_broadcast_monit.Clock.{Time, minute}
use bitmarkd_broadcast_monit.Clock.Timer.{Timer, new_timer, expire, receive, reset}
use bitmarkd_broadcast_monit.Recorder.Transactions.{TransactionSummary}
use bitmarkd_broadcast_monit.Recorder
use bitmarkd_broadcast_monit.Recorder.Blocks.Summary.{BlocksSummary}
use bitmarkd_broadcast_monit.Db
use bitmarkd_broadcast_monit.Db.{InfluxData, Influx}
use bitmarkd_broadcast_monit.Messengers.{
  SlackMessenger, Sending, sent, insufficient_parameter, no_connection, new_slack, valid, send,
}
use bitmarkd_broadcast_monit.Node.Receiver.{Recorders}
pub mod Notices
pub mod Text
mod TextTests
pub mod Rounds
pub mod Tests

abbrev pub Notice : Type 0
Notice = Bytes × BlocksSummary

abbrev pub measurement : Bytes
measurement = codes "transaction-droprate"

-- `checkerLoop`: its timers, the influx writer and the messenger that it uses, and whether it has
-- returned.
pub record Checker : Type 0 where
  pub transaction_timer : Timer
  pub block_timer : Timer
  pub influx : Influx
  pub slack : SlackMessenger Notice
  pub returned : Bool

unfoldable pub new_checker : Influx → SlackMessenger Notice → Checker
new_checker influx slack = record {
  transaction_timer = new_timer;
  block_timer = new_timer;
  influx = influx;
  slack = slack;
  returned = false;
}

-- What `writeToInfluxDB` adds.
abbrev pub droprate_point : TransactionSummary → Bytes → Time → InfluxData
droprate_point s name now = record {
  fields = (codes "value", s.droprate) ∷ [];
  measurement = measurement;
  tags = (codes "name", name) ∷ [];
  timing = now;
}

-- `sendToSlack`; none is a call on a connection that is nil.
unfoldable pub send_to_slack : Notice → SlackMessenger Notice → Option (SlackMessenger Notice)
send_to_slack notice s =
    if valid s
    then elim (send (notice ∷ []) s) [
      | sent s' ↦ some s'
      | insufficient_parameter ↦ some s
      | no_connection ↦ none
    ]
    else some s

-- The times of the transaction's case are the two readings of its summary and that of the point.
pub data Event : Type 0 where
  elapse_transaction elapse_block shutdown : Event
  check_transaction : Time → Time → Time → Event
  check_block : Time → Event

module _ (name : Bytes) where
  unfoldable pub on_transaction : Time → Time → Time → Recorders → Checker → Checker
  on_transaction now later written rs c = record c {
    influx =
        Db.add c.influx
          (droprate_point (Recorder.Transactions.summary now later rs.transaction) name written);
  }

  on_slack : Checker → Option (SlackMessenger Notice) → Option Checker
  on_slack c none = none
  on_slack c (some s) = some (record c { slack = s })

  -- `Valid` may change the summary that is sent.
  on_summary : Checker → Option BlocksSummary → Option Checker
  unfolding on_slack
  on_summary c none = none
  on_summary c (some bs) =
      let (is_valid, bs') = Recorder.Blocks.Summary.valid bs in
      if not is_valid then on_slack c (send_to_slack (name, bs') c.slack) else some c

  unfoldable pub on_block : Time → Recorders → Checker → Option Checker
  unfolding on_summary
  on_block now rs c = on_summary c (Recorder.Blocks.Summary.summary now rs.block)

  -- A case whose channel is empty is not taken; the timer is started anew after the check.
  after_transaction : Time → Time → Time → Recorders → Checker → Option Timer → Option Checker
  unfolding on_transaction
  after_transaction now later written rs c none = some c
  after_transaction now later written rs c (some t) =
      some (on_transaction now later written rs (record c { transaction_timer = reset t }))

  after_block : Time → Recorders → Checker → Option Timer → Option Checker
  unfolding on_block
  after_block now rs c none = some c
  after_block now rs c (some t) = on_block now rs (record c { block_timer = reset t })

  -- One event of the loop; none is a run-time panic.
  unfoldable pub checker_event : Event → Recorders → Checker → Option Checker
  unfolding after_transaction after_block
  checker_event elapse_transaction rs c =
      some (record c { transaction_timer = expire c.transaction_timer })
  checker_event elapse_block rs c = some (record c { block_timer = expire c.block_timer })
  checker_event shutdown rs c = some (record c { returned = true })
  checker_event (check_transaction now later written) rs c =
      if c.returned
      then some c
      else after_transaction now later written rs c (receive c.transaction_timer)
  checker_event (check_block now) rs c =
      if c.returned then some c else after_block now rs c (receive c.block_timer)

-- ===== src/Node/Checker/Rounds.antt =====
-- nodes/node/checker.go: what the rounds of its timers add to the influx queue and send to Slack.
use bitmarkd_broadcast_monit.Common.{
  ◌≡◌, refl, sym, ap, ◌∙◌, Bool, true, false, not, Option, none, some, List, [], ◌∷◌, ◌++◌, Bytes,
  if◌then◌else◌, append-nil,
}
use bitmarkd_broadcast_monit.Clock.{Time}
use bitmarkd_broadcast_monit.Messengers
use bitmarkd_broadcast_monit.Messengers.{
  SlackMessenger, sent, insufficient_parameter, no_connection, send,
}
use bitmarkd_broadcast_monit.Recorder
use bitmarkd_broadcast_monit.Recorder.Blocks.Summary.{BlocksSummary, summary, valid}
use bitmarkd_broadcast_monit.Db
use bitmarkd_broadcast_monit.Db.{InfluxData}
use bitmarkd_broadcast_monit.Node.Receiver.{Recorders}
use bitmarkd_broadcast_monit.Node.Checker.{
  Notice, Checker, Event, elapse_transaction, check_transaction, droprate_point, send_to_slack,
  on_slack, on_summary, on_block, checker_event,
}

-- The times of one round of the transaction timer, and the recorders as they are then.
pub record Round : Type 0 where
  pub now : Time
  pub later : Time
  pub written : Time
  pub recorders : Recorders

-- What is sent of a notice.
abbrev pub sent_to : Bool → Bytes → Notice → List (Bytes × Notice)
sent_to connected channel notice = if connected then (channel, notice) ∷ [] else []

send_to_slack-if :
    (connected : Bool) (m : SlackMessenger Notice) (notice : Notice)
    → (if connected
        then elim (if connected
            then sent (record m { outgoing = m.outgoing ++ (m.channel_id, notice) ∷ [] })
            else no_connection) [
              | sent m' ↦ some m'
              | insufficient_parameter ↦ some m
              | no_connection ↦ none
            ]
        else some m)
      ≡ some (record m { outgoing = m.outgoing ++ sent_to connected m.channel_id notice })
send_to_slack-if true m notice = refl
send_to_slack-if false m notice =
    ap (λ l. some (record m { outgoing = l })) (sym (append-nil m.outgoing))

send_to_slack_lem :
    (m : SlackMessenger Notice) (notice : Notice)
    → send_to_slack notice m
      ≡ some (record m { outgoing = m.outgoing ++ sent_to m.connected m.channel_id notice })
unfolding send_to_slack Messengers.valid send
send_to_slack_lem m notice = send_to_slack-if m.connected m notice

module _ (name : Bytes) where
  abbrev next : (Checker → Option Checker) → Option Checker → Option Checker
  next rest none = none
  next rest (some c) = rest c

  -- The loop over events, each with the recorders as they are then.
  unfoldable pub checker_events : List (Event × Recorders) → Checker → Option Checker
  checker_events [] c = some c
  checker_events ((e, rs) ∷ rest) c = next (checker_events rest) (checker_event name e rs c)

  abbrev pub events_of : List Round → List (Event × Recorders)
  events_of [] = []
  events_of (r ∷ rest) =
      (elapse_transaction, r.recorders)
      ∷ (check_transaction r.now r.later r.written, r.recorders)
      ∷ events_of rest

  -- The drop rate of the summary at the times of a round.
  abbrev pub point_of : Round → InfluxData
  point_of r =
      droprate_point (Recorder.Transactions.summary r.now r.later r.recorders.transaction) name
        r.written

  -- The checker after a round in which the database takes the point.
  abbrev after_round : Round → Checker → Checker
  after_round r c = record c {
    transaction_timer = record { active = true; fired = false };
    influx = record c.influx { queue = c.influx.queue ++ point_of r ∷ [] };
  }

  -- The notices that a check of the blocks is to send.
  abbrev pub notices : Checker → BlocksSummary → List (Bytes × Notice)
  notices c s =
      if (valid s).0 then [] else sent_to c.slack.connected c.slack.channel_id (name, (valid s).1)

  on_summary-if :
      (is_valid : Bool) (c : Checker) (notice : Notice)
      → (if not is_valid then on_slack name c (send_to_slack notice c.slack) else some c)
        ≡ some (record c {
          slack = record c.slack {
            outgoing =
                c.slack.outgoing
                ++ (if is_valid then [] else sent_to c.slack.connected c.slack.channel_id notice);
          };
        })
  unfolding on_slack
  on_summary-if true c notice =
      ap (λ l. some (record c { slack = record c.slack { outgoing = l } }))
        (sym (append-nil c.slack.outgoing))
  on_summary-if false c notice = ap (on_slack name c) (send_to_slack_lem c.slack notice)

  -- A check of the blocks sends one notice, of the summary as `Valid` leaves it, to the channel if
  -- the summary is not valid and Slack is set up, and none otherwise; it changes nothing else.
  pub on_block-notices :
      (now : Time) (rs : Recorders) (c : Checker) (s : BlocksSummary)
      → summary now rs.block ≡ some s
      → on_block name now rs c
        ≡ some (record c { slack = record c.slack { outgoing = c.slack.outgoing ++ notices c s } })
  unfolding on_block on_summary
  on_block-notices now rs c s e =
      ap (on_summary name c) e ∙ on_summary-if (valid s).0 c (name, (valid s).1)

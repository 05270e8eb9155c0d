-- ===== src/Node/Checker/Notices.antt =====
-- nodes/node/checker.go: the notices that the checker sends about a blind block record.
use bitmarkd_broadcast_monit.Common.{
  ◌≡◌, refl, Bool, true, false, Option, none, some, List, [], ◌∷◌, ◌++◌, Bytes, Bool-cases,
  if◌then◌else◌, inl, inr,
}
use bitmarkd_broadcast_monit.Clock.{Time}
use bitmarkd_broadcast_monit.Clock.Timer.{Timer, receive, reset}
use bitmarkd_broadcast_monit.Messengers
use bitmarkd_broadcast_monit.Messengers.{SlackMessenger, send}
use bitmarkd_broadcast_monit.Recorder.Blocks.Summary.{BlocksSummary, valid}
use bitmarkd_broadcast_monit.Recorder.Blocks.Hashless.{IsBlind}
use bitmarkd_broadcast_monit.Recorder.Blocks.Silent.{IsSilent, summary-IsSilent, valid-IsSilent}
use bitmarkd_broadcast_monit.Node.Receiver.{Recorders}
use bitmarkd_broadcast_monit.Node.Checker.{
  Notice, Checker, Event, elapse_transaction, elapse_block, shutdown, check_transaction,
  check_block, send_to_slack, on_slack, on_summary, on_block, on_transaction, after_transaction,
  after_block, checker_event,
}

-- Every notice is about neither a fork nor a missing block.
abbrev pub AllSilent : List (Bytes × Notice) → Type 0
AllSilent [] = Unit {0}
AllSilent ((channel, (name, s)) ∷ rest) = IsSilent s × AllSilent rest

AllSilent-append :
    (xs : List (Bytes × Notice)) (channel name : Bytes) (s : BlocksSummary)
    → AllSilent xs
    → IsSilent s
    → AllSilent (xs ++ (channel, (name, s)) ∷ [])
AllSilent-append [] channel name s a h = (h, tt)
AllSilent-append (x ∷ xs) channel name s a h = (a.0, AllSilent-append xs channel name s a.1 h)

-- A messenger of which all notices so far are silent.
abbrev Quiet : SlackMessenger Notice → Type 0
Quiet m = AllSilent m.outgoing

send_to_slack-AllSilent :
    (name : Bytes) (s : BlocksSummary) (m : SlackMessenger Notice)
    → IsSilent s
    → Quiet m
    → (m' : SlackMessenger Notice) × (send_to_slack (name, s) m ≡ some m') × Quiet m'
unfolding send_to_slack Messengers.valid send
send_to_slack-AllSilent name s m h a = elim (Bool-cases m.connected) [
  | inl c ↦ (
    record m { outgoing = m.outgoing ++ (m.channel_id, (name, s)) ∷ [] },
    rw (send_to_slack, c) refl,
    AllSilent-append m.outgoing m.channel_id name s a h,
  )
  | inr c ↦ (m, rw (send_to_slack, c) refl, a)
]

module _ (name : Bytes) where
  -- What a step of the checker comes to: it does not panic, and its messenger stays quiet.
  abbrev pub StaysQuiet : Option Checker → Type 0
  StaysQuiet r = (c : Checker) × (r ≡ some c) × AllSilent c.slack.outgoing

  on_summary-StaysQuiet :
      (c : Checker) (s : BlocksSummary)
      → IsSilent s
      → Quiet c.slack
      → StaysQuiet (on_summary name c (some s))
  unfolding on_summary on_slack
  on_summary-StaysQuiet c s h a = elim (Bool-cases (valid s).0) [
    | inl v ↦ (c, rw (on_summary, v) refl, a)
    | inr v ↦
        let (m, e, q) = send_to_slack-AllSilent name (valid s).1 c.slack (valid-IsSilent s h) a in
        (record c { slack = m }, rw (on_summary, v, e) refl, q)
  ]

  on_block-StaysQuiet :
      (now : Time) (rs : Recorders) (c : Checker)
      → IsBlind rs.block
      → Quiet c.slack
      → StaysQuiet (on_block name now rs c)
  unfolding on_block
  on_block-StaysQuiet now rs c blind a =
      let (s, e, h) = summary-IsSilent now rs.block blind in
      rw (on_block, e) (on_summary-StaysQuiet c s h a)

  after_transaction-StaysQuiet :
      (now later written : Time) (rs : Recorders) (c : Checker) (t : Option Timer)
      → Quiet c.slack
      → StaysQuiet (after_transaction name now later written rs c t)
  unfolding after_transaction on_transaction
  after_transaction-StaysQuiet now later written rs c none a = (c, refl, a)
  after_transaction-StaysQuiet now later written rs c (some t) a =
      (on_transaction name now later written rs (record c { transaction_timer = reset t }), refl, a)

  after_block-StaysQuiet :
      (now : Time) (rs : Recorders) (c : Checker) (t : Option Timer)
      → IsBlind rs.block
      → Quiet c.slack
      → StaysQuiet (after_block name now rs c t)
  unfolding after_block
  after_block-StaysQuiet now rs c none blind a = (c, refl, a)
  after_block-StaysQuiet now rs c (some t) blind a =
      on_block-StaysQuiet now rs (record c { block_timer = reset t }) blind a

  unless_returned :
      (b : Bool) (c : Checker) {r : Option Checker}
      → Quiet c.slack
      → StaysQuiet r
      → StaysQuiet (if b then some c else r)
  unless_returned true c a q = (c, refl, a)
  unless_returned false c a q = q

  -- While the block record is blind, no event makes the checker panic, and no notice that it sends
  -- is about a fork or a missing block.
  pub checker_event-StaysQuiet :
      (e : Event) (rs : Recorders) (c : Checker)
      → IsBlind rs.block
      → AllSilent c.slack.outgoing
      → StaysQuiet (checker_event name e rs c)
  unfolding checker_event
  checker_event-StaysQuiet elapse_transaction rs c blind a = (_, refl, a)
  checker_event-StaysQuiet elapse_block rs c blind a = (_, refl, a)
  checker_event-StaysQuiet shutdown rs c blind a = (_, refl, a)
  checker_event-StaysQuiet (check_transaction now later written) rs c blind a =
      unless_returned c.returned c a
        (after_transaction-StaysQuiet now later written rs c (receive c.transaction_timer) a)
  checker_event-StaysQuiet (check_block now) rs c blind a =
      unless_returned c.returned c a
        (after_block-StaysQuiet now rs c (receive c.block_timer) blind a)

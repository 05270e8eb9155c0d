-- ===== src/Node/Sender.antt =====
-- nodes/node/sender.go: the loop that asks a node for its height and the block at it. What the node
-- answers comes with the event of the timer.
use bitmarkd_broadcast_monit.Common.{
  ℕ, Bool, true, false, Option, none, some, List, [], ◌∷◌, ◌++◌, if◌then◌else◌, not,
}
use bitmarkd_broadcast_monit.Clock.Timer.{Timer, new_timer, expire, receive, reset}
use bitmarkd_broadcast_monit.Communication.{InfoResponse}
pub mod Asking
pub mod Talking
pub mod Tests

-- What is asked of the node.
pub data Request : Type 0 where
  ask_info : Request
  ask_block_header : ℕ → Request

-- `elapse`: the time of the timer comes, if it runs; `timeout`: the case of the timer's channel,
-- with the answer to the first request; `shutdown`: the case of the context.
pub data Event : Type 0 where
  elapse shutdown : Event
  timeout : Option InfoResponse → Event

-- The timer, the requests so far, and whether the loop has returned.
pub record Sender : Type 0 where
  pub timer : Timer
  pub requests : List Request
  pub returned : Bool

unfoldable pub new_sender : Sender
new_sender = record { timer = new_timer; requests = []; returned = false }

-- An error of the first request goes on to the next turn; one of the second only changes the log.
abbrev pub ask : Option InfoResponse → Sender → Timer → Sender
ask none s t = record s { timer = t; requests = s.requests ++ ask_info ∷ [] }
ask (some info) s t = record s {
  timer = reset t;
  requests = s.requests ++ ask_info ∷ ask_block_header info.height ∷ [];
}

-- A case whose channel is empty is not taken.
abbrev take_timeout : Option InfoResponse → Sender → Option Timer → Sender
take_timeout info s none = s
take_timeout info s (some t) = ask info s t

unfoldable pub sender_event : Event → Sender → Sender
sender_event elapse s = record s { timer = expire s.timer }
sender_event shutdown s = record s { returned = true }
sender_event (timeout info) s = if s.returned then s else take_timeout info s (receive s.timer)

unfoldable pub sender_loop : List Event → Sender → Sender
unfolding sender_event
sender_loop [] s = s
sender_loop (e ∷ es) s = sender_loop es (sender_event e s)

-- ===== src/Messengers.antt =====
-- messengers/slack.go: the messenger to a Slack channel. The real-time connection of the Slack library
-- is what it was asked to send; a message is a value of any type.
use bitmarkd_broadcast_monit.Common.{
  Bool, true, false, not, ◌&&◌, List, [], ◌∷◌, ◌++◌, Bytes, is_empty_string, if◌then◌else◌,
}

-- `connected`: the client and its connection are there. `outgoing`: the channel and the message of
-- each call of `SendMessage`.
pub record SlackMessenger (Message : Type 0) : Type 0 where
  pub channel_id : Bytes
  pub connected : Bool
  pub outgoing : List (Bytes × Message)

-- What `Send` comes to; `no_connection` is a call on a connection that is nil.
pub data Sending (Message : Type 0) : Type 0 where
  sent : SlackMessenger Message → Sending Message
  insufficient_parameter no_connection : Sending Message

module _ {Message : Type 0} where
  unfoldable pub new_slack : Bytes → Bytes → SlackMessenger Message
  new_slack token channel_id =
      if not (is_empty_string token) && not (is_empty_string channel_id)
      then record { channel_id = channel_id; connected = true; outgoing = [] }
      else record { channel_id = []; connected = false; outgoing = [] }

  unfoldable pub valid : SlackMessenger Message → Bool
  valid s = s.connected

  unfoldable pub send : List Message → SlackMessenger Message → Sending Message
  send [] s = insufficient_parameter
  send (message ∷ rest) s =
      if s.connected
      then sent (record s { outgoing = s.outgoing ++ (s.channel_id, message) ∷ [] })
      else no_connection

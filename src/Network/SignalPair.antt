-- ===== src/Network/SignalPair.antt =====
-- network/signal_pair.go: the two ends of a signal. The calls of zmq4 are arguments, by what they
-- answer; the sockets that are open are kept by number.
use bitmarkd_broadcast_monit.Common.{
  ℕ, suc, ◌≡◌, refl, Bool, true, false, Option, none, some, List, [], ◌∷◌, ◌++◌, Bytes, bytes_eq,
  codes, if◌then◌else◌, ◌==◌, length, ltb,
}
use bitmarkd_broadcast_monit.Network.Client.{World, remove_socket}
pub mod Signals
pub mod Tests

pub record SignalPair : Type 0 where
  pub sender : ℕ
  pub receiver : ℕ
  pub channel : List Bytes

abbrev pub stop_msg : Bytes
stop_msg = codes "stop"

abbrev pub chan_size : ℕ
chan_size = 10

-- What zmq4 answers while a pair is made: whether the first socket is made and bound, and the
-- second made and connected. Linger is set and its error ignored.
pub record Answers : Type 0 where
  pub makes_receiver : Bool
  pub binds : Bool
  pub makes_sender : Bool
  pub connects : Bool

abbrev opened : World → World
opened w = record { sockets = w.next ∷ w.sockets; next = suc w.next }

-- `closeSocket`; nil is left alone. A close is taken to work, as its error is ignored.
unfoldable pub close_pair_socket : Option ℕ → World → World
close_pair_socket none w = w
close_pair_socket (some id) w = record w { sockets = remove_socket id w.sockets }

-- The second half of `newSignalPair`, with the receiver's number.
make_sender : Answers → ℕ → World → Option SignalPair × World
unfolding close_pair_socket
make_sender a receiver w =
    if a.makes_sender
    then if a.connects
      then (some (record { sender = w.next; receiver = receiver; channel = [] }), opened w)
      else (none, close_pair_socket (some w.next) (opened w))
    else (none, close_pair_socket none w)

unfoldable pub new_signal_pair : Answers → World → Option SignalPair × World
unfolding make_sender close_pair_socket
new_signal_pair a w =
    if a.makes_receiver
    then if a.binds
      then make_sender a w.next (opened w)
      else (none, close_pair_socket (some w.next) (opened w))
    else (none, w)

-- A turn of `receiverLoop`: an error, or a message. The loop ends after a stop message, and its
-- socket is closed; it is blocked while the channel is full.
pub data Received : Type 0 where
  receive_error : Received
  message : Bytes → Received

pub data Turn : Type 0 where
  goes_on ends blocks : SignalPair → World → Turn

unfoldable pub receiver_turn : Received → SignalPair → World → Turn
unfolding close_pair_socket
receiver_turn receive_error p w = goes_on p w
receiver_turn (message str) p w =
    let p' : SignalPair = record p { channel = p.channel ++ str ∷ [] } in
    if ltb (length p.channel) chan_size
    then if bytes_eq str stop_msg
      then ends p' (close_pair_socket (some p.receiver) w)
      else goes_on p' w
    else blocks p w

-- `receiverLoop` over what the receiver gets; the channel is not read meanwhile.
unfoldable pub receiver_loop : List Received → SignalPair → World → Turn
unfolding receiver_turn
receiver_loop [] p w = goes_on p w
receiver_loop (r ∷ rs) p w = elim (receiver_turn r p w) [
  | goes_on p' w' ↦ receiver_loop rs p' w'
  | ends p' w' ↦ ends p' w'
  | blocks p' w' ↦ blocks p' w'
]

-- `Stop`: what is sent, whatever `SendMessage` answers, and the sender closed.
unfoldable pub stop_pair : SignalPair → World → Bytes × World
unfolding close_pair_socket
stop_pair p w = (stop_msg, close_pair_socket (some p.sender) w)

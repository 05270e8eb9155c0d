-- ===== src/Node/Receiver/Reconnecting.antt =====
-- nodes/node/receiver.go: `initialisePoller`, and `reconnect`, which replaces the socket of the
-- receiver. Other goroutines act on the poller meanwhile.
use bitmarkd_broadcast_monit.Common.{
  ℕ, ◌<◌, ◌≡◌, ◌⊎◌, inl, inr, true, false, Option, none, some, List, ◌∷◌, arith,
}
use bitmarkd_broadcast_monit.Clock.Timer.{Timer, reset}
use bitmarkd_broadcast_monit.Network.Client.{Client, World, Zmq, reconnect}
use bitmarkd_broadcast_monit.Network.SignalPair.{SignalPair, Answers, new_signal_pair}
use bitmarkd_broadcast_monit.Network.Poller.{
  Poller, new_poller, add_socket, queue_remove, Label, add, remove_client, Step, by_add,
  by_remove_client, Run,
}
use bitmarkd_broadcast_monit.Network.Poller.Waits.{add-waits}

with_pair : ℕ → Option SignalPair × World → Option Poller × World
with_pair socket (none, w) = (none, w)
with_pair socket (some pair, w) = (some (add_socket socket new_poller), w)

-- `NewPoller`, and the socket of the receiver added; none is an error.
unfoldable pub initialise_poller : Answers → ℕ → World → Option Poller × World
unfolding with_pair
initialise_poller a socket w = with_pair socket (new_signal_pair a w)

-- The client of the broadcasts, the open sockets, the poller and the timer of the receiver.
pub record Receiving : Type 0 where
  pub client : Client
  pub world : World
  pub poller : Poller
  pub timer : Timer

-- A call of `reconnect` that returns: the client fails to reconnect, or its new socket is added once
-- the poller's `Add` gets past its wait. `id` stands for the client in the poller's queue.
pub data Reconnect (id : ℕ) (zmq : Zmq) : Receiving → Receiving → Type 0 where
  aborted :
      {s : Receiving} {p : Poller}
      → Step (remove_client id) s.poller p
      → (reconnect zmq s.client s.world).ok ≡ false
      → Reconnect id zmq s (record s {
        client = (reconnect zmq s.client s.world).client;
        world = (reconnect zmq s.client s.world).world;
        poller = p;
      })
  added :
      {s : Receiving} {p q : Poller} {ls : List Label} {socket : ℕ}
      → Run (remove_client id ∷ ls) s.poller p
      → (reconnect zmq s.client s.world).ok ≡ true
      → (reconnect zmq s.client s.world).client.socket ≡ some socket
      → Step (add socket) p q
      → Reconnect id zmq s (record s {
        client = (reconnect zmq s.client s.world).client;
        world = (reconnect zmq s.client s.world).world;
        poller = q;
        timer = reset s.timer;
      })

add-polling : {socket : ℕ} {p q : Poller} → Step (add socket) p q → q.polling ≡ p.polling
unfolding add_socket
add-polling (by_add socket free) = ground arith

remove_client-group : {id : ℕ} {p q : Poller} → Step (remove_client id) p q → 0 < q.group
unfolding queue_remove
remove_client-group (by_remove_client id) = omega arith

-- A call of `reconnect` that returns has either failed, and left a removal that each later `Add` of
-- the poller waits for, or it has come back when the poll loop had ended.
pub reconnect_stalls :
    {id : ℕ} {zmq : Zmq} {s t : Receiving}
    → Reconnect id zmq s t
    → (((reconnect zmq s.client s.world).ok ≡ false) × (0 < t.poller.group))
      ⊎ (t.poller.polling ≡ false)
reconnect_stalls (aborted removed fails) = inl (fails, remove_client-group removed)
reconnect_stalls {id = id} (added {socket = socket} run ok new adds) =
    inr (rw (add-polling adds) (add-waits id socket run adds))

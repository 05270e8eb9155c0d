-- ===== src/Node/Remote.antt =====
-- nodes/node/remote.go: the two clients of a node. The calls of zmq4 and net during an operation are
-- arguments, one for each client that it works on. The world is the open sockets.
use bitmarkd_broadcast_monit.Common.{
  ℕ, Bool, true, false, not, Option, none, some, List, [], ◌∷◌, ◌++◌, Bytes, codes, is_empty_string,
  if◌then◌else◌,
}
use bitmarkd_broadcast_monit.Configuration.{NodeConfig}
use bitmarkd_broadcast_monit.Network.Address.{Net, Connection, Result, failed, ok, new_connection}
use bitmarkd_broadcast_monit.Network.Client.{
  Client, World, Zmq, Done, SocketType, req, sub, new_client, connect, close, close_clients,
}
use bitmarkd_broadcast_monit.Node.Keys.{NodeKeys}
pub mod Leaks
pub mod Requests
pub mod Closing
pub mod Tests

pub record Remote : Type 0 where
  pub broadcast_receiver : Option Client
  pub command_sender : Option Client

pub record ConnectionInfo : Type 0 where
  pub address_and_port : Bytes
  pub chain : Bytes
  pub zmq_type : SocketType

unfoldable pub host_and_port : Bytes → Bytes → Bytes
host_and_port host port = host ++ codes ":" ++ port

-- The named results of `newZmqClient`, and the sockets that are open.
pub record Named : Type 0 where
  pub client : Option Client
  pub failed : Bool
  pub world : World

-- The deferred function of `newZmqClient`.
unfoldable pub deferred : Zmq → Named → Named
deferred zmq n = elim n.client [
  | none ↦ n
  | some c ↦ if n.failed then record n { world = close_clients zmq (some c ∷ []) n.world } else n
]

module _ (net : Net) where
  -- The body after `NewClient`: `return nil, err` sets both results.
  after_connect : Done → Named
  after_connect d =
      if d.ok
      then record { client = some d.client; failed = false; world = d.world }
      else record { client = none; failed = true; world = d.world }

  unfoldable pub connect_client :
      Zmq → NodeKeys → ConnectionInfo → Connection net → Client → World → Named
  unfolding after_connect
  connect_client zmq keys info address c w =
      after_connect (connect net zmq address keys.remote_public info.chain c w)

  -- The two returns before the deferred function is set, and the rest.
  unfoldable pub new_zmq_client : Zmq → NodeKeys → ConnectionInfo → World → Named
  unfolding connect_client
  new_zmq_client zmq keys info w = elim (new_connection net info.address_and_port) [
    | failed e ↦ record { client = none; failed = true; world = w }
    | ok address ↦ elim (new_client info.zmq_type keys.private keys.public 0) [
      | none ↦ record { client = none; failed = true; world = w }
      | some c ↦ deferred zmq (connect_client zmq keys info address c w)
    ]
  ]

  abbrev pub broadcast_info : NodeConfig → ConnectionInfo
  broadcast_info config = record {
    address_and_port = host_and_port config.ip config.broadcast_port;
    chain = config.chain;
    zmq_type = sub;
  }

  abbrev pub command_info : NodeConfig → ConnectionInfo
  command_info config = record {
    address_and_port = host_and_port config.ip config.command_port;
    chain = config.chain;
    zmq_type = req;
  }

  after_command : Client → Named → Option Remote × World
  after_command receiver n = if n.failed then (none, n.world) else (
    some (record { broadcast_receiver = some receiver; command_sender = n.client }),
    n.world,
  )

  with_receiver : Zmq → NodeConfig → NodeKeys → World → Client → Option Remote × World
  unfolding after_command
  with_receiver zmq config keys w receiver =
      if is_empty_string config.command_port
      then (some (record { broadcast_receiver = some receiver; command_sender = none }), w)
      else after_command receiver (new_zmq_client zmq keys (command_info config) w)

  -- `newClient`: the remote, or none for an error. `zmq` answers for the first client, `zmq'` for
  -- the second.
  unfoldable pub new_remote : Zmq → Zmq → NodeConfig → NodeKeys → World → Option Remote × World
  unfolding with_receiver
  new_remote zmq zmq' config keys w =
      let first = new_zmq_client zmq keys (broadcast_info config) w in
      elim first.client [
        | none ↦ (none, first.world)
        | some receiver ↦ with_receiver zmq' config keys first.world receiver
      ]

-- What a call of `Close` comes to: whether it returned no error.
pub record Closed : Type 0 where
  pub remote : Remote
  pub world : World
  pub ok : Bool

close_receiver : Zmq → Remote → World → Closed
close_receiver zmq r w = elim r.broadcast_receiver [
  | none ↦ record { remote = r; world = w; ok = true }
  | some c ↦
      let d = close zmq c w in
      record {
        remote = record r { broadcast_receiver = some d.client };
        world = d.world;
        ok = d.ok;
      }
]

close_sender : Zmq → Remote → World → Closed
close_sender zmq r w = elim r.command_sender [
  | none ↦ record { remote = r; world = w; ok = true }
  | some c ↦
      let d = close zmq c w in
      record { remote = record r { command_sender = some d.client }; world = d.world; ok = d.ok }
]

-- `Close` of a remote: the second client is only closed after the first.
unfoldable pub close_remote : Zmq → Zmq → Remote → World → Closed
unfolding close_receiver close_sender
close_remote zmq zmq' r w =
    let first = close_receiver zmq r w in
    if first.ok then close_sender zmq' first.remote first.world else first

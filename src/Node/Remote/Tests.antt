-- ===== src/Node/Remote/Tests.antt =====
-- nodes/node/remote.go for a node at one address.
use bitmarkd_broadcast_monit.Common.{
  ◌≡◌, refl, Bool, true, false, none, some, [], ◌∷◌, codes, replicate,
}
use bitmarkd_broadcast_monit.Configuration.{NodeConfig}
use bitmarkd_broadcast_monit.Network.Address.{
  Net, new_connection, find_ip, atoi, canonical_ip_and_port, itoa,
}
use bitmarkd_broadcast_monit.Network.Address.Tests.{local}
use bitmarkd_broadcast_monit.Network.Client.{
  Client, World, Zmq, sub, req, fresh_client, new_client, connect,
}
use bitmarkd_broadcast_monit.Node.Keys.{NodeKeys}
use bitmarkd_broadcast_monit.Node.Remote.{
  new_zmq_client, broadcast_info, command_info, new_remote, deferred, close_remote,
}
use bitmarkd_broadcast_monit.Node.Remote.Leaks.{IsUsual, new_remote_leaks}
use bitmarkd_broadcast_monit.Node.Remote.Closing.{IsClosed, close_remote-new_remote}

abbrev pub usual : Bool → Zmq
usual makes = record {
  new_socket = makes;
  random = some (codes "id");
  accepts = λ s. true;
  close = true;
}

usual-IsUsual : (makes : Bool) → IsUsual (usual makes)
usual-IsUsual makes = record { id = codes "id"; random = refl; closes = refl }

abbrev pub net : Net
net = local (codes "2135")

abbrev pub config : NodeConfig
config = record {
  ip = codes "127.0.0.1";
  broadcast_port = codes "2135";
  command_port = codes "2130";
  chain = codes "bitmark";
  name = codes "node";
  public_key = [];
}

abbrev keys : NodeKeys
keys = record { private = replicate 32 2; public = replicate 32 1; remote_public = replicate 32 3 }

abbrev world : World
world = record { sockets = 1 ∷ []; next = 5 }

abbrev receiver : Client
receiver = record (fresh_client sub keys.private keys.public 0) {
  server_public_key = keys.remote_public;
  address = codes "tcp://127.0.0.1:2135";
  prefix = codes "bitmark";
  socket = some 5;
}

first_client_test :
    (new_zmq_client net (usual true) keys (broadcast_info net config) world).client ≡ some receiver
unfolding new_zmq_client new_connection find_ip atoi canonical_ip_and_port itoa new_client deferred
    connect
first_client_test = refl

second_client_test :
    (new_zmq_client net
      (usual false)
      keys
      (command_info net config)
      (new_zmq_client net (usual true) keys (broadcast_info net config) world).world).failed
    ≡ true
unfolding new_zmq_client new_connection find_ip atoi canonical_ip_and_port itoa new_client deferred
    connect
second_client_test = refl

new_remote_leaks_example :
    ((new_remote net (usual true) (usual false) config keys world).0 ≡ none)
    × ((new_remote net (usual true) (usual false) config keys world).1.sockets ≡ 5 ∷ 1 ∷ [])
new_remote_leaks_example =
    new_remote_leaks net (usual true) (usual false) config keys world receiver (usual-IsUsual true)
      (usual-IsUsual false) refl first_client_test second_client_test

abbrev sender : Client
sender = record receiver { prefix = codes "bitmark"; socket_type = req; socket = some 6 }

new_remote_test :
    (new_remote net (usual true) (usual true) config keys world).0
    ≡ some (record { broadcast_receiver = some receiver; command_sender = some sender })
unfolding new_remote new_zmq_client new_connection find_ip atoi canonical_ip_and_port itoa
    new_client deferred connect
new_remote_test = refl

close_remote-new_remote_example : IsClosed (1 ∷ []) (
    close_remote
      (usual true)
      (usual true)
      (record { broadcast_receiver = some receiver; command_sender = some sender })
      (new_remote net (usual true) (usual true) config keys world).1)
close_remote-new_remote_example =
    close_remote-new_remote net (usual true) (usual true) config keys world
      (record { broadcast_receiver = some receiver; command_sender = some sender })
      (usual-IsUsual true) (usual-IsUsual true) new_remote_test

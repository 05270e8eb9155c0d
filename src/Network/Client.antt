-- ===== src/Network/Client.antt =====
-- network/client.go: a client and its zmq socket. The library zmq4 is a parameter, by what each of
-- its calls answers; `World` keeps the sockets that are open. Locks and delays are left out.
use bitmarkd_broadcast_monit.Common.{
  ℕ, zero, suc, ◌+◌, ◌*◌, ◌≡◌, Bool, true, false, not, ◌==◌, Option, none, some, List, [], ◌∷◌,
  ◌++◌, length, take, replicate, Bytes, bytes_eq, codes, is_empty_string, if◌then◌else◌,
}
use bitmarkd_broadcast_monit.Common.Hex.{hex_encode}
use bitmarkd_broadcast_monit.Network.Address.{Net, Connection, canonical_ip_and_port}
use bitmarkd_broadcast_monit.Network.Keypair.{drop}
pub mod Sockets
pub mod Sending
pub mod Tests

abbrev pub maximum_packet_size : ℕ
maximum_packet_size = 5_000_000

abbrev pub public_key_size : ℕ
public_key_size = 32

abbrev pub private_key_size : ℕ
private_key_size = 32

-- `zmq.Type`, as far as the source tells types apart.
pub data SocketType : Type 0 where
  req sub pair : SocketType

-- A socket is named by a number.
pub record Client : Type 0 where
  pub public_key : Bytes
  pub private_key : Bytes
  pub server_public_key : Bytes
  pub address : Bytes
  pub prefix : Bytes
  pub v6 : Bool
  pub socket_type : SocketType
  pub socket : Option ℕ
  pub timeout : ℕ

-- A setting of a socket, and its connection.
pub data Setting : Type 0 where
  curve_server : Setting
  curve_publickey curve_secretkey identity curve_serverkey : Bytes → Setting
  sndtimeo rcvtimeo linger : ℕ → Setting
  req_correlate req_relaxed : ℕ → Setting
  subscribe : Bytes → Setting
  tcp_keepalive tcp_keepalive_cnt tcp_keepalive_idle tcp_keepalive_intvl : ℕ → Setting
  max_msgsize : ℕ → Setting
  ipv6 : Bool → Setting
  connect_to : Bytes → Setting

-- The open sockets of all clients, the newest first, and a number that none of them has.
pub record World : Type 0 where
  pub sockets : List ℕ
  pub next : ℕ

-- What the calls of one operation answer: whether a socket is made, the random bytes, whether a
-- setting is taken, and whether a close reports no error.
pub record Zmq : Type 0 where
  pub new_socket : Bool
  pub random : Option Bytes
  pub accepts : Setting → Bool
  pub close : Bool

-- The client that `NewClient` makes: it has no socket and no address.
abbrev pub fresh_client : SocketType → Bytes → Bytes → ℕ → Client
fresh_client socket_type private_key public_key timeout = record {
  public_key = public_key;
  private_key = private_key;
  server_public_key = replicate public_key_size 0;
  address = [];
  prefix = [];
  v6 = false;
  socket_type = socket_type;
  socket = none;
  timeout = timeout;
}

unfoldable pub new_client : SocketType → Bytes → Bytes → ℕ → Option Client
new_client socket_type private_key public_key timeout =
    if not (length public_key == public_key_size)
    then none
    else if not (length private_key == private_key_size)
    then none
    else some (fresh_client socket_type private_key public_key timeout)

abbrev type_settings : Client → SocketType → List Setting
type_settings c req = req_correlate 1 ∷ req_relaxed 1 ∷ []
type_settings c sub = subscribe c.prefix ∷ []
type_settings c pair = []

-- The calls on a new socket whose error leads to `failure`, in order. `SetImmediate`, whose error
-- is ignored, is left out.
abbrev pub settings : Client → Bytes → List Setting
settings c random_identifier =
    (curve_server
      ∷ curve_publickey c.public_key
      ∷ curve_secretkey c.private_key
      ∷ identity random_identifier
      ∷ curve_serverkey c.server_public_key
      ∷ [])
    ++ (if 0 == c.timeout then [] else (sndtimeo c.timeout ∷ rcvtimeo c.timeout ∷ []))
    ++ (linger 100 ∷ [])
    ++ type_settings c c.socket_type
    ++ (tcp_keepalive 1
        ∷ tcp_keepalive_cnt 5
        ∷ tcp_keepalive_idle 60
        ∷ tcp_keepalive_intvl 60
        ∷ max_msgsize maximum_packet_size
        ∷ ipv6 c.v6
        ∷ connect_to c.address
        ∷ [])

-- The calls up to the first that fails.
unfoldable pub all_taken : (Setting → Bool) → List Setting → Bool
all_taken accepts [] = true
all_taken accepts (s ∷ rest) = if accepts s then all_taken accepts rest else false

abbrev pub remove_socket : ℕ → List ℕ → List ℕ
remove_socket id [] = []
remove_socket id (s ∷ rest) = if id == s then rest else s ∷ remove_socket id rest

-- `Close` of a socket; one that fails leaves it open.
abbrev pub close_id : Zmq → ℕ → World → World
close_id zmq id w = if zmq.close then record w { sockets = remove_socket id w.sockets } else w

-- The client, the world after the call, and whether no error was returned.
pub record Done : Type 0 where
  pub client : Client
  pub world : World
  pub ok : Bool

unfoldable pub open_socket : Zmq → Client → World → Done
unfolding all_taken
open_socket zmq c w =
    let id = w.next in
    let opened : World = record { sockets = id ∷ w.sockets; next = suc id } in
    if zmq.new_socket
    then elim zmq.random [
      | none ↦ record { client = c; world = opened; ok = false }
      | some random_identifier ↦
          if all_taken zmq.accepts (settings c random_identifier)
          then record { client = record c { socket = some id }; world = opened; ok = true }
          else record { client = c; world = close_id zmq id opened; ok = false }
    ]
    else record { client = c; world = w; ok = false }

unfoldable pub close_socket : Zmq → Client → World → Done
close_socket zmq c w = elim c.socket [
  | none ↦ record { client = c; world = w; ok = true }
  | some id ↦ record {
    client = record c { socket = none };
    world = close_id zmq id w;
    ok = zmq.close;
  }
]

-- `copy(to, from)`
abbrev pub copy : Bytes → Bytes → Bytes
copy to from = take (length to) from ++ drop (length from) to

unfoldable pub connect : (net : Net) → Zmq → Connection net → Bytes → Bytes → Client → World → Done
unfolding open_socket close_socket canonical_ip_and_port
connect net zmq conn server_public_key prefix c w =
    let closed = close_socket zmq c w in
    let (address, v6) = canonical_ip_and_port net conn (codes "tcp://") in
    if closed.ok
    then open_socket zmq
        (record closed.client {
          prefix = prefix;
          server_public_key = copy closed.client.server_public_key server_public_key;
          address = address;
          v6 = v6;
        })
        closed.world
    else closed

unfoldable pub is_connected : Client → Bool
is_connected c = not (is_empty_string c.address)

unfoldable pub is_connected_to : Client → Bytes → Bool
is_connected_to c server_public_key = bytes_eq c.server_public_key server_public_key

-- `Reconnect`, and `reopenSocket`, whose socket is the client's.
unfoldable pub reconnect : Zmq → Client → World → Done
unfolding open_socket close_socket
reconnect zmq c w =
    let closed = close_socket zmq c w in
    if closed.ok then open_socket zmq closed.client closed.world else closed

unfoldable pub close : Zmq → Client → World → Done
unfolding close_socket
close zmq c w = close_socket zmq c w

-- `ConnectedTo`: the address and the server's key.
unfoldable pub connected_to : Client → Option (Bytes × Bytes)
connected_to c =
    if is_empty_string c.address then none else some (c.address, hex_encode c.server_public_key)

-- `CloseClients`: errors are ignored. What it leaves of the clients is not kept.
unfoldable pub close_clients : Zmq → List (Option Client) → World → World
unfolding close
close_clients zmq [] w = w
close_clients zmq (none ∷ cs) w = close_clients zmq cs w
close_clients zmq (some c ∷ cs) w = close_clients zmq cs (close zmq c w).world

-- ===== src/Node/Remote/Leaks.antt =====
-- nodes/node/remote.go: the sockets that the clients of a node open, leave open and close.
use bitmarkd_broadcast_monit.Common.{
  none_ne, true_ne, suc, ◌≡◌, refl, sym, ◌∙◌, subst, ◌==◌, ◌⊎◌, inl, inr, true, false, none, some,
  ◌∷◌, Bytes, is_empty_string, arith, Bool-cases, Option-cases, length,
}
use mathlib.Core.Option.{some-injective}
use bitmarkd_broadcast_monit.Configuration.{NodeConfig}
use bitmarkd_broadcast_monit.Network.Address.{Net, Connection, new_connection}
use bitmarkd_broadcast_monit.Network.Address.Ports.{Result-cases}
use bitmarkd_broadcast_monit.Network.Client.{
  Client, World, Zmq, SocketType, new_client, fresh_client, public_key_size, private_key_size,
  open_socket, close_socket, connect, all_taken, settings,
}
use bitmarkd_broadcast_monit.Network.Client.Sockets.{==_refl}
use bitmarkd_broadcast_monit.Node.Keys.{NodeKeys}
use bitmarkd_broadcast_monit.Node.Remote.{
  ConnectionInfo, Named, deferred, after_connect, connect_client, new_zmq_client, broadcast_info,
  command_info, with_receiver, after_command, new_remote,
}

-- Answers under which sockets can be closed and random bytes are there.
pub record IsUsual (zmq : Zmq) : Type 0 where
  pub id : Bytes
  pub random : zmq.random ≡ some id
  pub closes : zmq.close ≡ true

-- A client that was made, with the socket that it has opened.
pub record IsMade (w : World) (n : Named) (c : Client) : Type 0 where
  pub succeeds : n.failed ≡ false
  pub client : n.client ≡ some c
  pub socket : c.socket ≡ some w.next
  pub sockets : n.world.sockets ≡ w.next ∷ w.sockets
  pub next : n.world.next ≡ suc w.next

pub record IsRefused (w : World) (n : Named) : Type 0 where
  pub fails : n.failed ≡ true
  pub client : n.client ≡ none
  pub sockets : n.world.sockets ≡ w.sockets

abbrev pub IsMadeOrRefused : World → Named → Type 0
IsMadeOrRefused w n = ((c : Client) × IsMade w n c) ⊎ IsRefused w n

open_socket-IsMadeOrRefused :
    (net : Net) (zmq : Zmq) (c : Client) (w : World)
    → IsUsual zmq
    → IsMadeOrRefused w (after_connect net (open_socket zmq c w))
unfolding after_connect open_socket
open_socket-IsMadeOrRefused net zmq c w u = elim (Bool-cases zmq.new_socket) [
  | inr f ↦
      inr (
        rw (after_connect, open_socket, f) (record { fails = refl; client = refl; sockets = refl }))
  | inl t ↦ elim (Bool-cases (all_taken zmq.accepts (settings c u.id))) [
    | inr a ↦ inr (
        rw (after_connect, open_socket, t, u.random, a, u.closes)
          (record { fails = refl; client = refl; sockets = rw (==_refl w.next) refl }))
    | inl a ↦ inl (
      record c { socket = some w.next },
      rw (after_connect, open_socket, t, u.random, a)
          (record { succeeds = refl; client = refl; socket = refl; sockets = refl; next = refl }),
    )
  ]
]

connect_client-IsMadeOrRefused :
    (net : Net) (zmq : Zmq) (keys : NodeKeys) (info : ConnectionInfo) (address : Connection net)
    (w : World)
    → IsUsual zmq
    → IsMadeOrRefused w (
        connect_client net zmq keys info address
          (fresh_client info.zmq_type keys.private keys.public 0)
          w)
unfolding connect_client connect close_socket
connect_client-IsMadeOrRefused net zmq keys info address w u =
    open_socket-IsMadeOrRefused net zmq _ w u

-- The deferred function of `newZmqClient` never does anything: where there is an error, the client
-- that it looks at has been set to nil.
pub deferred_idle :
    (net : Net) (zmq zmq' : Zmq) (keys : NodeKeys) (info : ConnectionInfo)
    (address : Connection net) (c : Client) (w : World)
    → let n = connect_client net zmq keys info address c w in deferred zmq' n ≡ n
unfolding deferred connect_client after_connect
deferred_idle net zmq zmq' keys info address c w = ground arith

new_client-fresh :
    (socket_type : SocketType) (private public : Bytes) (c : Client)
    → new_client socket_type private public 0 ≡ some c
    → c ≡ fresh_client socket_type private public 0
unfolding new_client
new_client-fresh socket_type private public c e =
    elim (Bool-cases (length public == public_key_size)) [
      | inr p ↦ absurd (none_ne (rw (new_client, p) at e))
      | inl p ↦ elim (Bool-cases (length private == private_key_size)) [
        | inr q ↦ absurd (none_ne (rw (new_client, p, q) at e))
        | inl q ↦ sym (some-injective _ _ (rw (new_client, p, q) at e))
      ]
    ]

pub new_zmq_client-IsMadeOrRefused :
    (net : Net) (zmq : Zmq) (keys : NodeKeys) (info : ConnectionInfo) (w : World)
    → IsUsual zmq
    → IsMadeOrRefused w (new_zmq_client net zmq keys info w)
unfolding new_zmq_client
new_zmq_client-IsMadeOrRefused net zmq keys info w u =
    elim (Result-cases (new_connection net info.address_and_port)) [
      | inl (f, e) ↦
          inr (rw (new_zmq_client, e) (record { fails = refl; client = refl; sockets = refl }))
      | inr (address, e) ↦
          elim (Option-cases (new_client info.zmq_type keys.private keys.public 0)) [
            | inl n ↦
                inr (
                  rw (new_zmq_client, e, n)
                    (record { fails = refl; client = refl; sockets = refl }))
            | inr (c, m) ↦
                rw
                  (
                    new_zmq_client,
                    e,
                    m,
                    deferred_idle net zmq zmq keys info address c w,
                    new_client-fresh info.zmq_type keys.private keys.public c m,
                  )
                  (connect_client-IsMadeOrRefused net zmq keys info address w u)
          ]
    ]

pub new_zmq_client-IsMade :
    (net : Net) (zmq : Zmq) (keys : NodeKeys) (info : ConnectionInfo) (w : World) (c : Client)
    → IsUsual zmq
    → (new_zmq_client net zmq keys info w).client ≡ some c
    → IsMade w (new_zmq_client net zmq keys info w) c
new_zmq_client-IsMade net zmq keys info w c u made =
    elim (new_zmq_client-IsMadeOrRefused net zmq keys info w u) [
      | inl (d, m) ↦ subst (IsMade w _) (some-injective d c (sym m.client ∙ made)) m
      | inr refused ↦ absurd (none_ne (sym refused.client ∙ made))
    ]

-- Where sockets can be closed and the random bytes are there, and a node has a command port: if its
-- first client is made and the second is not, the error leaves the socket of the first open, and
-- nothing returned holds it.
pub new_remote_leaks :
    (net : Net) (zmq zmq' : Zmq) (config : NodeConfig) (keys : NodeKeys) (w : World) (c : Client)
    → IsUsual zmq
    → IsUsual zmq'
    → is_empty_string config.command_port ≡ false
    → let first = new_zmq_client net zmq keys (broadcast_info net config) w in
      first.client ≡ some c
      → (new_zmq_client net zmq' keys (command_info net config) first.world).failed ≡ true
      → ((new_remote net zmq zmq' config keys w).0 ≡ none)
        × ((new_remote net zmq zmq' config keys w).1.sockets ≡ w.next ∷ w.sockets)
unfolding new_remote with_receiver after_command
new_remote_leaks net zmq zmq' config keys w c u u' port made fails =
    let first = new_zmq_client net zmq keys (broadcast_info net config) w in
    elim (new_zmq_client-IsMadeOrRefused net zmq' keys (command_info net config) first.world u') [
      | inl (d, m) ↦ absurd (true_ne (sym fails ∙ m.succeeds))
      | inr refused ↦
          rw (new_remote, made, with_receiver, port, after_command, fails)
            (
              refl,
              refused.sockets
                  ∙ (new_zmq_client-IsMade net zmq keys (broadcast_info net config) w c u
                      made).sockets,
            )
    ]

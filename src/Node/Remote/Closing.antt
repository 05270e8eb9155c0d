-- ===== src/Node/Remote/Closing.antt =====
-- nodes/node/remote.go: `Close` undoes `newClient`.
use bitmarkd_broadcast_monit.Common.{
  none_ne, ℕ, suc, ◌≡◌, refl, sym, ap, ap₂, ◌∙◌, ◌==◌, inl, inr, true, false, none, some, List, ◌∷◌,
  is_empty_string, arith, Bool-cases,
}
use mathlib.Core.Option.{some-injective}
use bitmarkd_broadcast_monit.Configuration.{NodeConfig}
use bitmarkd_broadcast_monit.Network.Address.{Net}
use bitmarkd_broadcast_monit.Network.Client.{Client, World, Zmq, close, close_socket, remove_socket}
use bitmarkd_broadcast_monit.Network.Client.Sockets.{==_refl}
use bitmarkd_broadcast_monit.Node.Keys.{NodeKeys}
use bitmarkd_broadcast_monit.Node.Remote.{
  Remote, new_zmq_client, broadcast_info, command_info, with_receiver, after_command, new_remote,
  Closed, close_receiver, close_sender, close_remote,
}
use bitmarkd_broadcast_monit.Node.Remote.Leaks.{IsUsual, new_zmq_client-IsMadeOrRefused}

close-socket :
    (zmq : Zmq) (c : Client) (id : ℕ) (w : World) (sockets : List ℕ)
    → zmq.close ≡ true
    → c.socket ≡ some id
    → remove_socket id w.sockets ≡ sockets
    → close zmq c w ≡ record {
      client = record c { socket = none };
      world = record w { sockets = sockets };
      ok = true;
    }
unfolding close close_socket
close-socket zmq c id w sockets closes has left = rw (close, close_socket, has, closes, left) refl

-- What `Close` is to come to: no error, and only the other sockets are open.
pub record IsClosed (others : List ℕ) (d : Closed) : Type 0 where
  pub ok : d.ok ≡ true
  pub sockets : d.world.sockets ≡ others

module _ (zmq zmq' : Zmq) (closes : zmq.close ≡ true) (closes' : zmq'.close ≡ true) where
  close_remote-one :
      (c : Client) (w : World) (id : ℕ) (others : List ℕ)
      → c.socket ≡ some id
      → w.sockets ≡ id ∷ others
      → IsClosed others
          (close_remote zmq zmq' (record { broadcast_receiver = some c; command_sender = none }) w)
  unfolding close_remote close_receiver close_sender
  close_remote-one c w id others has e =
      rw (close-socket zmq c id w others closes has (rw (e, ==_refl id) refl))
        (record { ok = refl; sockets = refl })

  close_remote-two :
      (c d : Client) (w : World) (id : ℕ) (others : List ℕ)
      → c.socket ≡ some id
      → d.socket ≡ some (suc id)
      → w.sockets ≡ suc id ∷ id ∷ others
      → IsClosed others (
          close_remote zmq zmq' (record { broadcast_receiver = some c; command_sender = some d }) w)
  unfolding close_remote close_receiver close_sender
  close_remote-two c d w id others has has' e =
      let other : (id == suc id) ≡ false = ground arith in
      rw
        (
          close-socket zmq c id w (suc id ∷ others) closes has (rw (e, other, ==_refl id) refl),
          close-socket zmq' d (suc id) (record w { sockets = suc id ∷ others }) others closes' has'
              (rw (==_refl (suc id)) refl),
        )
        (record { ok = refl; sockets = refl })

-- Where sockets can be closed and the random bytes are there, a remote that was made and is closed
-- leaves the sockets open that were open before, and no others.
pub close_remote-new_remote :
    (net : Net) (zmq zmq' : Zmq) (config : NodeConfig) (keys : NodeKeys) (w : World) (r : Remote)
    → IsUsual zmq
    → IsUsual zmq'
    → (new_remote net zmq zmq' config keys w).0 ≡ some r
    → IsClosed w.sockets (close_remote zmq zmq' r (new_remote net zmq zmq' config keys w).1)
unfolding new_remote with_receiver after_command
close_remote-new_remote net zmq zmq' config keys w r u u' made =
    let first = new_zmq_client net zmq keys (broadcast_info net config) w in
    elim (new_zmq_client-IsMadeOrRefused net zmq keys (broadcast_info net config) w u) [
      | inr refused ↦ absurd (none_ne (rw (new_remote, refused.client) at made))
      | inl (c, m) ↦ elim (Bool-cases (is_empty_string config.command_port)) [
        | inl no_port ↦
            rw
              (
                new_remote,
                m.client,
                with_receiver,
                no_port,
                sym (
                    some-injective _ _ (rw (new_remote, m.client, with_receiver, no_port) at made)),
              )
              (close_remote-one zmq zmq' u.closes u'.closes c first.world w.next w.sockets m.socket
                m.sockets)
        | inr port ↦
            elim (new_zmq_client-IsMadeOrRefused net zmq' keys (command_info net config) first.world
              u') [
                | inr refused ↦ absurd (
                    none_ne (
                      rw (new_remote, m.client, with_receiver, port, after_command, refused.fails)
                        at made))
                | inl (d, k) ↦
                    rw
                      (
                        new_remote,
                        m.client,
                        with_receiver,
                        port,
                        after_command,
                        k.succeeds,
                        sym (
                            some-injective _ _ (
                              rw
                                (
                                  new_remote, m.client, with_receiver, port, after_command,
                                  k.succeeds, k.client,
                                )
                                at made)),
                      )
                      (close_remote-two zmq zmq' u.closes u'.closes c d _ w.next w.sockets m.socket
                        (k.socket ∙ ap some m.next) (k.sockets ∙ ap₂ ◌∷◌ m.next m.sockets))
              ]
      ]
    ]

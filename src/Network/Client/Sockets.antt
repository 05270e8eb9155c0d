-- ===== src/Network/Client/Sockets.antt =====
-- network/client.go: the sockets that a client leaves open.
use bitmarkd_broadcast_monit.Common.{
  ℕ, ◌≡◌, ◌≢◌, refl, ap, sym, subst, true, false, ◌==◌, Option, none, some, List, ◌∷◌, Bytes, ◌⊎◌,
  inl, inr, arith, Option-cases, Bool-cases,
}
use mathlib.Core.List.{Mem, mem-cons_self}
use bitmarkd_broadcast_monit.Network.Address.{Net, Connection}
use bitmarkd_broadcast_monit.Network.Client.{
  Client, World, Zmq, Done, open_socket, close_socket, connect, reconnect, close, is_connected,
  is_connected_to, connected_to, all_taken, settings, remove_socket,
}

abbrev pub HasBeside : List ℕ → Option ℕ → List ℕ → Type 0
HasBeside others none sockets = sockets ≡ others
HasBeside others (some id) sockets = Mem id sockets × (remove_socket id sockets ≡ others)

-- The open sockets are the client's, if it has one, and those of others, whichever was opened last.
abbrev pub Owns : List ℕ → Client → World → Type 0
Owns others c w = HasBeside others c.socket w.sockets

-- What an operation that ends with a new socket promises: the client owns what it has, and has a
-- socket just when no error was returned.
pub record IsOpened (others : List ℕ) (d : Done) : Type 0 where
  pub owns : Owns others d.client d.world
  pub has : ((d.ok ≡ true) × (d.client.socket ≢ none)) ⊎ ((d.ok ≡ false) × (d.client.socket ≡ none))

close_socket-ok :
    (zmq : Zmq) (c : Client) (w : World) → zmq.close ≡ true → (close_socket zmq c w).ok ≡ true
unfolding close_socket
close_socket-ok zmq c w closes = ground arith

pub ==_refl : (n : ℕ) → (n == n) ≡ true
==_refl n = ground arith

some-ne : {n : ℕ} → some n ≢ none
some-ne e = cc

open_socket-IsOpened :
    (zmq : Zmq) (others : List ℕ) (c : Client) (w : World) (r : Bytes)
    → zmq.random ≡ some r
    → zmq.close ≡ true
    → c.socket ≡ none
    → w.sockets ≡ others
    → IsOpened others (open_socket zmq c w)
unfolding open_socket
open_socket-IsOpened zmq others c w r rand closes free e = elim (Bool-cases zmq.new_socket) [
  | inr f ↦
      rw (open_socket, f)
        (record {
          owns = subst (λ s. HasBeside others s w.sockets) (sym free) e;
          has = inr (refl, free);
        })
  | inl t ↦ elim (Bool-cases (all_taken zmq.accepts (settings c r))) [
    | inl a ↦
        rw (open_socket, t, rand, a)
          (record { owns = (mem-cons_self, rw (==_refl w.next) e); has = inl (refl, some-ne) })
    | inr a ↦
        rw (open_socket, t, rand, a, closes)
          (record { owns = rw (free, ==_refl w.next) e; has = inr (refl, free) })
  ]
]

close_socket-closed :
    (zmq : Zmq) (others : List ℕ) (c : Client) (w : World)
    → zmq.close ≡ true
    → Owns others c w
    → ((close_socket zmq c w).client.socket ≡ none)
      × ((close_socket zmq c w).world.sockets ≡ others)
unfolding close_socket
close_socket-closed zmq others c w closes e = elim (Option-cases c.socket) [
  | inl n ↦ rw (close_socket, n) (n, subst (λ s. HasBeside others s w.sockets) n e)
  | inr (id, s) ↦
      rw (close_socket, s, closes) (refl, (subst (λ s. HasBeside others s w.sockets) s e).1)
]

-- A client whose socket is open, or that has none, is left by a reconnect with the one socket it
-- opened beside those of others, or with none and an error, whichever of its calls fails, as long as
-- the random bytes are there and sockets can be closed.
pub reconnect-IsOpened :
    (zmq : Zmq) (others : List ℕ) (c : Client) (w : World) (r : Bytes)
    → zmq.random ≡ some r
    → zmq.close ≡ true
    → Owns others c w
    → IsOpened others (reconnect zmq c w)
unfolding reconnect
reconnect-IsOpened zmq others c w r rand closes e =
    let (free, left) = close_socket-closed zmq others c w closes e in
    let closed = close_socket zmq c w in
    rw (reconnect, close_socket-ok zmq c w closes)
      (open_socket-IsOpened zmq others closed.client closed.world r rand closes free left)

-- The same of a client that connects to another address.
pub connect-IsOpened :
    (net : Net) (zmq : Zmq) (conn : Connection net) (key prefix : Bytes) (others : List ℕ)
    (c : Client) (w : World) (r : Bytes)
    → zmq.random ≡ some r
    → zmq.close ≡ true
    → Owns others c w
    → IsOpened others (connect net zmq conn key prefix c w)
unfolding connect
connect-IsOpened net zmq conn key prefix others c w r rand closes e =
    let (free, left) = close_socket-closed zmq others c w closes e in
    let closed = close_socket zmq c w in
    rw (connect, close_socket-ok zmq c w closes)
      (open_socket-IsOpened zmq others _ closed.world r rand closes free left)

-- When the random bytes fail, a reconnecting client leaves the new socket open and has none: the
-- early return of `openSocket` skips the close.
pub reconnect_leaks :
    (zmq : Zmq) (others : List ℕ) (c : Client) (w : World)
    → zmq.random ≡ none
    → zmq.new_socket ≡ true
    → zmq.close ≡ true
    → Owns others c w
    → let d = reconnect zmq c w in
      (d.ok ≡ false)
      × (d.client.socket ≡ none)
      × (d.world.sockets ≡ (close_socket zmq c w).world.next ∷ others)
unfolding reconnect open_socket
reconnect_leaks zmq others c w rand opens closes e =
    let (free, left) = close_socket-closed zmq others c w closes e in
    rw (reconnect, open_socket, close_socket-ok zmq c w closes, opens, rand)
      (refl, free, ap (λ s. (close_socket zmq c w).world.next ∷ s) left)

-- A client that has been closed has no socket, and still says that it is connected, and to whom,
-- as it did before.
pub close-is_connected :
    (zmq : Zmq) (c : Client) (w : World) (key : Bytes)
    → let d = close zmq c w in
      (d.client.socket ≡ none)
      × (is_connected d.client ≡ is_connected c)
      × (is_connected_to d.client key ≡ is_connected_to c key)
      × (connected_to d.client ≡ connected_to c)
unfolding close close_socket is_connected is_connected_to connected_to
close-is_connected zmq c w key = ground arith

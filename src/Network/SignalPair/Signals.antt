-- ===== src/Network/SignalPair/Signals.antt =====
-- network/signal_pair.go: the sockets that a pair leaves open, and how it ends.
use bitmarkd_broadcast_monit.Common.{
  none_ne, suc, ◌+◌, ◌<◌, ◌≡◌, refl, sym, ap, ◌∙◌, false, ◌&&◌, none, some, List, [], ◌∷◌, ◌++◌,
  map, Bytes, bytes_eq, if◌then◌else◌, length, length-append, lt→ltb, arith, append_assoc,
  Bool-cases, inl, inr,
}
use mathlib.Core.Option.{some-injective}
use bitmarkd_broadcast_monit.Network.Client.{World}
use bitmarkd_broadcast_monit.Network.Client.Sockets.{==_refl}
use bitmarkd_broadcast_monit.Network.SignalPair.{
  SignalPair, stop_msg, chan_size, Answers, close_pair_socket, make_sender, new_signal_pair,
  Received, message, ends, receiver_turn, receiver_loop, stop_pair,
}

-- What `newSignalPair` leaves open: both ends if all calls succeed, and the sockets of before if the
-- receiver is not made or not bound. But if the sender is not made or not connected, the receiver
-- stays open, though there is no pair.
pub new_signal_pair-sockets :
    (a : Answers) (w : World)
    → let made = new_signal_pair a w in
      (made.1.sockets ≡ (
        if a.makes_receiver && a.binds
        then if a.makes_sender && a.connects
          then suc w.next ∷ w.next ∷ w.sockets
          else (w.next ∷ w.sockets)
        else w.sockets))
      × (made.0 ≡ (
          if (a.makes_receiver && a.binds) && (a.makes_sender && a.connects)
          then some (record { sender = suc w.next; receiver = w.next; channel = [] })
          else none))
unfolding new_signal_pair make_sender close_pair_socket
new_signal_pair-sockets a w = ground (arith, ==_refl w.next, ==_refl (suc w.next))

-- No message is the stop message.
abbrev pub AreOrdinary : List Bytes → Type 0
AreOrdinary [] = Unit {0}
AreOrdinary (m ∷ ms) = (bytes_eq m stop_msg ≡ false) × AreOrdinary ms

receiver_loop-ends :
    (ms : List Bytes) (rest : List Received) (p : SignalPair) (w : World)
    → AreOrdinary ms
    → length p.channel + length ms < chan_size
    → receiver_loop (map message ms ++ message stop_msg ∷ rest) p w
      ≡ ends
          (record p { channel = p.channel ++ (ms ++ stop_msg ∷ []) })
          (close_pair_socket (some p.receiver) w)
unfolding receiver_loop receiver_turn
receiver_loop-ends [] rest p w o room =
    let free = lt→ltb (length p.channel) chan_size (omega (arith, room)) in
    rw (receiver_loop, receiver_turn, free) refl
receiver_loop-ends (m ∷ ms) rest p w o room =
    let free = lt→ltb (length p.channel) chan_size (omega (arith, room)) in
    rw (receiver_loop, receiver_turn, free, o.0)
      (receiver_loop-ends ms rest (record p { channel = p.channel ++ m ∷ [] }) w o.1
          (rw (length-append p.channel (m ∷ [])) (omega (arith, room)))
        ∙ ap (λ c. ends (record p { channel = c }) (close_pair_socket (some p.receiver) w))
            (append_assoc p.channel (m ∷ []) (ms ++ stop_msg ∷ [])))

made_pair :
    (a : Answers) (w : World) (p : SignalPair)
    → (new_signal_pair a w).0 ≡ some p
    → (p ≡ record { sender = suc w.next; receiver = w.next; channel = [] })
      × ((new_signal_pair a w).1.sockets ≡ suc w.next ∷ w.next ∷ w.sockets)
made_pair a w p made =
    let (sockets, pair) = new_signal_pair-sockets a w in
    elim (Bool-cases ((a.makes_receiver && a.binds) && (a.makes_sender && a.connects))) [
      | inl t ↦ (sym (some-injective _ _ (sym (rw t at pair) ∙ made)), sockets ∙ ground arith)
      | inr f ↦ absurd (none_ne (sym (rw f at pair) ∙ made))
    ]

-- A pair that was made, and gets fewer than ten messages before it is stopped, passes them on in
-- their order and the stop message after them, and ends with both its sockets closed.
pub stop_pair-new_signal_pair :
    (a : Answers) (w : World) (p : SignalPair) (ms : List Bytes) (rest : List Received)
    → (new_signal_pair a w).0 ≡ some p
    → AreOrdinary ms
    → length ms < chan_size
    → let (sent, stopped) = stop_pair p (new_signal_pair a w).1 in
      (w' : World) × (receiver_loop (map message ms ++ message sent ∷ rest) p stopped
        ≡ ends (record p { channel = ms ++ stop_msg ∷ [] }) w')
      × (w'.sockets ≡ w.sockets)
unfolding stop_pair close_pair_socket
stop_pair-new_signal_pair a w p ms rest made o room =
    let (pair, sockets) = made_pair a w p made in
    (
      record (new_signal_pair a w).1 { sockets = w.sockets },
      rw (stop_pair, pair, sockets, ==_refl (suc w.next))
          (receiver_loop-ends ms rest
              (record { sender = suc w.next; receiver = w.next; channel = [] }) _ o
              (omega (arith, room))
            ∙ rw (==_refl w.next) refl),
      refl,
    )

-- ===== src/Network/SignalPair/Tests.antt =====
-- network/signal_pair.go with working sockets.
use bitmarkd_broadcast_monit.Common.{◌≡◌, refl, true, false, none, [], ◌∷◌}
use bitmarkd_broadcast_monit.Network.Client.{World}
use bitmarkd_broadcast_monit.Network.SignalPair.{SignalPair, Answers, new_signal_pair}
use bitmarkd_broadcast_monit.Network.SignalPair.Signals.{new_signal_pair-sockets}

abbrev working : Answers
working = record { makes_receiver = true; binds = true; makes_sender = true; connects = true }

abbrev world : World
world = record { sockets = 1 ∷ []; next = 5 }

abbrev pair : SignalPair
pair = record { sender = 6; receiver = 5; channel = [] }

-- The sender is not made: the receiver, number 5, stays open.
leak_test : (new_signal_pair (record working { makes_sender = false }) world).1.sockets ≡ 5 ∷ 1 ∷ []
unfolding new_signal_pair
leak_test = refl

new_signal_pair-sockets_example :
    let made = new_signal_pair (record working { connects = false }) world in
    (made.1.sockets ≡ 5 ∷ 1 ∷ []) × (made.0 ≡ none)
new_signal_pair-sockets_example =
    new_signal_pair-sockets (record working { connects = false }) world

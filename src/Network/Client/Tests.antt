-- ===== src/Network/Client/Tests.antt =====
-- network/client.go with sockets that take every setting.
use bitmarkd_broadcast_monit.Common.{
  ◌≡◌, refl, true, false, Option, some, List, [], ◌∷◌, ◌++◌, Bytes, codes, replicate,
}
use mathlib.Core.List.{mem-cons_self, mem-cons_of_mem}
use bitmarkd_broadcast_monit.Network.Client.{Client, World, Zmq, sub, reconnect}
use bitmarkd_broadcast_monit.Network.Client.Sockets.{IsOpened, reconnect-IsOpened}
use bitmarkd_broadcast_monit.Network.Client.Sending.{
  Item, string, byte_slices, message, all_bytes, send,
}
use bitmarkd_broadcast_monit.Network.Client.Sending.Framing.{went, prefix_frame, send-message}

abbrev pub subscriber : Client
subscriber = record {
  public_key = replicate 32 1;
  private_key = replicate 32 2;
  server_public_key = replicate 32 3;
  address = codes "tcp://127.0.0.1:2135";
  prefix = codes "bitmark";
  v6 = false;
  socket_type = sub;
  socket = some 4;
  timeout = 0;
}

-- Sockets 4 and 1 are open.
abbrev pub world : World
world = record { sockets = 4 ∷ 1 ∷ []; next = 5 }

abbrev pub working : Option Bytes → Zmq
working random = record { new_socket = true; random = random; accepts = λ s. true; close = true }

-- A socket of another client, 6, was opened after the subscriber's.
abbrev later_world : World
later_world = record { sockets = 6 ∷ 4 ∷ 1 ∷ []; next = 7 }

reconnect-IsOpened_example :
    IsOpened (6 ∷ 1 ∷ []) (reconnect (working (some (codes "id"))) subscriber later_world)
reconnect-IsOpened_example =
    reconnect-IsOpened (working (some (codes "id"))) (6 ∷ 1 ∷ []) subscriber later_world
      (codes "id") refl refl (mem-cons_of_mem 6 mem-cons_self, refl)

abbrev items : List Item
items = string (codes "B") ∷ byte_slices [] ∷ byte_slices (codes "x" ∷ codes "y" ∷ []) ∷ []

message_test :
    message (prefix_frame (codes "bitmark") ++ all_bytes items)
    ≡ (codes "bitmark", true) ∷ (codes "B", true) ∷ (codes "x", true) ∷ (codes "y", false) ∷ []
message_test = refl

send-message_example :
    send (λ n. true) subscriber items
    ≡ went (message (prefix_frame subscriber.prefix ++ all_bytes items))
send-message_example =
    send-message (λ n. true) (λ n. refl) subscriber 4 items refl refl (tt, (tt, (tt, λ e. cc)))

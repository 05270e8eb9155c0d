-- ===== src/Node/Sender/Tests.antt =====
-- nodes/node/sender.go from its start.
use bitmarkd_broadcast_monit.Common.{
  ℕ, ◌≡◌, ◌⊎◌, refl, true, Option, none, some, [], ◌∷◌, ◌++◌, codes, Bytes, inl,
}
use bitmarkd_broadcast_monit.Clock.Timer.{IsPending}
use bitmarkd_broadcast_monit.Communication.{InfoResponse, info_prefix}
use bitmarkd_broadcast_monit.Network.Client.{Client, req, fresh_client}
use bitmarkd_broadcast_monit.Node.Remote.{Remote}
use bitmarkd_broadcast_monit.Node.Remote.Requests.{Exchange, remote_info}
use bitmarkd_broadcast_monit.Node.Sender.Talking.{info_of, sender_turn, sender_turn_cases}
use bitmarkd_broadcast_monit.Node.Sender.{
  Sender, elapse, timeout, new_sender, sender_event, sender_loop,
}
use bitmarkd_broadcast_monit.Node.Sender.Asking.{sender_loop-rounds, rounds, asked}

abbrev answer : ℕ → InfoResponse
answer h = record { version = codes "1"; chain = codes "bitmark"; normal = true; height = h }

sender_loop-rounds_example :
    ((sender_loop (rounds (answer 8 ∷ answer 9 ∷ [])) new_sender).requests
      ≡ new_sender.requests ++ asked (answer 8 ∷ answer 9 ∷ []))
    × IsPending (sender_loop (rounds (answer 8 ∷ answer 9 ∷ [])) new_sender).timer
unfolding new_sender
sender_loop-rounds_example =
    sender_loop-rounds (answer 8 ∷ answer 9 ∷ []) new_sender refl (inl (refl, refl))

abbrev connected : Client
connected = record (fresh_client req [] [] 0) {
  address = codes "tcp://10.0.0.1:2130";
  socket = some 3;
}

abbrev talking : Remote
talking = record { broadcast_receiver = none; command_sender = some connected }

abbrev reads_nothing : Bytes → Option InfoResponse
reads_nothing body = none

abbrev reads_all : Bytes → Option Bytes
reads_all body = some body

-- A reply that ends after the command.
abbrev cut : Exchange
cut = record { takes = λ n. true; answer = some (info_prefix ∷ []) }

abbrev silent : Exchange
silent = record { takes = λ n. true; answer = none }

abbrev fired_sender : Sender
unfolding new_sender sender_event
fired_sender = sender_event elapse new_sender

sender_turn_cases_example :
    (sender_turn reads_nothing reads_all cut silent talking fired_sender
      ≡ some (
          sender_event
            (timeout (info_of (remote_info reads_nothing reads_all cut talking)))
            fired_sender))
    ⊎ ((sender_turn reads_nothing reads_all cut silent talking fired_sender ≡ none)
        × (((cut.answer ≡ some []) ⊎ (cut.answer ≡ some (info_prefix ∷ [])))
            ⊎ (silent.answer ≡ some [])))
sender_turn_cases_example =
    sender_turn_cases reads_nothing reads_all cut silent talking connected 3 refl refl refl
      fired_sender

-- ===== src/Node/Sender/Talking.antt =====
-- nodes/node/sender.go: a turn of the loop with the requests that it makes of the remote.
use bitmarkd_broadcast_monit.Common.{
  ℕ, true, false, Option, none, some, [], ◌∷◌, Bytes, ◌≡◌, refl, ◌⊎◌, inl, inr, if◌then◌else◌,
  is_empty_string, arith, Bool-cases, Option-cases,
}
use bitmarkd_broadcast_monit.Clock.Timer.{Timer, receive}
use bitmarkd_broadcast_monit.Communication.{
  Reply, ok, not_sent, not_received, wrong_command, invalid_arguments, not_decoded, panics, no_call,
  InfoResponse, info_prefix,
}
use bitmarkd_broadcast_monit.Communication.Crashes.{
  crashes, get_info-crashes, get_block_header-crashes,
}
use bitmarkd_broadcast_monit.Network.Client.{Client}
use bitmarkd_broadcast_monit.Node.Remote.{Remote}
use bitmarkd_broadcast_monit.Node.Remote.Requests.{Exchange, remote_info, remote_block_header}
use bitmarkd_broadcast_monit.Node.Sender.{Sender, timeout, ask, sender_event}

-- The information, or none for an error.
abbrev pub info_of : Reply InfoResponse → Option InfoResponse
info_of (ok info) = some info
info_of _ = none

module _ {H : Type 0} (unmarshal : Bytes → Option InfoResponse)
    (extract_header : Bytes → Option H) where
  -- The second request, after the first gave `info`; its error only changes the log. `none` is a
  -- crash of the program.
  after_info : Exchange → Remote → InfoResponse → Sender → Option Sender
  after_info y r info s =
      if crashes (remote_block_header unmarshal extract_header y info.height r)
      then none
      else some s

  -- The first request, and the second unless the first was an error.
  asked : Exchange → Remote → Reply InfoResponse → Sender → Timer → Option Sender
  unfolding after_info
  asked y r (ok info) s t = after_info y r info (ask (some info) s t)
  asked y r panics s t = none
  asked y r no_call s t = none
  asked y r _ s t = some (ask none s t)

  fired : Exchange → Exchange → Remote → Sender → Option Timer → Option Sender
  unfolding asked
  fired x y r s none = some s
  fired x y r s (some t) = asked y r (remote_info unmarshal extract_header x r) s t

  -- The case of the timer's channel; `x` and `y` are what the socket does during the two requests.
  unfoldable pub sender_turn : Exchange → Exchange → Remote → Sender → Option Sender
  unfolding fired
  sender_turn x y r s = if s.returned then some s else fired x y r s (receive s.timer)

  asked-cases :
      (y : Exchange) (r : Remote) (reply : Reply InfoResponse) (s : Sender) (t : Timer)
      → (asked y r reply s t ≡ some (ask (info_of reply) s t))
        ⊎ ((asked y r reply s t ≡ none)
            × ((crashes reply ≡ true)
                ⊎ ((height : ℕ) × (crashes (remote_block_header unmarshal extract_header y height r)
                      ≡ true))))
  unfolding asked after_info
  asked-cases y r (ok info) s t =
      elim (Bool-cases (crashes (remote_block_header unmarshal extract_header y info.height r))) [
        | inl crash ↦ inr (rw crash refl, inr (info.height, crash))
        | inr fine ↦ inl (rw fine refl)
      ]
  asked-cases y r panics s t = inr (refl, inl refl)
  asked-cases y r no_call s t = inr (refl, inl refl)
  asked-cases y r not_sent s t = inl refl
  asked-cases y r not_received s t = inl refl
  asked-cases y r wrong_command s t = inl refl
  asked-cases y r invalid_arguments s t = inl refl
  asked-cases y r not_decoded s t = inl refl

  module _ (x y : Exchange) (r : Remote) (c : Client) (id : ℕ) (has : r.command_sender ≡ some c)
      (a : is_empty_string c.address ≡ false) (open_socket : c.socket ≡ some id) where
    info-cut :
        crashes (remote_info unmarshal extract_header x r) ≡ true
        → (x.answer ≡ some []) ⊎ (x.answer ≡ some (info_prefix ∷ []))
    unfolding remote_info
    info-cut crash = elim (get_info-crashes x.takes x.answer c id a open_socket unmarshal) [
      | inl fine ↦ absurd (ground (arith, fine, rw has at crash))
      | inr cut ↦ cut
    ]

    header-cut :
        (height : ℕ)
        → crashes (remote_block_header unmarshal extract_header y height r) ≡ true
        → y.answer ≡ some []
    unfolding remote_block_header
    header-cut height crash =
        elim (get_block_header-crashes y.takes y.answer c id a open_socket extract_header height) [
          | inl fine ↦ absurd (ground (arith, fine, rw has at crash))
          | inr cut ↦ cut
        ]

    fired_cases :
        (s : Sender) (t : Timer)
        → (asked y r (remote_info unmarshal extract_header x r) s t
            ≡ some (ask (info_of (remote_info unmarshal extract_header x r)) s t))
          ⊎ ((asked y r (remote_info unmarshal extract_header x r) s t ≡ none)
              × (((x.answer ≡ some []) ⊎ (x.answer ≡ some (info_prefix ∷ [])))
                  ⊎ (y.answer ≡ some [])))
    fired_cases s t = elim (asked-cases y r (remote_info unmarshal extract_header x r) s t) [
      | inl fine ↦ inl fine
      | inr (crash, inl first) ↦ inr (crash, inl (info-cut first))
      | inr (crash, inr (height, second)) ↦ inr (crash, inr (header-cut height second))
    ]

    -- With a client that is connected, a turn of the loop does to the sender what its event does
    -- with the information that the node gave; or the program crashes, and then the reply to the
    -- first request ended before its second frame, or that to the second had none.
    pub sender_turn_cases :
        (s : Sender)
        → (sender_turn x y r s
            ≡ some (sender_event (timeout (info_of (remote_info unmarshal extract_header x r))) s))
          ⊎ ((sender_turn x y r s ≡ none)
              × (((x.answer ≡ some []) ⊎ (x.answer ≡ some (info_prefix ∷ [])))
                  ⊎ (y.answer ≡ some [])))
    unfolding sender_turn sender_event fired
    sender_turn_cases s = elim (Bool-cases s.returned) [
      | inl over ↦ inl (rw over refl)
      | inr runs ↦ elim (Option-cases (receive s.timer)) [
        | inl empty ↦ inl (rw (runs, empty) refl)
        | inr (t, full) ↦ simp (runs, full) (fired_cases s t)
      ]
    ]

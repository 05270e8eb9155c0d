-- ===== src/Node/Remote/Requests.antt =====
-- nodes/node/remote.go: the requests of a node's second client. What the socket does during one is
-- an argument, and so are the JSON decoder and the header decoder of communication/.
use bitmarkd_broadcast_monit.Common.{ℕ, Bool, Option, none, some, List, [], ◌∷◌, Bytes}
use bitmarkd_broadcast_monit.Network.Client.{Client}
use bitmarkd_broadcast_monit.Communication.{
  Reply, panics, InfoResponse, get_info, get_height, get_block_header,
}
use bitmarkd_broadcast_monit.Node.Remote.{Remote}

-- Which of the calls that send a frame succeed, and the frames of the reply, if they come.
pub record Exchange : Type 0 where
  pub takes : ℕ → Bool
  pub answer : Option (List Bytes)

-- A method of a client that is nil is a panic.
abbrev on_client : {A : Type 0} → (Client → Reply A) → Option Client → Reply A
on_client request none = panics
on_client request (some c) = request c

-- `Height`
unfoldable pub remote_height : Exchange → Remote → Reply ℕ
remote_height x r = on_client (get_height x.takes x.answer) r.command_sender

module _ {H : Type 0} (unmarshal : Bytes → Option InfoResponse)
    (extract_header : Bytes → Option H) where
  -- `Info`
  unfoldable pub remote_info : Exchange → Remote → Reply InfoResponse
  remote_info x r = on_client (get_info unmarshal x.takes x.answer) r.command_sender

  -- `BlockHeader`
  unfoldable pub remote_block_header : Exchange → ℕ → Remote → Reply H
  remote_block_header x height r =
      on_client (λ c. get_block_header extract_header x.takes x.answer c (height ∷ []))
        r.command_sender

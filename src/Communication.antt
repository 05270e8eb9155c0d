-- ===== src/Communication.antt =====
-- communication/: the three requests to a node, over network/client.go. `takes` and `answer` are
-- what the socket does during the request (Network.Client.Sending); the JSON decoder and the header
-- decoder are parameters.
use bitmarkd_broadcast_monit.Common.{
  ℕ, zero, suc, ◌+◌, ◌*◌, ◌/◌, ◌%◌, ◌^◌, Bool, true, false, not, Option, none, some, List, [], ◌∷◌,
  ◌++◌, length, Bytes, bytes_eq, codes, if◌then◌else◌, ltb, leb, ◌==◌, ◌||◌,
}
use bitmarkd_broadcast_monit.Network.Client.{Client}
use bitmarkd_broadcast_monit.Network.Client.Sending.{
  Item, string, byte_slice, Status, going, not_connected, send_error, panicked, nil_socket, Sent,
  send, Received, no_address, no_socket, receive_error, received, receive,
}
pub mod Replies
pub mod Crashes
pub mod Tests

-- What a request comes to. `panics` is a run-time panic, `no_call` a call of zmq4 on no socket.
pub data Reply (A : Type 0) : Type 0 where
  ok : A → Reply A
  not_sent not_received wrong_command invalid_arguments not_decoded panics no_call : Reply A

pub record InfoResponse : Type 0 where
  pub version : Bytes
  pub chain : Bytes
  pub normal : Bool
  pub height : ℕ

-- `binary.BigEndian.PutUint64`, into `n` bytes.
unfoldable pub put_uint : ℕ → ℕ → Bytes
put_uint zero v = []
put_uint (suc n) v = put_uint n (v / 256) ++ (v % 256) ∷ []

-- `binary.BigEndian.Uint64`, which reads eight bytes, and panics if there are fewer.
unfoldable pub read_uint : ℕ → Bytes → ℕ → Option ℕ
read_uint zero bytes v = some v
read_uint (suc n) [] v = none
read_uint (suc n) (b ∷ bs) v = read_uint n bs (v * 256 + b)

-- `Send` followed by `Receive`, and what is done with the frames of the reply.
abbrev pub after_send : {A : Type 0} → Status → Reply A → Reply A
after_send going r = r
after_send not_connected r = not_sent
after_send send_error r = not_sent
after_send panicked r = panics
after_send nil_socket r = no_call

abbrev pub after_receive : {A : Type 0} → Received → (List Bytes → Reply A) → Reply A
after_receive no_address decode = not_received
after_receive no_socket decode = no_call
after_receive receive_error decode = not_received
after_receive (received frames) decode = decode frames

abbrev pub exchange :
    {A : Type 0}
    → (ℕ → Bool)
    → Option (List Bytes)
    → Client
    → List Item
    → (List Bytes → Reply A)
    → Reply A
exchange takes answer c items decode =
    after_send (send takes c items).status (after_receive (receive answer c) decode)

abbrev pub info_prefix : Bytes
info_prefix = codes "I"

abbrev pub height_prefix : Bytes
height_prefix = codes "N"

abbrev pub block_prefix : Bytes
block_prefix = codes "B"

abbrev of_decoded : {A : Type 0} → Option A → Reply A
of_decoded none = not_decoded
of_decoded (some a) = ok a

unfoldable pub decode_info : (Bytes → Option InfoResponse) → List Bytes → Reply InfoResponse
decode_info unmarshal [] = panics
decode_info unmarshal (command ∷ []) =
    if bytes_eq info_prefix command then panics else wrong_command
decode_info unmarshal (command ∷ body ∷ rest) =
    if bytes_eq info_prefix command then of_decoded (unmarshal body) else wrong_command

abbrev of_height : Option ℕ → Reply ℕ
of_height none = panics
of_height (some h) = ok h

unfoldable pub decode_height : List Bytes → Reply ℕ
unfolding read_uint
decode_height [] = panics
decode_height (command ∷ []) = if bytes_eq height_prefix command then panics else wrong_command
decode_height (command ∷ body ∷ rest) =
    if bytes_eq height_prefix command then of_height (read_uint 8 body 0) else wrong_command

-- `extract_header` gives the header with its digest.
unfoldable pub decode_block : {H : Type 0} → (Bytes → Option H) → List Bytes → Reply H
decode_block extract_header [] = panics
decode_block extract_header (command ∷ []) = wrong_command
decode_block extract_header (command ∷ body ∷ []) =
    if bytes_eq block_prefix command then of_decoded (extract_header body) else wrong_command
decode_block extract_header (command ∷ body ∷ next ∷ rest) = wrong_command

-- `Get` of `info`.
unfoldable pub get_info :
    (Bytes → Option InfoResponse) → (ℕ → Bool) → Option (List Bytes) → Client → Reply InfoResponse
unfolding decode_info
get_info unmarshal takes answer c =
    exchange takes answer c (string info_prefix ∷ []) (decode_info unmarshal)

-- `Get` of `height`.
unfoldable pub get_height : (ℕ → Bool) → Option (List Bytes) → Client → Reply ℕ
unfolding decode_height
get_height takes answer c = exchange takes answer c (string height_prefix ∷ []) decode_height

-- `Get` of `block`; `args` are its arguments, each a uint64.
unfoldable pub get_block_header :
    {H : Type 0} → (Bytes → Option H) → (ℕ → Bool) → Option (List Bytes) → Client → List ℕ → Reply H
unfolding put_uint decode_block
get_block_header extract_header takes answer c [] = panics
get_block_header extract_header takes answer c (height ∷ []) =
    exchange takes answer c (string block_prefix ∷ byte_slice (put_uint 8 height) ∷ [])
      (decode_block extract_header)
get_block_header extract_header takes answer c (a ∷ b ∷ rest) = invalid_arguments

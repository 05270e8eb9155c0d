-- ===== src/Network/Client/Sending.antt =====
-- network/client.go: `Send` and `Receive`. A frame is its bytes and whether more are to come.
pub mod Framing
use bitmarkd_broadcast_monit.Common.{
  ℕ, zero, suc, ◌≡◌, ◌≢◌, refl, sym, ap, ap₂, ◌∙◌, Bool, true, false, not, Option, none, some, List,
  [], ◌∷◌, ◌++◌, map, length, Bytes, is_empty_string, if◌then◌else◌, append_assoc, append-nil,
  arith, inl, inr, Bool-cases,
}
use bitmarkd_broadcast_monit.Network.Client.{Client}

-- The arguments that `Send` tells apart by their type.
pub data Item : Type 0 where
  string byte_slice : Bytes → Item
  byte_slices : List Bytes → Item
  unsupported : Item

-- `going`: no error so far; `panicked`: `logger.Panicf`; `nil_socket`: zmq4 is called on no socket.
pub data Status : Type 0 where
  going not_connected send_error panicked nil_socket : Status

pub record Sent : Type 0 where
  pub frames : List (Bytes × Bool)
  pub status : Status

abbrev pub stopped : Status → Sent → Sent
stopped status s = record s { status = status }

-- One call of the socket's `Send` or `SendBytes`. `takes n` says whether the call with number `n`
-- succeeds.
abbrev send_going : (ℕ → Bool) → Bytes → Bool → Sent → Status → Sent
send_going takes bytes more s going =
    if takes (length s.frames)
    then record { frames = s.frames ++ (bytes, more) ∷ []; status = going }
    else stopped send_error s
send_going takes bytes more s not_connected = s
send_going takes bytes more s send_error = s
send_going takes bytes more s panicked = s
send_going takes bytes more s nil_socket = s

unfoldable pub send_frame : (ℕ → Bool) → Bytes → Bool → Sent → Sent
send_frame takes bytes more s = send_going takes bytes more s s.status

abbrev panic_going : Sent → Status → Sent
panic_going s going = stopped panicked s
panic_going s not_connected = s
panic_going s send_error = s
panic_going s panicked = s
panic_going s nil_socket = s

unfoldable pub send_more : (ℕ → Bool) → List Bytes → Sent → Sent
send_more takes [] s = s
send_more takes (sub ∷ subs) s = send_more takes subs (send_frame takes sub true s)

-- An item that is not the last.
unfoldable pub send_item : (ℕ → Bool) → Item → Sent → Sent
send_item takes (string bytes) s = send_frame takes bytes true s
send_item takes (byte_slice bytes) s = send_frame takes bytes true s
send_item takes (byte_slices subs) s = send_more takes subs s
send_item takes unsupported s = panic_going s s.status

unfoldable pub send_slices : (ℕ → Bool) → List Bytes → Sent → Sent
send_slices takes [] s = panic_going s s.status
send_slices takes (last ∷ []) s = send_frame takes last false s
send_slices takes (sub ∷ next ∷ subs) s =
    send_slices takes (next ∷ subs) (send_frame takes sub true s)

unfoldable pub send_final : (ℕ → Bool) → Item → Sent → Sent
unfolding send_frame
send_final takes (string bytes) s = send_frame takes bytes false s
send_final takes (byte_slice bytes) s = send_frame takes bytes false s
send_final takes (byte_slices subs) s = send_slices takes subs s
send_final takes unsupported s = panic_going s s.status

unfoldable pub send_items : (ℕ → Bool) → List Item → Sent → Sent
send_items takes [] s = panic_going s s.status
send_items takes (final ∷ []) s = send_final takes final s
send_items takes (item ∷ next ∷ rest) s = send_items takes (next ∷ rest) (send_item takes item s)

abbrev pub with_prefix : (ℕ → Bool) → Bytes → Sent
with_prefix takes [] = record { frames = []; status = going }
with_prefix takes (c ∷ cs) = send_frame takes (c ∷ cs) true (record { frames = []; status = going })

-- Without a socket, the first call that would be made is one on no socket.
abbrev nil_status : Status → Status
nil_status send_error = nil_socket
nil_status going = going
nil_status not_connected = not_connected
nil_status panicked = panicked
nil_status nil_socket = nil_socket

abbrev on_nil : Sent → Sent
on_nil s = record s { status = nil_status s.status }

abbrev send_on : (ℕ → Bool) → Client → List Item → Option ℕ → Sent
send_on takes c items none =
    on_nil (send_items (λ n. false) items (with_prefix (λ n. false) c.prefix))
send_on takes c items (some id) = send_items takes items (with_prefix takes c.prefix)

unfoldable pub send : (ℕ → Bool) → Client → List Item → Sent
unfolding send_items
send takes c [] =
    if is_empty_string c.address
    then record { frames = []; status = not_connected }
    else record { frames = []; status = panicked }
send takes c (item ∷ items) =
    if is_empty_string c.address
    then record { frames = []; status = not_connected }
    else send_on takes c (item ∷ items) c.socket

-- What `Send` is to put on the wire: the bytes of its items.
abbrev pub bytes_of : Item → List Bytes
bytes_of (string bytes) = bytes ∷ []
bytes_of (byte_slice bytes) = bytes ∷ []
bytes_of (byte_slices subs) = subs
bytes_of unsupported = []

abbrev pub all_bytes : List Item → List Bytes
all_bytes [] = []
all_bytes (item ∷ items) = bytes_of item ++ all_bytes items

-- One message: all frames but the last say that more are to come.
abbrev pub message : List Bytes → List (Bytes × Bool)
message [] = []
message (last ∷ []) = (last, false) ∷ []
message (b ∷ c ∷ bs) = (b, true) ∷ message (c ∷ bs)

abbrev pub more : List Bytes → List (Bytes × Bool)
more = map (λ b. (b, true))

abbrev pub IsSupported : Item → Type 0
IsSupported (string bytes) = Unit {0}
IsSupported (byte_slice bytes) = Unit {0}
IsSupported (byte_slices subs) = Unit {0}
IsSupported unsupported = ⊥

-- The last item has a frame of its own.
abbrev pub AreSendable : List Item → Type 0
AreSendable [] = ⊥
AreSendable (final ∷ []) = IsSupported final × (bytes_of final ≢ [])
AreSendable (item ∷ next ∷ rest) = IsSupported item × AreSendable (next ∷ rest)

-- `Receive`: what the socket answers, unless there is no address.
pub data Received : Type 0 where
  no_address no_socket receive_error : Received
  received : List Bytes → Received

abbrev answer_of : Option (List Bytes) → Received
answer_of none = receive_error
answer_of (some frames) = received frames

unfoldable pub receive : Option (List Bytes) → Client → Received
receive answer c =
    if is_empty_string c.address
    then no_address
    else elim c.socket [ none ↦ no_socket | some id ↦ answer_of answer ]

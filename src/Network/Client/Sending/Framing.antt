-- ===== src/Network/Client/Sending/Framing.antt =====
-- network/client.go: what `Send` puts on the wire when every call of the socket succeeds.
use bitmarkd_broadcast_monit.Common.{
  ℕ, ◌≡◌, ◌≢◌, refl, sym, ap, ◌∙◌, Bool, true, false, some, List, [], ◌∷◌, ◌++◌, length, Bytes,
  is_empty_string, append_assoc, append-nil,
}
use bitmarkd_broadcast_monit.Network.Client.{Client}
use bitmarkd_broadcast_monit.Network.Client.Sending.{
  Item, string, byte_slice, byte_slices, unsupported, going, Sent, send_frame, send_more, send_item,
  send_slices, send_final, send_items, send, with_prefix, bytes_of, all_bytes, message, more,
  IsSupported, AreSendable,
}

abbrev pub went : List (Bytes × Bool) → Sent
went frames = record { frames = frames; status = going }

-- The frame of the prefix, which is sent unless it is empty.
abbrev pub prefix_frame : Bytes → List Bytes
prefix_frame [] = []
prefix_frame (c ∷ cs) = (c ∷ cs) ∷ []

message_append : (xs ys : List Bytes) → ys ≢ [] → message (xs ++ ys) ≡ more xs ++ message ys
message_append [] ys h = refl
message_append (x ∷ []) [] h = absurd (h refl)
message_append (x ∷ []) (y ∷ ys) h = refl
message_append (x ∷ x' ∷ xs) ys h = ap (λ m. (x, true) ∷ m) (message_append (x' ∷ xs) ys h)

all_bytes_nonempty : (items : List Item) → AreSendable items → all_bytes items ≢ []
all_bytes_nonempty [] h e = elim h [ ]
all_bytes_nonempty (final ∷ []) h e = h.1 (sym (append-nil (bytes_of final)) ∙ e)
all_bytes_nonempty (string b ∷ next ∷ rest) h e = cc
all_bytes_nonempty (byte_slice b ∷ next ∷ rest) h e = cc
all_bytes_nonempty (byte_slices [] ∷ next ∷ rest) h e = all_bytes_nonempty (next ∷ rest) h.1 e
all_bytes_nonempty (byte_slices (b ∷ bs) ∷ next ∷ rest) h e = cc
all_bytes_nonempty (unsupported ∷ next ∷ rest) h e = elim h.0 [ ]

module _ (takes : ℕ → Bool) (all : (n : ℕ) → takes n ≡ true) where
  send_frame-went :
      (bytes : Bytes) (m : Bool) (fs : List (Bytes × Bool))
      → send_frame takes bytes m (went fs) ≡ went (fs ++ (bytes, m) ∷ [])
  unfolding send_frame
  send_frame-went bytes m fs = rw (send_frame, all (length fs)) refl

  send_more-went :
      (subs : List Bytes) (fs : List (Bytes × Bool))
      → send_more takes subs (went fs) ≡ went (fs ++ more subs)
  unfolding send_more
  send_more-went [] fs = ap went (sym (append-nil fs))
  send_more-went (b ∷ bs) fs =
      rw (send_more, send_frame-went b true fs)
        (send_more-went bs (fs ++ (b, true) ∷ [])
          ∙ ap went (append_assoc fs ((b, true) ∷ []) (more bs)))

  send_item-went :
      (item : Item) (fs : List (Bytes × Bool))
      → IsSupported item
      → send_item takes item (went fs) ≡ went (fs ++ more (bytes_of item))
  unfolding send_item
  send_item-went (string b) fs h = send_frame-went b true fs
  send_item-went (byte_slice b) fs h = send_frame-went b true fs
  send_item-went (byte_slices bs) fs h = send_more-went bs fs
  send_item-went unsupported fs h = elim h [ ]

  send_slices-went :
      (subs : List Bytes) (fs : List (Bytes × Bool))
      → subs ≢ []
      → send_slices takes subs (went fs) ≡ went (fs ++ message subs)
  unfolding send_slices
  send_slices-went [] fs h = absurd (h refl)
  send_slices-went (b ∷ []) fs h = send_frame-went b false fs
  send_slices-went (b ∷ c ∷ bs) fs h =
      rw (send_slices, send_frame-went b true fs)
        (send_slices-went (c ∷ bs) (fs ++ (b, true) ∷ []) (λ e. cc)
          ∙ ap went (append_assoc fs ((b, true) ∷ []) (message (c ∷ bs))))

  send_final-went :
      (item : Item) (fs : List (Bytes × Bool))
      → IsSupported item
      → bytes_of item ≢ []
      → send_final takes item (went fs) ≡ went (fs ++ message (bytes_of item))
  unfolding send_final
  send_final-went (string b) fs h n = send_frame-went b false fs
  send_final-went (byte_slice b) fs h n = send_frame-went b false fs
  send_final-went (byte_slices bs) fs h n = send_slices-went bs fs n
  send_final-went unsupported fs h n = elim h [ ]

  send_items-went :
      (items : List Item) (fs : List (Bytes × Bool))
      → AreSendable items
      → send_items takes items (went fs) ≡ went (fs ++ message (all_bytes items))
  unfolding send_items
  send_items-went [] fs h = elim h [ ]
  send_items-went (final ∷ []) fs h =
      send_final-went final fs h.0 h.1
      ∙ ap (λ b. went (fs ++ message b)) (sym (append-nil (bytes_of final)))
  send_items-went (item ∷ next ∷ rest) fs h =
      rw (send_items, send_item-went item fs h.0)
        (send_items-went (next ∷ rest) (fs ++ more (bytes_of item)) h.1
          ∙ ap went (
              append_assoc fs (more (bytes_of item)) (message (all_bytes (next ∷ rest)))
              ∙ ap (λ m. fs ++ m)
                  (sym (
                    message_append (bytes_of item) (all_bytes (next ∷ rest))
                      (all_bytes_nonempty (next ∷ rest) h.1)))))

  send_items-with_prefix :
      (p : Bytes) (items : List Item)
      → AreSendable items
      → send_items takes items (with_prefix takes p)
        ≡ went (message (prefix_frame p ++ all_bytes items))
  send_items-with_prefix [] items h = send_items-went items [] h
  send_items-with_prefix (c ∷ cs) items h =
      ap (send_items takes items) (send_frame-went (c ∷ cs) true [])
      ∙ send_items-went items ((c ∷ cs, true) ∷ []) h
      ∙ ap went
          (sym (message_append ((c ∷ cs) ∷ []) (all_bytes items) (all_bytes_nonempty items h)))

  -- If each call of the socket succeeds, and the client has an address and a socket, `Send` turns
  -- its arguments into one message: the prefix, unless it is empty, then their bytes in order, each
  -- frame but the last marked as followed by more. There is at least one argument, each is a
  -- string, a byte slice or a list of byte slices, and the last is not an empty list.
  pub send-message :
      (c : Client) (id : ℕ) (items : List Item)
      → is_empty_string c.address ≡ false
      → c.socket ≡ some id
      → AreSendable items
      → send takes c items ≡ went (message (prefix_frame c.prefix ++ all_bytes items))
  unfolding send send_items
  send-message c id [] a s h = elim h [ ]
  send-message c id (item ∷ items) a s h =
      rw (send, a, s) (send_items-with_prefix c.prefix (item ∷ items) h)

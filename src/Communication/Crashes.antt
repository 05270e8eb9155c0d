-- ===== src/Communication/Crashes.antt =====
-- communication/: the replies on which a request panics.
use bitmarkd_broadcast_monit.Common.{
  ℕ, ◌≡◌, refl, sym, ap, ◌∙◌, Bool, true, false, Option, none, some, List, [], ◌∷◌, Bytes, bytes_eq,
  eq_of_bytes_eq, is_empty_string, ◌⊎◌, inl, inr, arith, Bool-cases,
}
use bitmarkd_broadcast_monit.Network.Client.{Client}
use bitmarkd_broadcast_monit.Network.Client.Sending.{
  Item, string, byte_slice, Status, going, not_connected, send_error, panicked, nil_socket, Sent,
  send, send_frame, send_items, send_final, send_item, with_prefix, receive,
}
use bitmarkd_broadcast_monit.Communication.{
  Reply, panics, no_call, InfoResponse, put_uint, after_send, after_receive, exchange, info_prefix,
  block_prefix, decode_info, decode_block, get_info, get_block_header,
}

-- The program does not go on after the request.
abbrev pub crashes : {A : Type 0} → Reply A → Bool
crashes panics = true
crashes no_call = true
crashes _ = false

abbrev goes_on : Status → Bool
goes_on panicked = false
goes_on nil_socket = false
goes_on _ = true

send_frame-goes_on :
    (takes : ℕ → Bool) (bytes : Bytes) (more : Bool) (s : Sent)
    → goes_on s.status ≡ true
    → goes_on (send_frame takes bytes more s).status ≡ true
unfolding send_frame
send_frame-goes_on takes bytes more s h = ground arith

with_prefix-goes_on :
    (takes : ℕ → Bool) (prefix : Bytes) → goes_on (with_prefix takes prefix).status ≡ true
with_prefix-goes_on takes [] = refl
with_prefix-goes_on takes (c ∷ cs) = send_frame-goes_on takes (c ∷ cs) true _ refl

after_send-crashes :
    {A : Type 0} (status : Status) (r : Reply A)
    → goes_on status ≡ true
    → (crashes (after_send status r) ≡ false) ⊎ (crashes r ≡ true)
after_send-crashes going r h = ground arith
after_send-crashes not_connected r h = inl refl
after_send-crashes send_error r h = inl refl
after_send-crashes panicked r h = absurd (ground (arith, h))
after_send-crashes nil_socket r h = absurd (ground (arith, h))

receive-crashes :
    {A : Type 0} (answer : Option (List Bytes)) (c : Client) (id : ℕ)
    (decode : List Bytes → Reply A)
    → is_empty_string c.address ≡ false
    → c.socket ≡ some id
    → crashes (after_receive (receive answer c) decode) ≡ true
    → (frames : List Bytes) × (answer ≡ some frames) × (crashes (decode frames) ≡ true)
unfolding receive
receive-crashes none c id decode a s h = absurd (ground (arith, h, rw (a, s) at h))
receive-crashes (some frames) c id decode a s h = (frames, refl, rw (a, s) at h)

decode_info-crashes :
    (unmarshal : Bytes → Option InfoResponse) (frames : List Bytes)
    → crashes (decode_info unmarshal frames) ≡ true
    → (frames ≡ []) ⊎ (frames ≡ info_prefix ∷ [])
unfolding decode_info
decode_info-crashes unmarshal [] h = inl refl
decode_info-crashes unmarshal (command ∷ []) h = elim (Bool-cases (bytes_eq info_prefix command)) [
  | inl y ↦ inr (ap (λ x. x ∷ []) (sym (eq_of_bytes_eq info_prefix command y)))
  | inr n ↦ absurd (ground (arith, h, n))
]
decode_info-crashes unmarshal (command ∷ body ∷ rest) h = absurd (ground (arith, h))

decode_block-crashes :
    {H : Type 0} (extract_header : Bytes → Option H) (frames : List Bytes)
    → crashes (decode_block extract_header frames) ≡ true
    → frames ≡ []
unfolding decode_block
decode_block-crashes extract_header [] h = refl
decode_block-crashes extract_header (command ∷ []) h = absurd (ground (arith, h))
decode_block-crashes extract_header (command ∷ body ∷ []) h = absurd (ground (arith, h))
decode_block-crashes extract_header (command ∷ body ∷ next ∷ rest) h = absurd (ground (arith, h))

module _ (takes : ℕ → Bool) (answer : Option (List Bytes)) (c : Client) (id : ℕ)
    (a : is_empty_string c.address ≡ false) (s : c.socket ≡ some id) where
  send_string-goes_on : (bytes : Bytes) → goes_on (send takes c (string bytes ∷ [])).status ≡ true
  unfolding send send_items send_final
  send_string-goes_on bytes =
      rw (send, a, s) (send_frame-goes_on takes bytes false _ (with_prefix-goes_on takes c.prefix))

  send_pair-goes_on :
      (first second : Bytes)
      → goes_on (send takes c (string first ∷ byte_slice second ∷ [])).status ≡ true
  unfolding send send_items send_item send_final
  send_pair-goes_on first second =
      rw (send, a, s)
        (send_frame-goes_on takes second false _
          (send_frame-goes_on takes first true _ (with_prefix-goes_on takes c.prefix)))

  -- A connected client goes on, unless the frames of the reply make the decoder panic.
  exchange-crashes :
      {A : Type 0} (items : List Item) (decode : List Bytes → Reply A)
      → goes_on (send takes c items).status ≡ true
      → (crashes (exchange takes answer c items decode) ≡ false)
        ⊎ ((frames : List Bytes) × (answer ≡ some frames) × (crashes (decode frames) ≡ true))
  exchange-crashes items decode h = elim (after_send-crashes (send takes c items).status _ h) [
    | inl fine ↦ inl fine
    | inr crash ↦ inr (receive-crashes answer c id decode a s crash)
  ]

  -- A request for the information crashes only on a reply that ends before its second frame.
  pub get_info-crashes :
      (unmarshal : Bytes → Option InfoResponse)
      → (crashes (get_info unmarshal takes answer c) ≡ false)
        ⊎ ((answer ≡ some []) ⊎ (answer ≡ some (info_prefix ∷ [])))
  unfolding get_info
  get_info-crashes unmarshal =
      elim (exchange-crashes (string info_prefix ∷ []) (decode_info unmarshal)
        (send_string-goes_on info_prefix)) [
          | inl fine ↦ inl fine
          | inr (frames, e, crash) ↦ elim (decode_info-crashes unmarshal frames crash) [
            | inl empty ↦ inr (inl (e ∙ ap some empty))
            | inr cut ↦ inr (inr (e ∙ ap some cut))
          ]
        ]

  -- One for the header of a block, with its height, crashes only on a reply without a frame.
  pub get_block_header-crashes :
      {H : Type 0} (extract_header : Bytes → Option H) (height : ℕ)
      → (crashes (get_block_header extract_header takes answer c (height ∷ [])) ≡ false)
        ⊎ (answer ≡ some [])
  unfolding get_block_header
  get_block_header-crashes extract_header height =
      elim (exchange-crashes (string block_prefix ∷ byte_slice (put_uint 8 height) ∷ [])
        (decode_block extract_header) (send_pair-goes_on block_prefix (put_uint 8 height))) [
          | inl fine ↦ inl fine
          | inr (frames, e, crash) ↦
              inr (e ∙ ap some (decode_block-crashes extract_header frames crash))
        ]

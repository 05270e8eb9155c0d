-- ===== src/Communication/Replies.antt =====
-- communication/: a reply that a node encodes is decoded, on a connected client.
use bitmarkd_broadcast_monit.Common.{
  ℕ, zero, suc, ◌+◌, ◌*◌, ◌/◌, ◌%◌, ◌^◌, ◌<◌, ◌≡◌, refl, ap, ◌∙◌, Bool, true, false, Option, some,
  List, [], ◌∷◌, ◌++◌, Bytes, is_empty_string, arith, length, length-append,
}
use mathlib.Core.Option.{some-injective}
use native.Mathlib.Nat.{pow-succ'}
use bitmarkd_broadcast_monit.Network.Client.{Client}
use bitmarkd_broadcast_monit.Network.Client.Sending.{send, receive, string, byte_slice, message}
use bitmarkd_broadcast_monit.Network.Client.Sending.Framing.{went, prefix_frame, send-message}
use bitmarkd_broadcast_monit.Communication.{
  ok, put_uint, read_uint, height_prefix, block_prefix, decode_height, decode_block, get_height,
  get_block_header,
}

length-put_uint : (n v : ℕ) → length (put_uint n v) ≡ n
unfolding put_uint
length-put_uint zero v = refl
length-put_uint (suc n) v =
    length-append (put_uint n (v / 256)) ((v % 256) ∷ [])
    ∙ ap (λ l. l + 1) (length-put_uint n (v / 256))
    ∙ omega arith

read_uint-snoc :
    (n b v w : ℕ) (bs : Bytes)
    → length bs ≡ n
    → read_uint n bs w ≡ some v
    → read_uint (suc n) (bs ++ b ∷ []) w ≡ some (v * 256 + b)
unfolding read_uint
read_uint-snoc zero b v w [] l e = ap (λ x. some (x * 256 + b)) (some-injective w v e)
read_uint-snoc zero b v w (c ∷ cs) l e = ground arith
read_uint-snoc (suc n) b v w [] l e = ground arith
read_uint-snoc (suc n) b v w (c ∷ cs) l e =
    read_uint-snoc n b v (w * 256 + c) cs (omega (arith, l)) e

-- A number that fits in `n` bytes is read back from them.
pub read_uint-put_uint : (n v : ℕ) → v < 256 ^ n → read_uint n (put_uint n v) 0 ≡ some v
unfolding read_uint put_uint
read_uint-put_uint zero v h = ap some (omega (arith, h))
read_uint-put_uint (suc n) v h =
    let below : v / 256 < 256 ^ n = omega (arith, h, pow-succ' 256 n) in
    read_uint-snoc n (v % 256) (v / 256) 0 (put_uint n (v / 256)) (length-put_uint n (v / 256))
      (read_uint-put_uint n (v / 256) below)
    ∙ ap some (omega arith)

module _ (takes : ℕ → Bool) (all : (n : ℕ) → takes n ≡ true) where
  -- On a connected client whose socket sends all frames, a height of 64 bits that the node encodes
  -- in its reply is the result of the request.
  pub get_height-put_uint :
      (c : Client) (id height : ℕ) (more : List Bytes)
      → is_empty_string c.address ≡ false
      → c.socket ≡ some id
      → height < 2 ^ 64
      → get_height takes (some (height_prefix ∷ put_uint 8 height ∷ more)) c ≡ ok height
  unfolding get_height decode_height receive
  get_height-put_uint c id height more a s h =
      rw
        (
          get_height,
          send-message takes all c id (string height_prefix ∷ []) a s (tt, λ e. cc),
          receive,
          a,
          s,
          decode_height,
          read_uint-put_uint 8 height h,
        )
        refl

  -- A request for a block header that has one argument sends the message of its command and of the
  -- eight bytes of the height, and gives the header that the decoder makes of a reply of two
  -- frames.
  pub get_block_header-reply :
      {H : Type 0} (extract_header : Bytes → Option H) (header : H) (body : Bytes) (c : Client)
      (id height : ℕ)
      → is_empty_string c.address ≡ false
      → c.socket ≡ some id
      → extract_header body ≡ some header
      → (get_block_header extract_header takes (some (block_prefix ∷ body ∷ [])) c (height ∷ [])
          ≡ ok header)
        × (send takes c (string block_prefix ∷ byte_slice (put_uint 8 height) ∷ [])
            ≡ went (message (prefix_frame c.prefix ++ block_prefix ∷ put_uint 8 height ∷ [])))
  unfolding get_block_header decode_block receive
  get_block_header-reply extract_header header body c id height a s e =
      let sends =
        send-message takes all c id (string block_prefix ∷ byte_slice (put_uint 8 height) ∷ []) a s
          (tt, (tt, λ e. cc)) in
      (rw (get_block_header, sends, receive, a, s, decode_block, e) refl, sends)

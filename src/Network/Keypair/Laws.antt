-- ===== src/Network/Keypair/Laws.antt =====
-- network/keypair.go: keys that are written and read again, and what a reader accepts.
use bitmarkd_broadcast_monit.Common.{
  ℕ, ◌≡◌, ◌≢◌, refl, Bool, true, false, Option, none, some, ◌++◌, length, Bytes, Bool-cases, inl,
  inr, ◌⊎◌, arith, has_prefix,
}
use bitmarkd_broadcast_monit.Common.Hex.{hex_encode, hex_decode, AreBytes, hex_decode-hex_encode}
use bitmarkd_broadcast_monit.Network.Keypair.{
  tagged_public, tagged_private, Result, failed, ok, ParsedKey, check_key, drop, parse_key,
  read_public_key, read_private_key, KeyError, invalid_public_key_file, invalid_private_key_file,
  public_length, private_length,
}

check_key-ok :
    (h : Option Bytes) (n : ℕ) (e : KeyError) (p : Bool) (k : ParsedKey)
    → check_key h n e p ≡ ok k
    → (length k.bytes ≡ n) × (k.private ≡ p)
check_key-ok none n e p k r = ground arith
check_key-ok (some h) n e p k r = ground arith

failed-ne : (k : ParsedKey) → failed invalid_public_key_file ≢ ok k
failed-ne k e = cc

pub Result-cases :
    {A : Type 0} (r : Result A) → ((e : KeyError) × (r ≡ failed e)) ⊎ ((a : A) × (r ≡ ok a))
Result-cases (failed e) = inl (e, refl)
Result-cases (ok a) = inr (a, refl)

module _ (trim_space : Bytes → Bytes) where
  -- A key of 32 bytes that is written after the public tag is read back by the reader of public
  -- keys, and refused by the other, and the other way round, where the text has no spaces to trim.
  pub read_key-tagged :
      (key : Bytes)
      → AreBytes key
      → length key ≡ 32
      → trim_space (tagged_public ++ hex_encode key) ≡ tagged_public ++ hex_encode key
      → trim_space (tagged_private ++ hex_encode key) ≡ tagged_private ++ hex_encode key
      → (read_public_key trim_space (tagged_public ++ hex_encode key) ≡ ok key)
        × (read_private_key trim_space (tagged_private ++ hex_encode key) ≡ ok key)
        × (read_private_key trim_space (tagged_public ++ hex_encode key)
            ≡ failed invalid_private_key_file)
        × (read_public_key trim_space (tagged_private ++ hex_encode key)
            ≡ failed invalid_public_key_file)
  unfolding read_public_key read_private_key parse_key
  read_key-tagged key v n t₁ t₂ = (
    rw (t₁, hex_decode-hex_encode key v, n) refl,
    rw (t₂, hex_decode-hex_encode key v, n) refl,
    rw (t₁, hex_decode-hex_encode key v, n) refl,
    rw (t₂, hex_decode-hex_encode key v, n) refl,
  )

  parse_key-length :
      (text : Bytes) (k : ParsedKey) → parse_key trim_space text ≡ ok k → length k.bytes ≡ 32
  unfolding parse_key
  parse_key-length text k r =
      let s = trim_space text in
      elim (Bool-cases (has_prefix s tagged_private)) [
        | inl e ↦
            (check_key-ok (hex_decode (drop (length tagged_private) s)) private_length
              invalid_private_key_file true k (rw (parse_key, e) at r)).0
        | inr e ↦ elim (Bool-cases (has_prefix s tagged_public)) [
          | inl f ↦
              (check_key-ok (hex_decode (drop (length tagged_public) s)) public_length
                invalid_public_key_file false k (rw (parse_key, e, f) at r)).0
          | inr f ↦ absurd (failed-ne k (rw (parse_key, e, f) at r))
        ]
      ]

  -- Whatever the text, a public key that is read has 32 bytes, and the reader of private keys
  -- refuses the text.
  pub read_public_key-ok :
      (text key : Bytes)
      → read_public_key trim_space text ≡ ok key
      → (length key ≡ public_length)
        × (read_private_key trim_space text ≡ failed invalid_private_key_file)
  unfolding read_public_key read_private_key
  read_public_key-ok text key r = elim (Result-cases (parse_key trim_space text)) [
    | inl (e, f) ↦ ground arith
    | inr (k, f) ↦ ground (arith, parse_key-length text k f)
  ]

  -- Whatever the text, a private key that is read has 32 bytes.
  pub read_private_key-ok :
      (text key : Bytes) → read_private_key trim_space text ≡ ok key → length key ≡ private_length
  unfolding read_private_key
  read_private_key-ok text key r = elim (Result-cases (parse_key trim_space text)) [
    | inl (e, f) ↦ ground arith
    | inr (k, f) ↦ ground (arith, parse_key-length text k f)
  ]

-- ===== src/Node/Keys/Clients.antt =====
-- nodes/node/node.go and network/client.go: keys that were parsed are keys that a client takes.
use bitmarkd_broadcast_monit.Common.{
  none_ne, ℕ, ◌≡◌, ◌≢◌, refl, sym, ◌∙◌, ap, true, false, Option, none, some, length, Bytes,
  bytes_eq, bytes_eq_refl, Bool-cases, Option-cases, inl, inr, arith,
}
use mathlib.Core.Option.{some-injective}
use bitmarkd_broadcast_monit.Common.Hex.{hex_decode}
use bitmarkd_broadcast_monit.Configuration.{Keys}
use bitmarkd_broadcast_monit.Network.Keypair.{read_public_key, read_private_key}
use bitmarkd_broadcast_monit.Network.Keypair.Laws.{
  Result-cases, read_public_key-ok, read_private_key-ok,
}
use bitmarkd_broadcast_monit.Network.Client.{Client, SocketType, new_client}
use bitmarkd_broadcast_monit.Node.Keys.{NodeKeys, with_remote, parse_keys}

bytes_eq-differ : (a b : Bytes) → bytes_eq a b ≡ false → b ≢ a
bytes_eq-differ a b h e = let same : bytes_eq a b ≡ true = rw e (bytes_eq_refl a) in ground arith

with_remote-some :
    (public_key private_key : Bytes) (remote : Option Bytes) (k : NodeKeys)
    → with_remote public_key private_key remote ≡ some k
    → (k.public ≡ public_key) × (k.private ≡ private_key) × (k.remote_public ≢ k.public)
with_remote-some public_key private_key none k e = absurd (none_ne e)
with_remote-some public_key private_key (some r) k e = elim (Bool-cases (bytes_eq public_key r)) [
  | inl same ↦ absurd (none_ne (rw same at e))
  | inr other ↦
      let u : k ≡ record { private = private_key; public = public_key; remote_public = r } =
        sym (some-injective _ _ (rw other at e)) in
      rw u (refl, refl, bytes_eq-differ public_key r other)
]

new_client-made :
    (socket_type : SocketType) (private public : Bytes) (timeout : ℕ)
    → length private ≡ 32
    → length public ≡ 32
    → (c : Client) × (new_client socket_type private public timeout ≡ some c)
unfolding new_client
new_client-made socket_type private public timeout m l =
    elim (Option-cases (new_client socket_type private public timeout)) [
      | inl n ↦ absurd (none_ne (sym (rw (new_client, l, m) at n)))
      | inr made ↦ made
    ]

-- Keys that are parsed are of the lengths that `NewClient` asks for, so that it makes a client of
-- them; and the node's key is not the monitor's own.
pub parse_keys-new_client :
    (trim_space : Bytes → Bytes) (keys : Keys) (remote_public_key : Bytes) (k : NodeKeys)
    (socket_type : SocketType) (timeout : ℕ)
    → parse_keys trim_space keys remote_public_key ≡ some k
    → ((c : Client) × (new_client socket_type k.private k.public timeout ≡ some c))
      × (k.remote_public ≢ k.public)
unfolding parse_keys
parse_keys-new_client trim_space keys remote_public_key k socket_type timeout e =
    elim (Result-cases (read_public_key trim_space keys.public)) [
      | inl (f, p) ↦ absurd (none_ne (rw (parse_keys, p) at e))
      | inr (public_key, p) ↦ elim (Result-cases (read_private_key trim_space keys.private)) [
        | inl (f, q) ↦ absurd (none_ne (rw (parse_keys, p, q) at e))
        | inr (private_key, q) ↦
            let (same_public, same_private, differ) =
              with_remote-some public_key private_key (hex_decode remote_public_key) k
                (rw (parse_keys, p, q) at e) in
            let l : length k.public ≡ 32 =
              ap length same_public ∙ (read_public_key-ok trim_space keys.public public_key p).0 in
            let m : length k.private ≡ 32 =
              ap length same_private ∙ read_private_key-ok trim_space keys.private private_key q in
            (new_client-made socket_type k.private k.public timeout m l, differ)
      ]
    ]

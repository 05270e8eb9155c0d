-- ===== src/Node/Keys.antt =====
-- nodes/node/node.go: `parseKeys`, which reads the keys of the monitor and of the node.
use bitmarkd_broadcast_monit.Common.{
  ℕ, ◌≡◌, ◌≢◌, refl, sym, ◌∙◌, ap, Bool, true, false, Option, none, some, List, [], ◌∷◌, length,
  Bytes, bytes_eq, bytes_eq_refl, if◌then◌else◌, Bool-cases, Option-cases, inl, inr, ◌⊎◌,
}
use bitmarkd_broadcast_monit.Common.Hex.{hex_decode}
use bitmarkd_broadcast_monit.Configuration.{Keys}
use bitmarkd_broadcast_monit.Network.Keypair.{
  Result, failed, ok, parse_key, read_public_key, read_private_key, public_length, private_length,
}
use bitmarkd_broadcast_monit.Network.Client.{Client, SocketType, new_client}
pub mod Clients
pub mod Tests

pub record NodeKeys : Type 0 where
  pub private : Bytes
  pub public : Bytes
  pub remote_public : Bytes

-- Each of the errors of `parseKeys` is `none`.
abbrev pub with_remote : Bytes → Bytes → Option Bytes → Option NodeKeys
with_remote public_key private_key none = none
with_remote public_key private_key (some remote) =
    if bytes_eq public_key remote
    then none
    else some (record { private = private_key; public = public_key; remote_public = remote })

unfoldable pub parse_keys : (Bytes → Bytes) → Keys → Bytes → Option NodeKeys
parse_keys trim_space keys remote_public_key = elim (read_public_key trim_space keys.public) [
  | failed e ↦ none
  | ok public_key ↦ elim (read_private_key trim_space keys.private) [
    | failed e ↦ none
    | ok private_key ↦ with_remote public_key private_key (hex_decode remote_public_key)
  ]
]

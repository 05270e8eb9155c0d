-- ===== src/Node/Keys/Tests.antt =====
-- nodes/node/node.go: two keys that are read from their texts.
use bitmarkd_broadcast_monit.Common.{◌≡◌, refl, some, ◌++◌, replicate}
use bitmarkd_broadcast_monit.Common.Hex.{hex_encode, hex_decode}
use bitmarkd_broadcast_monit.Configuration.{Keys}
use bitmarkd_broadcast_monit.Network.Keypair.{
  tagged_public, tagged_private, parse_key, read_public_key, read_private_key,
}
use bitmarkd_broadcast_monit.Node.Keys.{NodeKeys, parse_keys}

abbrev pub own : Keys
own = record {
  public = tagged_public ++ hex_encode (replicate 32 1);
  private = tagged_private ++ hex_encode (replicate 32 2);
}

abbrev parsed : NodeKeys
parsed = record {
  private = replicate 32 2;
  public = replicate 32 1;
  remote_public = replicate 32 3;
}

parse_keys_test : parse_keys (λ t. t) own (hex_encode (replicate 32 3)) ≡ some parsed
unfolding parse_keys read_public_key read_private_key parse_key hex_decode
parse_keys_test = refl

-- ===== src/Network/Keypair/Tests.antt =====
-- network/keypair.go on concrete keys; the texts have no spaces.
use bitmarkd_broadcast_monit.Common.{◌≡◌, refl, ◌++◌, Bytes, codes, replicate, arith}
use bitmarkd_broadcast_monit.Common.Hex.{hex_encode, hex_decode, AreBytes}
use bitmarkd_broadcast_monit.Network.Keypair.{
  tagged_public, tagged_private, failed, ok, invalid_hex, invalid_public_key_file,
  invalid_private_key_file, parse_key, read_public_key, read_private_key,
}
use bitmarkd_broadcast_monit.Network.Keypair.Laws.{read_key-tagged}

abbrev untrimmed : Bytes → Bytes
untrimmed text = text

abbrev key : Bytes
key = replicate 32 171

key-AreBytes : AreBytes key
key-AreBytes = ground arith

read_key-tagged_example :
    (read_public_key untrimmed (tagged_public ++ hex_encode key) ≡ ok key)
    × (read_private_key untrimmed (tagged_private ++ hex_encode key) ≡ ok key)
    × (read_private_key untrimmed (tagged_public ++ hex_encode key)
        ≡ failed invalid_private_key_file)
    × (read_public_key untrimmed (tagged_private ++ hex_encode key)
        ≡ failed invalid_public_key_file)
read_key-tagged_example = read_key-tagged untrimmed key key-AreBytes refl refl refl

bad_digit_test : read_public_key untrimmed (codes "PUBLIC:0g") ≡ failed invalid_hex
unfolding read_public_key parse_key hex_decode
bad_digit_test = refl

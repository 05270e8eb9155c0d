-- ===== src/Network/Keypair.antt =====
-- network/keypair.go: keys in their tagged hexadecimal form. `strings.TrimSpace` is a parameter,
-- as it goes by the runes of the text.
use bitmarkd_broadcast_monit.Common.Hex.{hex_decode}
use bitmarkd_broadcast_monit.Common.{
  ℕ, zero, suc, ◌+◌, ◌-◌, ◌*◌, ◌/◌, ◌%◌, ◌≤◌, ◌<◌, ◌≡◌, refl, Bool, true, false, ◌&&◌, ◌==◌, ltb,
  leb, Option, none, some, List, [], ◌∷◌, ◌++◌, length, Bytes, codes, has_prefix, if◌then◌else◌,
  arith,
}
pub mod Laws
pub mod Tests

abbrev pub tagged_public : Bytes
tagged_public = codes "PUBLIC:"

abbrev pub tagged_private : Bytes
tagged_private = codes "PRIVATE:"

abbrev pub public_length : ℕ
public_length = 32

abbrev pub private_length : ℕ
private_length = 32

pub data KeyError : Type 0 where
  invalid_hex invalid_public_key_file invalid_private_key_file : KeyError

pub data Result (A : Type 0) : Type 0 where
  failed : KeyError → Result A
  ok : A → Result A

pub record ParsedKey : Type 0 where
  pub bytes : Bytes
  pub private : Bool

abbrev pub drop {ℓ} : {A : Type ℓ} → ℕ → List A → List A
drop zero xs = xs
drop (suc n) [] = []
drop (suc n) (x ∷ xs) = drop n xs

-- The branches of `parseKey`, after the tag.
abbrev pub check_key : Option Bytes → ℕ → KeyError → Bool → Result ParsedKey
check_key none n e private = failed invalid_hex
check_key (some h) n e private =
    if length h == n then ok (record { bytes = h; private = private }) else failed e

module _ (trim_space : Bytes → Bytes) where
  unfoldable pub parse_key : Bytes → Result ParsedKey
  parse_key text =
      let s = trim_space text in
      if has_prefix s tagged_private
      then check_key (hex_decode (drop (length tagged_private) s)) private_length
          invalid_private_key_file true
      else if has_prefix s tagged_public
      then check_key (hex_decode (drop (length tagged_public) s)) public_length
          invalid_public_key_file false
      else failed invalid_public_key_file

  unfoldable pub read_public_key : Bytes → Result Bytes
  unfolding parse_key
  read_public_key key = elim (parse_key key) [
    | failed e ↦ failed e
    | ok k ↦ if k.private then failed invalid_public_key_file else ok k.bytes
  ]

  unfoldable pub read_private_key : Bytes → Result Bytes
  unfolding parse_key
  read_private_key key = elim (parse_key key) [
    | failed e ↦ failed e
    | ok k ↦ if k.private then ok k.bytes else failed invalid_private_key_file
  ]

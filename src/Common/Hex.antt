-- ===== src/Common/Hex.antt =====
-- Go's encoding/hex.
use Prim.Native.Nat.{ℕ, ◌+◌, ◌-◌, ◌*◌, ◌/◌, ◌%◌, ◌<◌}
use mathlib.Core.Path.{◌≡◌, refl, ap}
use mathlib.Core.Bool.{◌&&◌}
use mathlib.Core.Option.{Option, none, some}
use mathlib.Core.List.{List, [], ◌∷◌}
use native.Mathlib.Omega.{arith}
use bitmarkd_broadcast_monit.Common.Tests.{ltb, leb, if◌then◌else◌}
use bitmarkd_broadcast_monit.Common.Strings.{Bytes}

abbrev pub hex_digit : ℕ → ℕ
hex_digit n = if ltb n 10 then 48 + n else 87 + n

-- `hex.EncodeToString`
abbrev pub hex_encode : Bytes → Bytes
hex_encode [] = []
hex_encode (b ∷ bs) = hex_digit (b / 16) ∷ hex_digit (b % 16) ∷ hex_encode bs

-- A digit of `hex.DecodeString`: 0-9, a-f, A-F.
unfoldable pub from_hex_digit : ℕ → Option ℕ
from_hex_digit c =
    if leb 48 c && leb c 57
    then some (c - 48)
    else if leb 97 c && leb c 102
    then some (c - 87)
    else if leb 65 c && leb c 70
    then some (c - 55)
    else none

abbrev pub decode_byte : Option ℕ → Option ℕ → Option (List ℕ) → Option (List ℕ)
decode_byte (some h) (some l) (some rest) = some ((h * 16 + l) ∷ rest)
decode_byte (some h) (some l) none = none
decode_byte (some h) none rest = none
decode_byte none l rest = none

-- `hex.DecodeString`
unfoldable pub hex_decode : Bytes → Option Bytes
unfolding from_hex_digit
hex_decode [] = some []
hex_decode (c ∷ []) = none
hex_decode (c ∷ d ∷ rest) = decode_byte (from_hex_digit c) (from_hex_digit d) (hex_decode rest)

-- Every element is a byte.
abbrev pub AreBytes : Bytes → Type 0
AreBytes [] = Unit {0}
AreBytes (b ∷ bs) = (b < 256) × AreBytes bs

from_hex_digit-hex_digit : (n : ℕ) → n < 16 → from_hex_digit (hex_digit n) ≡ some n
unfolding from_hex_digit
from_hex_digit-hex_digit n h = ground arith

pub hex_decode-hex_encode : (bs : Bytes) → AreBytes bs → hex_decode (hex_encode bs) ≡ some bs
unfolding hex_decode
hex_decode-hex_encode [] v = refl
hex_decode-hex_encode (b ∷ bs) v =
    rw
      (
        from_hex_digit-hex_digit (b / 16) (omega (arith, v.0)),
        from_hex_digit-hex_digit (b % 16) (omega arith),
        hex_decode-hex_encode bs v.1,
      )
      (ap (λ x. some (x ∷ bs)) (omega arith))

-- ===== src/Network/Address.antt =====
-- network/util.go: a host and a port. The package net is a parameter; strconv and strings are the
-- definitions below.
use bitmarkd_broadcast_monit.Common.{
  ℕ, zero, suc, ◌+◌, ◌-◌, ◌*◌, ◌/◌, ◌%◌, ◌^◌, ◌≤◌, ◌<◌, ◌≡◌, Bool, true, false, ◌&&◌, ◌||◌, ◌==◌,
  ltb, leb, Option, none, some, List, [], ◌∷◌, ◌++◌, Bytes, codes, if◌then◌else◌, is_empty_string,
  arith, refl,
}
use bitmarkd_broadcast_monit.Common.Int.{ℤ, pos, negsuc, ltb_ℤ}
pub mod Decimal
pub mod Ports
pub mod Tests

abbrev pub min_port : ℕ
min_port = 1

abbrev pub max_port : ℕ
max_port = 65535

-- The functions of package net: an address is a value of any type.
pub record Net : Type 1 where
  pub Ip : Type 0
  pub split_host_port : Bytes → Option (Bytes × Bytes)
  pub parse_ip : Bytes → Option Ip
  pub lookup_ip : Bytes → Option (List Ip)
  pub is_v4 : Ip → Bool
  pub ip_string : Ip → Bytes

pub data AddressError : Type 0 where
  invalid_ip_address invalid_port_number lookup_failed not_a_number : AddressError

pub data Result (A : Type 0) : Type 0 where
  failed : AddressError → Result A
  ok : A → Result A

-- `strings.Trim(s, " ")`
abbrev pub trim_left : Bytes → Bytes
trim_left [] = []
trim_left (c ∷ cs) = if c == 32 then trim_left cs else c ∷ cs

abbrev trim_push : ℕ → Bytes → Bytes
trim_push c [] = if c == 32 then [] else c ∷ []
trim_push c (d ∷ ds) = c ∷ d ∷ ds

abbrev pub trim_right : Bytes → Bytes
trim_right [] = []
trim_right (c ∷ cs) = trim_push c (trim_right cs)

abbrev pub trim : Bytes → Bytes
trim s = trim_right (trim_left s)

-- The digits of a number, after those that make `n`.
unfoldable pub digits : Bytes → ℕ → Option ℕ
digits [] n = some n
digits (c ∷ cs) n = if leb 48 c && leb c 57 then digits cs (n * 10 + (c - 48)) else none

abbrev nonempty_digits : Bytes → Option ℕ
nonempty_digits [] = none
nonempty_digits (c ∷ cs) = digits (c ∷ cs) 0

abbrev negate : ℕ → ℤ
negate zero = pos 0
negate (suc n) = negsuc n

abbrev in_range : Option ℕ → Option ℤ
in_range none = none
in_range (some n) = if ltb n (2 ^ 63) then some (pos n) else none

abbrev in_negative_range : Option ℕ → Option ℤ
in_negative_range none = none
in_negative_range (some n) = if leb n (2 ^ 63) then some (negate n) else none

-- `strconv.Atoi`
unfoldable pub atoi : Bytes → Option ℤ
unfolding digits
atoi [] = none
atoi (c ∷ cs) =
    if c == 45
    then in_negative_range (nonempty_digits cs)
    else if c == 43
    then in_range (nonempty_digits cs)
    else in_range (digits (c ∷ cs) 0)

-- `strconv.Itoa` of a number that is not negative, on fuel: a number has fewer digits than `suc` of
-- itself.
unfoldable pub digits_of : ℕ → ℕ → Bytes → Bytes
digits_of zero n after = after
digits_of (suc fuel) n after =
    let more = digits_of fuel (n / 10) ((48 + n % 10) ∷ after) in
    if ltb n 10 then ((48 + n) ∷ after) else more

unfoldable pub itoa : ℕ → Bytes
unfolding digits_of
itoa n = digits_of (suc n) n []

module _ (net : Net) where
  open net use {Ip, split_host_port, parse_ip, lookup_ip, is_v4, ip_string}

  pub record Connection : Type 0 where
    pub ip : Ip
    pub port : ℕ

  first_ip : Option (List Ip) → Result Ip
  first_ip none = failed lookup_failed
  first_ip (some []) = failed invalid_ip_address
  first_ip (some (ip ∷ rest)) = ok ip

  unfoldable pub find_ip : Bytes → Result Ip
  unfolding first_ip
  find_ip host = elim (parse_ip (trim host)) [ none ↦ first_ip (lookup_ip host) | some ip ↦ ok ip ]

  abbrev to_uint16 : ℤ → ℕ
  to_uint16 (pos n) = n % 2 ^ 16
  to_uint16 (negsuc n) = 2 ^ 16 - suc (n % 2 ^ 16)

  abbrev pub check_port : Ip → Option ℤ → Result Connection
  check_port ip none = failed not_a_number
  check_port ip (some n) =
      if ltb_ℤ n (pos min_port) || ltb_ℤ (pos max_port) n
      then failed invalid_port_number
      else ok (record { ip = ip; port = to_uint16 n })

  unfoldable pub new_connection : Bytes → Result Connection
  unfolding find_ip atoi
  new_connection host_port = elim (split_host_port host_port) [
    | none ↦ failed invalid_ip_address
    | some (host, port) ↦ elim (find_ip host) [
      | failed e ↦ failed e
      | ok ip ↦ check_port ip (atoi (trim port))
    ]
  ]

  -- The address with its prefix, and whether it is of IPv6.
  unfoldable pub canonical_ip_and_port : Connection → Bytes → Bytes × Bool
  unfolding itoa
  canonical_ip_and_port c prefix =
      if is_v4 c.ip
      then (prefix ++ ip_string c.ip ++ codes ":" ++ itoa c.port, false)
      else (prefix ++ codes "[" ++ ip_string c.ip ++ codes "]:" ++ itoa c.port, true)

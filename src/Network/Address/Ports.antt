-- ===== src/Network/Address/Ports.antt =====
-- network/util.go: the port of a connection, read and written.
use bitmarkd_broadcast_monit.Common.{
  ℕ, zero, suc, ◌+◌, ◌*◌, ◌/◌, ◌%◌, ◌^◌, ◌≤◌, ◌<◌, ◌≡◌, ◌≢◌, refl, sym, ap, ◌∙◌, ◌||◌, ltb, Option,
  none, some, [], ◌∷◌, Bytes, ◌⊎◌, inl, inr, arith, Bool-cases,
}
use bitmarkd_broadcast_monit.Common.Int.{ℤ, pos, negsuc, ltb_ℤ}
use bitmarkd_broadcast_monit.Network.Address.{
  min_port, max_port, Net, Result, ok, failed, AddressError, Connection, trim, digits, atoi,
  digits_of, itoa, check_port, find_ip, new_connection,
}
use bitmarkd_broadcast_monit.Network.Address.Decimal.{read-digits_of}

digits_digit :
    (d n : ℕ) (after : Bytes) → d < 10 → digits ((48 + d) ∷ after) n ≡ digits after (n * 10 + d)
unfolding digits
digits_digit d n after h = ground (arith, h)

digits_of-cons :
    (fuel n c : ℕ) (cs : Bytes) → (d : ℕ) × (ds : Bytes) × (digits_of fuel n (c ∷ cs) ≡ d ∷ ds)
unfolding digits_of
digits_of-cons zero n c cs = (c, cs, refl)
digits_of-cons (suc fuel) n c cs = elim (Bool-cases (ltb n 10)) [
  | inl small ↦ (48 + n, c ∷ cs, rw small refl)
  | inr big ↦
      let (d, ds, e) = digits_of-cons fuel (n / 10) (48 + n % 10) (c ∷ cs) in (d, ds, rw big e)
]

itoa-cons : (n : ℕ) → (d : ℕ) × (ds : Bytes) × (itoa n ≡ d ∷ ds)
unfolding itoa digits_of
itoa-cons n = elim (Bool-cases (ltb n 10)) [
  | inl small ↦ (48 + n, [], rw small refl)
  | inr big ↦ let (d, ds, e) = digits_of-cons n (n / 10) (48 + n % 10) [] in (d, ds, rw big e)
]

atoi_unsigned :
    (d n : ℕ) (ds : Bytes) → digits (d ∷ ds) 0 ≡ some n → n < 2 ^ 63 → atoi (d ∷ ds) ≡ some (pos n)
unfolding atoi digits
atoi_unsigned d n ds h small = ground (arith, h, small)

-- A number that is written is read back, if it is one of the machine's.
pub atoi-itoa : (n : ℕ) → n < 2 ^ 63 → atoi (itoa n) ≡ some (pos n)
unfolding itoa digits
atoi-itoa n small =
    let (d, ds, e) = itoa-cons n in
    rw e (
      atoi_unsigned d n ds
        (ap (λ s. digits s 0) (sym e)
          ∙ read-digits_of digits digits_digit (suc n) n [] (omega arith))
        small)

pub Result-cases :
    {A : Type 0} (r : Result A) → ((e : AddressError) × (r ≡ failed e)) ⊎ ((a : A) × (r ≡ ok a))
Result-cases (failed e) = inl (e, refl)
Result-cases (ok a) = inr (a, refl)

abbrev value_or : {A : Type 0} → A → Result A → A
value_or a (failed e) = a
value_or a (ok b) = b

failed-ne : {A : Type 0} {e : AddressError} {a : A} → failed e ≢ ok a
failed-ne h = cc

check_port-ok :
    (net : Net) (ip : net.Ip) (n : Option ℤ) (c : Connection net)
    → check_port net ip n ≡ ok c
    → (n ≡ some (pos c.port)) × (min_port ≤ c.port) × (c.port ≤ max_port) × (c.ip ≡ ip)
check_port-ok net ip none c e = absurd (failed-ne e)
check_port-ok net ip (some (negsuc n)) c e = ground arith
check_port-ok net ip (some (pos n)) c e =
    elim (Bool-cases (ltb_ℤ (pos n) (pos min_port) || ltb_ℤ (pos max_port) (pos n))) [
      | inl out ↦ absurd (failed-ne (rw out at e))
      | inr within ↦
          let u : c ≡ record { ip = ip; port = n % 2 ^ 16 } =
            sym (ap (value_or c) (rw within at e)) in
          let (above, below) : (min_port ≤ n) × (n ≤ max_port) = ground arith in
          let p : c.port ≡ n = ap (λ c. c.port) u ∙ omega arith in
          (ap (λ n. some (pos n)) (sym p), rw p above, rw p below, ap (λ c. c.ip) u)
    ]

-- A connection that is made has a port from 1 to 65535, the number that its text says: the
-- conversion to 16 bits loses nothing.
pub new_connection-port :
    (net : Net) (host_port host port : Bytes) (c : Connection net)
    → net.split_host_port host_port ≡ some (host, port)
    → new_connection net host_port ≡ ok c
    → (atoi (trim port) ≡ some (pos c.port)) × (min_port ≤ c.port) × (c.port ≤ max_port)
unfolding new_connection
new_connection-port net host_port host port c s e = elim (Result-cases (find_ip net host)) [
  | inl (f, i) ↦ absurd (failed-ne (rw (new_connection, s, i) at e))
  | inr (ip, i) ↦
      let (n, above, below, _) =
        check_port-ok net ip (atoi (trim port)) c (rw (new_connection, s, i) at e) in
      (n, above, below)
]

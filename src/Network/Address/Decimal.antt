-- ===== src/Network/Address/Decimal.antt =====
-- network/util.go: what reads the decimal digits of a number, over the digits that `itoa` writes.
use bitmarkd_broadcast_monit.Common.{
  ℕ, zero, suc, ◌+◌, ◌*◌, ◌/◌, ◌%◌, ◌<◌, ◌≡◌, refl, ap, ◌∙◌, ltb, [], ◌∷◌, ◌++◌, Bytes, inl, inr,
  arith, Bool-cases, ltb→lt,
}
use bitmarkd_broadcast_monit.Network.Address.{digits_of, itoa}

digits_of-append :
    (fuel n : ℕ) (after rest : Bytes)
    → digits_of fuel n after ++ rest ≡ digits_of fuel n (after ++ rest)
unfolding digits_of
digits_of-append zero n after rest = refl
digits_of-append (suc fuel) n after rest = elim (Bool-cases (ltb n 10)) [
  | inl small ↦ rw small refl
  | inr big ↦ rw big (digits_of-append fuel (n / 10) ((48 + n % 10) ∷ after) rest)
]

-- A reader that takes a digit by adding it to the number read so far takes all digits of a number.
module _ {ℓ} {A : Type ℓ} (read : Bytes → ℕ → A)
    (digit : (d n : ℕ) (after : Bytes)
      → d < 10
      → read ((48 + d) ∷ after) n ≡ read after (n * 10 + d)) where
  pub read-digits_of :
      (fuel n : ℕ) (after : Bytes) → n < fuel → read (digits_of fuel n after) 0 ≡ read after n
  unfolding digits_of
  read-digits_of zero n after h = absurd (omega arith)
  read-digits_of (suc fuel) n after h = elim (Bool-cases (ltb n 10)) [
    | inl small ↦ rw small (digit n 0 after (ltb→lt n 10 small) ∙ ap (read after) (omega arith))
    | inr big ↦ rw big (
        read-digits_of fuel (n / 10) ((48 + n % 10) ∷ after) (ground arith)
        ∙ digit (n % 10) (n / 10) after (omega arith)
        ∙ ap (read after) (omega arith))
  ]

  pub read-itoa : (n : ℕ) (rest : Bytes) → read (itoa n ++ rest) 0 ≡ read rest n
  unfolding itoa
  read-itoa n rest =
      ap (λ s. read s 0) (digits_of-append (suc n) n [] rest)
      ∙ read-digits_of (suc n) n rest (omega arith)

digits_of-head :
    (fuel n c : ℕ) (cs : Bytes)
    → c < 10
    → (d : ℕ) × (ds : Bytes) × (digits_of fuel n ((48 + c) ∷ cs) ≡ (48 + d) ∷ ds) × (d < 10)
unfolding digits_of
digits_of-head zero n c cs h = (c, cs, refl, h)
digits_of-head (suc fuel) n c cs h = elim (Bool-cases (ltb n 10)) [
  | inl small ↦ (n, (48 + c) ∷ cs, rw small refl, ltb→lt n 10 small)
  | inr big ↦
      let (d, ds, e, low) = digits_of-head fuel (n / 10) (n % 10) ((48 + c) ∷ cs) (omega arith) in
      (d, ds, rw big e, low)
]

-- The text of a number begins with a digit.
pub itoa-head : (n : ℕ) → (d : ℕ) × (ds : Bytes) × (itoa n ≡ (48 + d) ∷ ds) × (d < 10)
unfolding itoa digits_of
itoa-head n = elim (Bool-cases (ltb n 10)) [
  | inl small ↦ (n, [], rw small refl, ltb→lt n 10 small)
  | inr big ↦
      let (d, ds, e, low) = digits_of-head n (n / 10) (n % 10) [] (omega arith) in
      (d, ds, rw big e, low)
]

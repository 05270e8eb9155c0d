-- ===== src/Recorder/Blocks/Text/Reading.antt =====
-- recorder/blocks.go: readers of the parts of a summary's text.
use bitmarkd_broadcast_monit.Common.{
  ℕ, zero, suc, ◌+◌, ◌-◌, ◌*◌, ◌<◌, ◌≡◌, refl, ap, ◌∙◌, Bool, false, ◌&&◌, ◌||◌, List, [], ◌∷◌,
  ◌++◌, leb, ◌==◌, if◌then◌else◌, append-nil, append_assoc, drop, length, map, Bytes, codes,
  has_prefix, arith,
}
use bitmarkd_broadcast_monit.Common.Int.{ℤ, pos, negsuc}
use bitmarkd_broadcast_monit.Network.Address.{itoa}
use bitmarkd_broadcast_monit.Network.Address.Decimal.{read-itoa, itoa-head}
use bitmarkd_broadcast_monit.Recorder.Blocks.{Fork, LongConfirm}
use bitmarkd_broadcast_monit.Recorder.Blocks.Text.{
  int_text, forks_text, fork_info, confirms_text, confirm_info, more_numbers_text, numbers_text,
}

abbrev is_digit : ℕ → Bool
is_digit c = leb 48 c && leb c 57

-- The digits at the front of a text, after those that make `n`, and what follows them.
unfoldable pub read_digits : Bytes → ℕ → ℕ × Bytes
read_digits [] n = (n, [])
read_digits (c ∷ cs) n =
    let more = read_digits cs (n * 10 + (c - 48)) in if is_digit c then more else (n, c ∷ cs)

read_digits-digit :
    (d n : ℕ) (after : Bytes)
    → d < 10
    → read_digits ((48 + d) ∷ after) n ≡ read_digits after (n * 10 + d)
unfolding read_digits
read_digits-digit d n after h = ground arith

-- A number that is written in front of something else than a digit is read.
pub read_digits-itoa :
    (n c : ℕ) (cs : Bytes) → is_digit c ≡ false → read_digits (itoa n ++ c ∷ cs) 0 ≡ (n, c ∷ cs)
unfolding read_digits
read_digits-itoa n c cs h = read-itoa read_digits read_digits-digit n (c ∷ cs) ∙ rw h refl

abbrev negative : ℕ × Bytes → ℤ × Bytes
negative (zero, s) = (pos 0, s)
negative (suc n, s) = (negsuc n, s)

abbrev positive : ℕ × Bytes → ℤ × Bytes
positive (n, s) = (pos n, s)

unfoldable pub read_int : Bytes → ℤ × Bytes
read_int s =
    if has_prefix s (codes "-")
    then negative (read_digits (drop 1 s) 0)
    else positive (read_digits s 0)

read_int-int_text :
    (z : ℤ) (c : ℕ) (cs : Bytes)
    → is_digit c ≡ false
    → read_int (int_text z ++ c ∷ cs) ≡ (z, c ∷ cs)
unfolding read_int int_text
read_int-int_text (pos n) c cs h =
    let (d, ds, e, low) = itoa-head n in
    let plain : has_prefix (itoa n ++ c ∷ cs) (codes "-") ≡ false = rw e (ground arith) in
    rw plain (ap positive (read_digits-itoa n c cs h))
read_int-int_text (negsuc n) c cs h = ap negative (read_digits-itoa (suc n) c cs h)

-- The numbers before a closing bracket, each after a space but for the one that `n` begins.
unfoldable pub read_more : List ℕ → Bytes → ℕ → List ℕ × Bytes
read_more ns [] n = (ns, [])
read_more ns (c ∷ cs) n =
    let more =
      read_more (if c == 32 then ns ++ n ∷ [] else ns) cs
        (if c == 32 then 0 else n * 10 + (c - 48)) in
    if c == 93 then (ns ++ n ∷ [], cs) else more

read_more-digit :
    (ns : List ℕ) (d n : ℕ) (after : Bytes)
    → d < 10
    → read_more ns ((48 + d) ∷ after) n ≡ read_more ns after (n * 10 + d)
unfolding read_more
read_more-digit ns d n after h = ground arith

read_more-more_numbers_text :
    (ns ms : List ℕ) (n : ℕ) (rest : Bytes)
    → read_more ns (more_numbers_text ms ++ rest) n ≡ (ns ++ n ∷ ms, rest)
unfolding read_more
read_more-more_numbers_text ns [] n rest = refl
read_more-more_numbers_text ns (m ∷ ms) n rest =
    ap (λ s. read_more (ns ++ n ∷ []) s 0) (append_assoc (itoa m) (more_numbers_text ms) rest)
    ∙ read-itoa (read_more (ns ++ n ∷ [])) (read_more-digit (ns ++ n ∷ [])) m
        (more_numbers_text ms ++ rest)
    ∙ read_more-more_numbers_text (ns ++ n ∷ []) ms m rest
    ∙ ap (λ l. (l, rest)) (append_assoc ns (n ∷ []) (m ∷ ms))

unfoldable pub read_numbers : Bytes → List ℕ × Bytes
read_numbers s =
    let after = drop 1 s in
    if has_prefix after (codes "]") then ([], drop 1 after) else read_more [] after 0

pub read_numbers-numbers_text :
    (ns : List ℕ) (rest : Bytes) → read_numbers (numbers_text ns ++ rest) ≡ (ns, rest)
unfolding read_numbers numbers_text
read_numbers-numbers_text [] rest = refl
read_numbers-numbers_text (n ∷ ns) rest =
    let (d, ds, e, low) = itoa-head n in
    let some_number : has_prefix (itoa n ++ more_numbers_text ns ++ rest) (codes "]") ≡ false =
      rw e (ground arith) in
    rw some_number (
      ap (λ s. read_more [] s 0) (append_assoc (itoa n) (more_numbers_text ns) rest)
      ∙ read-itoa (read_more []) (read_more-digit []) n (more_numbers_text ns ++ rest)
      ∙ read_more-more_numbers_text [] ns n rest)

-- The text up to the first comma.
unfoldable pub read_word : Bytes → Bytes × Bytes
read_word [] = ([], [])
read_word (c ∷ cs) =
    let (word, rest) = read_word cs in if c == 44 then ([], c ∷ cs) else (c ∷ word, rest)

abbrev pub has_comma : Bytes → Bool
has_comma [] = false
has_comma (c ∷ cs) = c == 44 || has_comma cs

pub read_word-append :
    (word rest : Bytes) → has_comma word ≡ false → read_word (word ++ 44 ∷ rest) ≡ (word, 44 ∷ rest)
unfolding read_word
read_word-append [] rest h = refl
read_word-append (c ∷ cs) rest h =
    let ih = read_word-append cs rest (ground arith) in rw ih (ground arith)

-- As many forks as there are said to be.
unfoldable pub read_forks : ℕ → Bytes → List (ℕ × ℕ) × Bytes
read_forks zero s = ([], s)
read_forks (suc k) s =
    let (begin, s1) = read_digits s 0 in
    let (end, s2) = read_digits (drop 4 s1) 0 in
    let (more, s3) = read_forks k (drop 1 s2) in ((begin, end) ∷ more, s3)

abbrev pub span : Fork → ℕ × ℕ
span f = (f.begin, f.end)

read_forks-forks_text :
    (fs : List Fork) (rest : Bytes)
    → read_forks (length fs) (forks_text fs ++ rest) ≡ (map span fs, rest)
unfolding read_forks forks_text
read_forks-forks_text [] rest = refl
read_forks-forks_text (f ∷ fs) rest =
    let ending = codes " " ++ (forks_text fs ++ rest) in
    let text : forks_text (f ∷ fs) ++ rest
        ≡ itoa f.begin ++ (codes " to " ++ (itoa f.end ++ ending)) =
      simp (append_assoc, append-nil) in
    rw text (
      rw (read_digits-itoa f.begin 32 (codes "to " ++ (itoa f.end ++ ending)) refl) (
        rw (read_digits-itoa f.end 32 (forks_text fs ++ rest) refl)
          (rw (read_forks-forks_text fs rest) refl)))

unfoldable pub read_fork_info : ℕ → Bytes → List (ℕ × ℕ) × Bytes
read_fork_info zero s = ([], s)
read_fork_info (suc k) s = read_forks (suc k) (drop 12 s)

pub read_fork_info-fork_info :
    (fs : List Fork) (rest : Bytes)
    → read_fork_info (length fs) (fork_info fs ++ rest) ≡ (map span fs, rest)
unfolding read_fork_info fork_info
read_fork_info-fork_info [] rest = refl
read_fork_info-fork_info (f ∷ fs) rest = read_forks-forks_text (f ∷ fs) rest

-- As many long confirmations as there are said to be.
unfoldable pub read_confirms : ℕ → Bytes → List (ℕ × ℤ) × Bytes
read_confirms zero s = ([], s)
read_confirms (suc k) s =
    let (number, s1) = read_digits (drop 6 s) 0 in
    let (period, s2) = read_int (drop 7 s1) in
    let (more, s3) = read_confirms k (drop 1 s2) in ((number, period) ∷ more, s3)

abbrev pub delay : LongConfirm → ℕ × ℤ
delay c = (c.block_number, c.period)

read_confirms-confirms_text :
    (cs : List LongConfirm) (rest : Bytes)
    → read_confirms (length cs) (confirms_text cs ++ rest) ≡ (map delay cs, rest)
unfolding read_confirms confirms_text
read_confirms-confirms_text [] rest = refl
read_confirms-confirms_text (c ∷ cs) rest =
    let ending = codes " " ++ (confirms_text cs ++ rest) in
    let text : confirms_text (c ∷ cs) ++ rest
        ≡ codes "block "
          ++ (itoa c.block_number ++ (codes " takes " ++ (int_text c.period ++ ending))) =
      simp (append_assoc, append-nil) in
    rw text (
      rw (read_digits-itoa c.block_number 32 (codes "takes " ++ (int_text c.period ++ ending)) refl)
        (rw (read_int-int_text c.period 32 (confirms_text cs ++ rest) refl)
          (rw (read_confirms-confirms_text cs rest) refl)))

unfoldable pub read_confirm_info : ℕ → Bytes → List (ℕ × ℤ) × Bytes
read_confirm_info zero s = ([], s)
read_confirm_info (suc k) s = read_confirms (suc k) (drop 15 s)

pub read_confirm_info-confirm_info :
    (cs : List LongConfirm) (rest : Bytes)
    → read_confirm_info (length cs) (confirm_info cs ++ rest) ≡ (map delay cs, rest)
unfolding read_confirm_info confirm_info
read_confirm_info-confirm_info [] rest = refl
read_confirm_info-confirm_info (c ∷ cs) rest = read_confirms-confirms_text (c ∷ cs) rest

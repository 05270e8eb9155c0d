-- ===== src/Recorder/Heartbeat/Unordered.antt =====
-- recorder/heartbeat.go: the order in which a Go map is walked through does not matter.
use bitmarkd_broadcast_monit.Common.{
  ℕ, suc, ◌≡◌, refl, sym, ap, ap₂, ◌∙◌, subst, Bool, true, false, List, ◌∷◌, arith, length, min,
  max, if◌then◌else◌,
}
use mathlib.Core.Logic.{∥∥₁_elim}
use mathlib.Core.List.{Perm, Permᴰ}
use mathlib.Core.List.Permᴰ
use bitmarkd_broadcast_monit.Clock.{Time, after}
use bitmarkd_broadcast_monit.Recorder.Heartbeat.{
  Heartbeat, scan_receipts, delete_expired, cleanup_expired_heartbeat, summary,
}
use bitmarkd_broadcast_monit.Recorder.Heartbeat.Rate.{first_key, last_key, scan_receipts_lem}

first_key-Permᴰ : (t : Time) {m n : List (Time × Time)} → Permᴰ m n → first_key t m ≡ first_key t n
first_key-Permᴰ t Permᴰ.nil = refl
first_key-Permᴰ t (Permᴰ.cons e p) = ap₂ (λ (x : Time × Time) r. min x.0 r) e (first_key-Permᴰ t p)
first_key-Permᴰ t (Permᴰ.swap {l = l} e f) =
    omega (arith, ap (λ (x : Time × Time). x.0) e, ap (λ (x : Time × Time). x.0) f)
first_key-Permᴰ t (Permᴰ.trans p q) = first_key-Permᴰ t p ∙ first_key-Permᴰ t q

last_key-Permᴰ : (t : Time) {m n : List (Time × Time)} → Permᴰ m n → last_key t m ≡ last_key t n
last_key-Permᴰ t Permᴰ.nil = refl
last_key-Permᴰ t (Permᴰ.cons e p) = ap₂ (λ (x : Time × Time) r. max x.0 r) e (last_key-Permᴰ t p)
last_key-Permᴰ t (Permᴰ.swap {l = l} e f) =
    omega (arith, ap (λ (x : Time × Time). x.0) e, ap (λ (x : Time × Time). x.0) f)
last_key-Permᴰ t (Permᴰ.trans p q) = last_key-Permᴰ t p ∙ last_key-Permᴰ t q

length-Permᴰ : {m n : List (Time × Time)} → Permᴰ m n → length m ≡ length n
length-Permᴰ Permᴰ.nil = refl
length-Permᴰ (Permᴰ.cons e p) = ap suc (length-Permᴰ p)
length-Permᴰ (Permᴰ.swap e f) = refl
length-Permᴰ (Permᴰ.trans p q) = length-Permᴰ p ∙ length-Permᴰ q

-- One entry, and whether it stays.
delete_if : Bool → Time × Time → List (Time × Time) → List (Time × Time)
delete_if b x rest = if b then rest else x ∷ rest

delete_if-Permᴰ :
    (b : Bool) {x y : Time × Time} {m n : List (Time × Time)}
    → x ≡ y
    → Permᴰ m n
    → Permᴰ (delete_if b x m) (delete_if b y n)
unfolding delete_if
delete_if-Permᴰ true e p = p
delete_if-Permᴰ false e p = Permᴰ.cons e p

delete_if-swap :
    (b c : Bool) (x y : Time × Time) (m : List (Time × Time))
    → Permᴰ (delete_if b x (delete_if c y m)) (delete_if c y (delete_if b x m))
unfolding delete_if
delete_if-swap true c x y m = Permᴰ.refl _
delete_if-swap false true x y m = Permᴰ.refl _
delete_if-swap false false x y m = Permᴰ.swap refl refl

delete_expired-Permᴰ :
    (now : Time) {m n : List (Time × Time)}
    → Permᴰ m n
    → Permᴰ (delete_expired now m) (delete_expired now n)
unfolding delete_expired delete_if
delete_expired-Permᴰ now Permᴰ.nil = Permᴰ.nil
delete_expired-Permᴰ now (Permᴰ.cons {a = x} {b = y} {l₁ = m} {l₂ = n} e p) =
    subst (λ z. Permᴰ (delete_expired now (x ∷ m)) (delete_expired now (z ∷ n))) e
      (delete_if-Permᴰ (after now x.1) refl (delete_expired-Permᴰ now p))
delete_expired-Permᴰ now (Permᴰ.swap {a = x} {b = y} {a' = y'} {b' = x'} {l = l} e f) =
    subst (λ z. Permᴰ (delete_expired now (x ∷ y ∷ l)) (delete_expired now (y' ∷ z ∷ l))) e
      (subst (λ z. Permᴰ (delete_expired now (x ∷ y ∷ l)) (delete_expired now (z ∷ x ∷ l))) f
        (delete_if-swap (after now x.1) (after now y.1) x y (delete_expired now l)))
delete_expired-Permᴰ now (Permᴰ.trans p q) =
    Permᴰ.trans (delete_expired-Permᴰ now p) (delete_expired-Permᴰ now q)

-- The summary of a record does not depend on the order of its map, and the clean-up of two records
-- that differ only in that order leaves two that differ only in that order.
pub summary-Perm :
    (interval : ℕ) (now : Time) (h : Heartbeat) (m : List (Time × Time))
    → Perm h.entries m
    → let other = record h { entries = m } in
      ((summary interval now other).0 ≡ (summary interval now h).0)
      × ((summary interval now other).1.earliest ≡ (summary interval now h).1.earliest)
      × Perm (cleanup_expired_heartbeat h now).entries (cleanup_expired_heartbeat other now).entries
unfolding summary cleanup_expired_heartbeat
summary-Perm interval now h m p =
    let start = h.earliest in
    let first : first_key start m ≡ first_key start h.entries =
      ∥∥₁_elim p (hlevel) (λ d. sym (first_key-Permᴰ start d)) in
    let last : last_key start m ≡ last_key start h.entries =
      ∥∥₁_elim p (hlevel) (λ d. sym (last_key-Permᴰ start d)) in
    let size : length m ≡ length h.entries = ∥∥₁_elim p (hlevel) (λ d. sym (length-Permᴰ d)) in
    let scan : scan_receipts m (start, start) ≡ scan_receipts h.entries (start, start) =
      scan_receipts_lem m start start
      ∙ ap₂ (λ x y. (x, y)) first last
      ∙ sym (scan_receipts_lem h.entries start start) in
    rw (scan, size) (refl, ground arith, ∥∥₁_elim p (hlevel) (λ d. ∣ delete_expired-Permᴰ now d ∣₁))

-- ===== src/Recorder/Blocks/Overrun.antt =====
-- recorder/blocks.go: when the clean-up leaves a record on which the next `Add` panics.
use bitmarkd_broadcast_monit.Common.{
  ℕ, suc, ◌+◌, ◌≤◌, ◌<◌, ◌≡◌, refl, ap, ◌∙◌, inl, inr, ◌↔◌, true, false, Bool, Option, some, none,
  List, [], ◌∷◌, arith, Bool-cases, length, get_or, if◌then◌else◌,
}
use bitmarkd_broadcast_monit.Clock.{Time, after}
use bitmarkd_broadcast_monit.Recorder.Blocks.{
  data_length, zero_block, is_empty, BlockData, Blocks, add, extend_window, find_fresh, keep_window,
  cleanup_expired_blocks, cleanup_expired_forks, cleanup_expired_long_confirms, cleanup,
}
use bitmarkd_broadcast_monit.Recorder.Blocks.Cleanup.{expiry, cleanup-IsValid}
use bitmarkd_broadcast_monit.Recorder.Blocks.Invariant.{IsValid, add-none_iff}
use bitmarkd_broadcast_monit.Recorder.Blocks.Window.{recorded}

-- No slot is free.
abbrev pub IsFull : List BlockData → Type 0
IsFull bs = length (recorded bs) ≡ length bs

abbrev pub final : BlockData → List BlockData → BlockData
final b [] = b
final b (c ∷ cs) = final c cs

pub final-get_or :
    (b : BlockData) (bs : List BlockData) → get_or (b ∷ bs) (length bs) zero_block ≡ final b bs
final-get_or b [] = refl
final-get_or b (c ∷ cs) = final-get_or c cs

-- A window that ends before index `n`, and does not begin at the first slot.
abbrev LateWindow : ℕ → Option (ℕ × ℕ) → Type 0
LateWindow n none = Unit {0}
LateWindow n (some (s, e)) = (1 ≤ s) × (e < n)

LateWindow-mono : (n m : ℕ) (w : Option (ℕ × ℕ)) → n ≤ m → LateWindow n w → LateWindow m w
LateWindow-mono n m none h w = tt
LateWindow-mono n m (some (s, e)) h w = (w.0, omega (arith, w.1))

LateWindow-extend :
    (fresh : Bool) (i : ℕ) (w : Option (ℕ × ℕ))
    → 1 ≤ i
    → LateWindow i w
    → LateWindow (i + 1) (if fresh then extend_window i w else w)
LateWindow-extend true i none h w = (h, omega arith)
LateWindow-extend true i (some (s, e)) h w = (w.0, omega arith)
LateWindow-extend false i found h w = LateWindow-mono i (i + 1) found (omega arith) w

module _ (expired : Time) where
  find_fresh-LateWindow :
      (bs : List BlockData) (i : ℕ) (found : Option (ℕ × ℕ))
      → 1 ≤ i
      → LateWindow i found
      → LateWindow (i + length bs) (find_fresh expired bs i found)
  unfolding find_fresh
  find_fresh-LateWindow [] i found h w = LateWindow-mono i (i + 0) found (omega arith) w
  find_fresh-LateWindow (b ∷ bs) i found h w = elim (Bool-cases (is_empty b)) [
    | inl free ↦ rw free (LateWindow-mono i (i + suc (length bs)) found (omega arith) w)
    | inr held ↦ rw held (
        LateWindow-mono (i + 1 + length bs) (i + suc (length bs)) _ (omega arith) (
          find_fresh-LateWindow bs (i + 1) _ (omega arith)
            (LateWindow-extend (after b.received_time expired) i found h w)))
  ]

  -- A window that has begun reaches the last slot if that is fresh and none is free.
  find_fresh-last :
      (b : BlockData) (bs : List BlockData) (i s e : ℕ)
      → e < i
      → (e' : ℕ) × (find_fresh expired (b ∷ bs) i (some (s, e)) ≡ some (s, e'))
        × (e' ≤ i + length bs)
        × ((e' ≡ i + length bs)
            ↔ (IsFull (b ∷ bs) × (after (final b bs).received_time expired ≡ true)))
  unfolding find_fresh
  find_fresh-last b [] i s e h = elim (Bool-cases (is_empty b)) [
    | inl free ↦ (e, rw free refl, omega arith, ground arith)
    | inr held ↦ elim (Bool-cases (after b.received_time expired)) [
      | inl fresh ↦ (i, rw (held, fresh) refl, omega arith, ground arith)
      | inr stale ↦ (e, rw (held, stale) refl, omega arith, ground arith)
    ]
  ]
  find_fresh-last b (c ∷ cs) i s e h = elim (Bool-cases (is_empty b)) [
    | inl free ↦ (e, rw free refl, omega arith, ground arith)
    | inr held ↦ elim (Bool-cases (after b.received_time expired)) [
      | inl fresh ↦
          let (e', r, le, iff) = find_fresh-last c cs (i + 1) s i (omega arith) in
          (e', rw (held, fresh) r, omega arith, rw held (ground (arith, iff)))
      | inr stale ↦
          let (e', r, le, iff) = find_fresh-last c cs (i + 1) s e (omega arith) in
          (e', rw (held, stale) r, omega arith, rw held (ground (arith, iff)))
    ]
  ]

  keep_window-LateWindow :
      (b : Blocks) (w : Option (ℕ × ℕ))
      → b.id < data_length
      → LateWindow data_length w
      → (keep_window b w).id < data_length
  unfolding keep_window
  keep_window-LateWindow b none below w = below
  keep_window-LateWindow b (some (s, e)) below w = omega (arith, w.0, w.1)

  find_fresh-held :
      (b : BlockData) (bs : List BlockData) (fresh : Bool)
      → is_empty b ≡ false
      → after b.received_time expired ≡ fresh
      → find_fresh expired (b ∷ bs) 0 none
        ≡ find_fresh expired bs 1 (if fresh then some (0, 0) else none)
  unfolding find_fresh
  find_fresh-held b bs fresh held h = rw (held, h) refl

  -- The window is as long as the array exactly when both ends of a full array are fresh.
  keep_window-overrun :
      (b : Blocks) (first second : BlockData) (rest : List BlockData)
      → b.id < data_length
      → suc (suc (length rest)) ≡ data_length
      → let slots = first ∷ second ∷ rest in
        (data_length ≤ (keep_window b (find_fresh expired slots 0 none)).id) ↔ (
          IsFull slots
          × (after first.received_time expired ≡ true)
          × (after (final second rest).received_time expired ≡ true))
  unfolding keep_window
  keep_window-overrun b first second rest below full = elim (Bool-cases (is_empty first)) [
    | inl free ↦ rw free (unfold find_fresh in ground arith)
    | inr held ↦ elim (Bool-cases (after first.received_time expired)) [
      | inl fresh ↦
          let (e, r, le, iff) = find_fresh-last second rest 1 0 0 (omega arith) in
          rw (find_fresh-held first (second ∷ rest) true held fresh, r, held) (ground (arith, iff))
      | inr stale ↦
          let w = find_fresh expired (second ∷ rest) 1 none in
          let late = find_fresh-LateWindow (second ∷ rest) 1 none (omega arith) tt in
          let short : (keep_window b w).id < data_length =
            keep_window-LateWindow b w below
              (LateWindow-mono (1 + suc (length rest)) data_length w (omega arith) late) in
          rw (find_fresh-held first (second ∷ rest) false held stale) (
            (λ over. absurd (omega (arith, over, short))),
            λ (_, f, _). absurd (ground (arith, stale, f)),
          )
    ]
  ]

pub cleanup-id : (b : Blocks) (now : Time) → (cleanup b now).id ≡ (cleanup_expired_blocks b now).id
unfolding cleanup cleanup_expired_forks cleanup_expired_long_confirms
cleanup-id b now = ground arith

pub cleanup-overrun :
    (b : Blocks) (now : Time) (slots : List BlockData)
    → b.slots ≡ slots
    → length slots ≡ data_length
    → b.id < data_length
    → (data_length ≤ (cleanup b now).id) ↔ (
        IsFull slots
        × (after (get_or slots 0 zero_block).received_time (expiry now) ≡ true)
        × (after (get_or slots 99 zero_block).received_time (expiry now) ≡ true))
unfolding cleanup_expired_blocks
cleanup-overrun b now [] s full below = absurd (omega arith)
cleanup-overrun b now (first ∷ []) s full below = absurd (omega arith)
cleanup-overrun b now (first ∷ second ∷ rest) s full below =
    let e : get_or (first ∷ second ∷ rest) 99 zero_block ≡ final second rest =
      ap (λ n. get_or (first ∷ second ∷ rest) n zero_block) {x = 99} {y = suc (length rest)}
        (omega arith)
      ∙ final-get_or second rest in
    let kept : (cleanup b now).id
        ≡ (keep_window b (find_fresh (expiry now) (first ∷ second ∷ rest) 0 none)).id =
      cleanup-id b now ∙ ap (λ l. (keep_window b (find_fresh (expiry now) l 0 none)).id) s in
    rw (e, kept) (keep_window-overrun (expiry now) b first second rest below full)

-- On a valid record with its next slot inside the array, an `Add` right after the timer's clean-up
-- panics exactly when no slot is free and the first and the last slot both hold a block that was
-- received within the last two hours, whatever the slots between them hold.
pub cleanup-add_panics_iff :
    (b : Blocks) (now t : Time) (block : BlockData)
    → IsValid b
    → b.id < data_length
    → (add (cleanup b now) t block ≡ none) ↔ (
        IsFull b.slots
        × (after (get_or b.slots 0 zero_block).received_time (expiry now) ≡ true)
        × (after (get_or b.slots 99 zero_block).received_time (expiry now) ≡ true))
cleanup-add_panics_iff b now t block v below =
    let (past, panics) = add-none_iff (cleanup b now) t block (cleanup-IsValid b now v) in
    let (ends, overrun) = cleanup-overrun b now b.slots refl v.full_array below in
    ((λ h. ends (past h)), λ h. panics (overrun h))

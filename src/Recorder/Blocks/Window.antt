-- ===== src/Recorder/Blocks/Window.antt =====
-- recorder/blocks.go: the window of fresh blocks that the clean-up looks for.
use bitmarkd_broadcast_monit.Common.{
  ℕ, suc, ◌+◌, ◌-◌, ◌≤◌, ◌<◌, ◌≡◌, refl, ap, ap₂, ◌⊎◌, inl, inr, true, false, none, some, List, [],
  ◌∷◌, arith, length, Bool-cases, ltb→lt, if◌then◌else◌, take, drop,
}
use bitmarkd_broadcast_monit.Clock.{Time, after}
use bitmarkd_broadcast_monit.Recorder.Blocks.{is_empty, BlockData, find_fresh}

-- The blocks up to the first free slot.
abbrev pub recorded : List BlockData → List BlockData
recorded [] = []
recorded (b ∷ bs) = let rest = b ∷ recorded bs in if is_empty b then [] else rest

-- The blocks that were received after `expired`.
abbrev pub received_after : Time → List BlockData → List BlockData
received_after expired [] = []
received_after expired (b ∷ bs) =
    let rest = received_after expired bs in if after b.received_time expired then b ∷ rest else rest

abbrev pub AllFrom : Time → List BlockData → Type 0
AllFrom t [] = Unit {0}
AllFrom t (b ∷ bs) = (t ≤ b.received_time) × AllFrom t bs

-- In the order of receipt.
abbrev pub InOrder : List BlockData → Type 0
InOrder [] = Unit {0}
InOrder (b ∷ bs) = AllFrom b.received_time bs × InOrder bs

AllFrom-mono : (t u : Time) (bs : List BlockData) → u ≤ t → AllFrom t bs → AllFrom u bs
AllFrom-mono t u [] h a = tt
AllFrom-mono t u (b ∷ bs) h a = (omega arith, AllFrom-mono t u bs h a.1)

take-recorded : (bs : List BlockData) → take (length (recorded bs)) bs ≡ recorded bs
take-recorded [] = refl
take-recorded (b ∷ bs) = ground (arith, take-recorded bs)

pub length-recorded : (bs : List BlockData) → length (recorded bs) ≤ length bs
length-recorded [] = omega arith
length-recorded (b ∷ bs) = ground (arith, length-recorded bs)

module _ (expired : Time) where
  -- The blocks of `bs` that `received_after` selects, with a window that holds exactly them.
  pub record Window (bs : List BlockData) (i : ℕ) : Type 0 where
    pub skipped : ℕ
    pub found :
        find_fresh expired bs i none
        ≡ some (i + skipped, i + skipped + length (received_after expired (recorded bs)) - 1)
    pub held : 0 < length (received_after expired (recorded bs))
    pub holds :
        take (length (received_after expired (recorded bs))) (drop skipped bs)
        ≡ received_after expired (recorded bs)

  received_after-all :
      (bs : List BlockData) → AllFrom (suc expired) bs → received_after expired bs ≡ bs
  received_after-all [] a = refl
  received_after-all (b ∷ bs) a = ground (arith, received_after-all bs a.1)

  -- A window that has begun is extended over all recorded blocks that follow, if they are fresh.
  find_fresh-some :
      (bs : List BlockData) (s e : ℕ)
      → AllFrom (suc expired) (recorded bs)
      → find_fresh expired bs (e + 1) (some (s, e)) ≡ some (s, e + length (recorded bs))
  unfolding find_fresh
  find_fresh-some [] s e a = ap some (ap₂ (λ x y. (x, y)) refl (omega arith))
  find_fresh-some (b ∷ bs) s e a = ground (arith, find_fresh-some bs s (e + 1))

  -- The window begins at a fresh block.
  Window-here :
      (b : BlockData) (bs : List BlockData) (i : ℕ)
      → is_empty b ≡ false
      → after b.received_time expired ≡ true
      → AllFrom b.received_time (recorded bs)
      → Window (b ∷ bs) i
  unfolding find_fresh
  Window-here b bs i full fresh a = record {
    skipped = 0;
    found =
        rw (full, fresh, all, find_fresh-some bs i i later)
          (ap some (ap₂ (λ x y. (x, y)) (omega arith) (omega arith)));
    held = rw (full, fresh) (omega arith);
    holds = rw (full, fresh, all) (ap (λ l. b ∷ l) (take-recorded bs));
  }
    where
      later : AllFrom (suc expired) (recorded bs)
      later = AllFrom-mono b.received_time (suc expired) (recorded bs) (ltb→lt _ _ fresh) a

      all : received_after expired (recorded bs) ≡ recorded bs
      all = received_after-all (recorded bs) later

  -- A stale block is skipped.
  Window-skip :
      (b : BlockData) (bs : List BlockData) (i : ℕ)
      → is_empty b ≡ false
      → after b.received_time expired ≡ false
      → Window bs (i + 1)
      → Window (b ∷ bs) i
  unfolding find_fresh
  Window-skip b bs i full stale w = record {
    skipped = suc w.skipped;
    found = rw (full, stale, w.found) (ap some (ap₂ (λ x y. (x, y)) (omega arith) (omega arith)));
    held = rw (full, stale) w.held;
    holds = rw (full, stale) w.holds;
  }

  find_fresh_cases :
      (b : BlockData) (bs : List BlockData) (i : ℕ)
      → (is_empty b ≡ true) ⊎ (is_empty b ≡ false)
      → (after b.received_time expired ≡ true) ⊎ (after b.received_time expired ≡ false)
      → InOrder (recorded (b ∷ bs))
      → (InOrder (recorded bs)
          → ((received_after expired (recorded bs) ≡ [])
              × (find_fresh expired bs (i + 1) none ≡ none))
            ⊎ Window bs (i + 1))
      → ((received_after expired (recorded (b ∷ bs)) ≡ [])
          × (find_fresh expired (b ∷ bs) i none ≡ none))
        ⊎ Window (b ∷ bs) i
  unfolding find_fresh
  find_fresh_cases b bs i (inl free) _ o ih = inl (rw free refl, rw free refl)
  find_fresh_cases b bs i (inr full) (inl fresh) o ih =
      inr (Window-here b bs i full fresh (rw full at o).0)
  find_fresh_cases b bs i (inr full) (inr stale) o ih = elim (ih (rw full at o).1) [
    | inl (e, f) ↦ inl (rw (full, stale) e, rw (full, stale) f)
    | inr w ↦ inr (Window-skip b bs i full stale w)
  ]

  pub find_fresh-none :
      (bs : List BlockData) (i : ℕ)
      → InOrder (recorded bs)
      → ((received_after expired (recorded bs) ≡ []) × (find_fresh expired bs i none ≡ none))
        ⊎ Window bs i
  unfolding find_fresh
  find_fresh-none [] i o = inl (refl, refl)
  find_fresh-none (b ∷ bs) i o =
      find_fresh_cases b bs i (Bool-cases (is_empty b)) (Bool-cases (after b.received_time expired))
        o (find_fresh-none bs (i + 1))

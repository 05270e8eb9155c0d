-- ===== src/Recorder/Blocks/Expiry.antt =====
-- recorder/blocks.go: which forks and late confirmations the clean-ups keep.
use bitmarkd_broadcast_monit.Common.{
  ℕ, suc, ◌+◌, ◌≤◌, ◌≡◌, refl, sym, ap, ◌∙◌, ◌⊎◌, inl, inr, true, List, [], ◌∷◌, ◌++◌, arith,
  length, Bool-cases, if◌then◌else◌, drop,
}
use bitmarkd_broadcast_monit.Clock.{Time, after, before}
use bitmarkd_broadcast_monit.Recorder.Blocks.{
  Fork, LongConfirm, Blocks, after_expired, cleanup_expired_forks, last_fresh,
  cleanup_expired_long_confirms,
}

abbrev pub ForksFrom : Time → List Fork → Type 0
ForksFrom t [] = Unit {0}
ForksFrom t (f ∷ fs) = (t ≤ f.expired_at) × ForksFrom t fs

-- `ExpiredAt` does not fall along the list.
abbrev pub ForksInOrder : List Fork → Type 0
ForksInOrder [] = Unit {0}
ForksInOrder (f ∷ fs) = ForksFrom f.expired_at fs × ForksInOrder fs

-- The forks that have not expired.
abbrev pub live_forks : Time → List Fork → List Fork
live_forks now [] = []
live_forks now (f ∷ fs) =
    let rest = live_forks now fs in if after now f.expired_at then rest else f ∷ rest

module _ (now : Time) where
  ForksFrom-mono : (t u : Time) (fs : List Fork) → u ≤ t → ForksFrom t fs → ForksFrom u fs
  ForksFrom-mono t u [] h a = tt
  ForksFrom-mono t u (f ∷ fs) h a = (omega arith, ForksFrom-mono t u fs h a.1)

  live_forks_all : (fs : List Fork) → ForksFrom now fs → live_forks now fs ≡ fs
  live_forks_all [] a = refl
  live_forks_all (f ∷ fs) a = ground (arith, live_forks_all fs a.1)

  after_expired-none :
      (fs : List Fork) (i found : ℕ) → ForksFrom now fs → after_expired now fs i found ≡ found
  unfolding after_expired
  after_expired-none [] i found a = refl
  after_expired-none (f ∷ fs) i found a = ground (arith, after_expired-none fs (i + 1) found a.1)

  -- Where the loop stops: nothing had expired, or what is live is left behind the index found.
  Cut : List Fork → ℕ → ℕ → Type 0
  Cut fs i found =
      ((live_forks now fs ≡ fs) × (after_expired now fs i found ≡ found))
      ⊎ ((k : ℕ) × (after_expired now fs i found ≡ i + k)
          × (k ≤ length fs)
          × (drop k fs ≡ live_forks now fs))

  after_expired-Cut : (fs : List Fork) (i found : ℕ) → ForksInOrder fs → Cut fs i found
  unfolding Cut after_expired
  after_expired-Cut [] i found o = inl (refl, refl)
  after_expired-Cut (f ∷ fs) i found o = elim (Bool-cases (after now f.expired_at)) [
    | inl gone ↦ elim (after_expired-Cut fs (i + 1) (i + 1) o.1) [
      | inl (all, e) ↦ inr (1, rw gone e, omega arith, rw gone (sym all))
      | inr (k, e, h, d) ↦ inr (suc k, rw (gone, e) (omega arith), omega arith, rw gone d)
    ]
    | inr live ↦
        let later = ForksFrom-mono f.expired_at now fs (ground arith) o.0 in
        inl (
          rw live (ap (λ l. f ∷ l) (live_forks_all fs later)),
          rw live (after_expired-none fs (i + 1) found later),
        )
  ]

-- Where the forks stand in the order of expiry, exactly those that have not expired stay.
pub cleanup_expired_forks-live :
    (b : Blocks) (now : Time)
    → ForksInOrder b.forks
    → (cleanup_expired_forks b now).forks ≡ live_forks now b.forks
unfolding cleanup_expired_forks Cut
cleanup_expired_forks-live b now o = elim (after_expired-Cut now b.forks 0 0 o) [
  | inl (all, e) ↦ rw (e, all) (ground arith)
  | inr (k, e, h, d) ↦ ground arith
]

last_fresh-snoc :
    (now : Time) (cs : List LongConfirm) (c : LongConfirm) (i found : ℕ)
    → before now c.expired_at ≡ true
    → last_fresh now (cs ++ c ∷ []) i found ≡ i + length cs
unfolding last_fresh
last_fresh-snoc now [] c i found h = rw h (omega arith)
last_fresh-snoc now (d ∷ ds) c i found h =
    last_fresh-snoc now ds c (i + 1) (if before now d.expired_at then i else found) h ∙ omega arith

drop-snoc : (cs : List LongConfirm) (c : LongConfirm) → drop (length cs) (cs ++ c ∷ []) ≡ c ∷ []
drop-snoc [] c = refl
drop-snoc (d ∷ ds) c = drop-snoc ds c

-- Where the newest confirmation has not expired, it alone stays, whatever stands before it: the
-- older ones are thrown away, also those that have not expired.
pub cleanup_expired_long_confirms_newest :
    (b : Blocks) (now : Time) (cs : List LongConfirm) (c : LongConfirm)
    → b.long_confirms ≡ cs ++ c ∷ []
    → before now c.expired_at ≡ true
    → (cleanup_expired_long_confirms b now).long_confirms ≡ c ∷ []
unfolding cleanup_expired_long_confirms
cleanup_expired_long_confirms_newest b now [] c e h = rw (e, last_fresh-snoc now [] c 0 0 h) refl
cleanup_expired_long_confirms_newest b now (d ∷ ds) c e h =
    rw (e, last_fresh-snoc now (d ∷ ds) c 0 0 h) (ground (arith, drop-snoc ds c))

abbrev pub AllExpired : Time → List LongConfirm → Type 0
AllExpired now [] = Unit {0}
AllExpired now (c ∷ cs) = (c.expired_at ≤ now) × AllExpired now cs

last_fresh-none :
    (now : Time) (cs : List LongConfirm) (i found : ℕ)
    → AllExpired now cs
    → last_fresh now cs i found ≡ found
unfolding last_fresh
last_fresh-none now [] i found a = refl
last_fresh-none now (c ∷ cs) i found a = ground (arith, last_fresh-none now cs (i + 1) found a.1)

-- Where all confirmations have expired, none is thrown away.
pub cleanup_expired_long_confirms_stale :
    (b : Blocks) (now : Time)
    → AllExpired now b.long_confirms
    → cleanup_expired_long_confirms b now ≡ b
unfolding cleanup_expired_long_confirms
cleanup_expired_long_confirms_stale b now a = rw (last_fresh-none now b.long_confirms 0 0 a) refl

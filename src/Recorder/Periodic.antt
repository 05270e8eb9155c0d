-- ===== src/Recorder/Periodic.antt =====
-- recorder/: the loop of `PeriodicRemove`, which the three recorders share but for their clean-up.
use bitmarkd_broadcast_monit.Common.{
  ℕ, ◌≡◌, refl, Bool, true, false, Option, none, some, List, [], ◌∷◌, ◌++◌, ◌==◌, if◌then◌else◌,
  inl, inr, Bool-cases, Option-cases,
}
use bitmarkd_broadcast_monit.Clock.{Time}
use bitmarkd_broadcast_monit.Clock.Timer.{
  Timer, new_timer, expire, receive, reset, IsPending, expire-receive,
}

-- What the loop is woken by. `elapse`: the time of the timer comes, if it runs; `timer now`: the
-- case of the timer's channel, with the time that its clean-up reads; `shutdown`: the other case.
pub data RemoveEvent : Type 0 where
  elapse shutdown : RemoveEvent
  timer : Time → RemoveEvent

pub record Periodic (S : Type 0) : Type 0 where
  pub recorder : S
  pub clock : Timer
  pub ended : Bool

-- The events of rounds of the timer at these times.
abbrev pub rounds : List Time → List RemoveEvent
rounds [] = []
rounds (now ∷ times) = elapse ∷ timer now ∷ rounds times

module _ {S : Type 0} (cleanup : S → Time → S) where
  -- A case whose channel is empty is not taken.
  abbrev on_timer : Time → Periodic S → Option Timer → Periodic S
  on_timer now p none = p
  on_timer now p (some t) = record p { recorder = cleanup p.recorder now; clock = reset t }

  unfoldable pub remove_event : RemoveEvent → Periodic S → Periodic S
  remove_event elapse p = record p { clock = expire p.clock }
  remove_event shutdown p = record p { ended = true }
  remove_event (timer now) p = if p.ended then p else on_timer now p (receive p.clock)

  unfoldable pub remove_loop : List RemoveEvent → Periodic S → Periodic S
  unfolding remove_event
  remove_loop [] p = p
  remove_loop (e ∷ es) p = remove_loop es (remove_event e p)

  -- `args` is the number of arguments.
  unfoldable pub periodic_remove : ℕ → List RemoveEvent → S → S
  unfolding remove_loop
  periodic_remove args es s =
      if args == 2
      then (remove_loop es (record { recorder = s; clock = new_timer; ended = false })).recorder
      else s

  -- The clean-ups that the rounds of the timer are to make.
  abbrev pub cleaned : List Time → S → S
  cleaned [] s = s
  cleaned (now ∷ times) s = cleaned times (cleanup s now)

  remove_loop-ended :
      (es : List RemoveEvent) (p : Periodic S)
      → p.ended ≡ true
      → (remove_loop es p).recorder ≡ p.recorder
  unfolding remove_loop remove_event
  remove_loop-ended [] p h = refl
  remove_loop-ended (elapse ∷ es) p h = remove_loop-ended es (record p { clock = expire p.clock }) h
  remove_loop-ended (shutdown ∷ es) p h = remove_loop-ended es (record p { ended = true }) refl
  remove_loop-ended (timer now ∷ es) p h =
      rw (remove_loop, remove_event, h) (remove_loop-ended es (record p { ended = true }) refl)

  remove_loop-rounds :
      (times : List Time) (es : List RemoveEvent) (p : Periodic S)
      → p.ended ≡ false
      → IsPending p.clock
      → (remove_loop (rounds times ++ shutdown ∷ es) p).recorder ≡ cleaned times p.recorder
  unfolding remove_loop remove_event
  remove_loop-rounds [] es p e h = remove_loop-ended es (record p { ended = true }) refl
  remove_loop-rounds (now ∷ times) es p e h =
      rw (remove_loop, remove_event, e, expire-receive p.clock h)
        (remove_loop-rounds times es
          (record { recorder = cleanup p.recorder now; clock = new_timer; ended = false }) refl
          (inl (refl, refl)))

  -- Whatever the clean-up, the loop makes one in every round of its timer, at the time of the
  -- round and in order, and none after the shutdown.
  pub periodic_remove-cleaned :
      (times : List Time) (es : List RemoveEvent) (s : S)
      → periodic_remove 2 (rounds times ++ shutdown ∷ es) s ≡ cleaned times s
  unfolding periodic_remove
  periodic_remove-cleaned times es s =
      remove_loop-rounds times es (record { recorder = s; clock = new_timer; ended = false }) refl
        (inl (refl, refl))

  module _ {P : S → Type 0} (keep : (s : S) (now : Time) → P s → P (cleanup s now)) where
    remove_event-keeps :
        (e : RemoveEvent) (p : Periodic S) → P p.recorder → P (remove_event e p).recorder
    unfolding remove_event
    remove_event-keeps elapse p h = h
    remove_event-keeps shutdown p h = h
    remove_event-keeps (timer now) p h = elim (Bool-cases p.ended) [
      | inl e ↦ rw (remove_event, e) h
      | inr e ↦ elim (Option-cases (receive p.clock)) [
        | inl n ↦ rw (remove_event, e, n) h
        | inr (t, g) ↦ rw (remove_event, e, g) (keep p.recorder now h)
      ]
    ]

    remove_loop-keeps :
        (es : List RemoveEvent) (p : Periodic S) → P p.recorder → P (remove_loop es p).recorder
    unfolding remove_loop
    remove_loop-keeps [] p h = h
    remove_loop-keeps (e ∷ es) p h =
        remove_loop-keeps es (remove_event e p) (remove_event-keeps e p h)

    -- Whatever wakes it, the loop keeps what its clean-up keeps.
    pub periodic_remove-keeps :
        (args : ℕ) (es : List RemoveEvent) (s : S) → P s → P (periodic_remove args es s)
    unfolding periodic_remove
    periodic_remove-keeps args es s h = elim (Bool-cases (args == 2)) [
      | inl e ↦
          rw (periodic_remove, e)
            (remove_loop-keeps es (record { recorder = s; clock = new_timer; ended = false }) h)
      | inr e ↦ rw (periodic_remove, e) h
    ]

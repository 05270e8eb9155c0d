-- ===== src/Tasks/Termination.antt =====
-- tasks/task.go: the wait of `Done` comes to an end.
use bitmarkd_broadcast_monit.Common.{
  ℕ, zero, suc, ◌+◌, ◌*◌, ◌<◌, ◌≡◌, ◌≢◌, refl, List, [], ◌∷◌, length, arith, ◌⊎◌, inl, inr,
}
use bitmarkd_broadcast_monit.Tasks.{
  Phase, idle, waiting, signalled, Tasks, Label, go, begin, finish, stop, release, Step, by_go,
  by_begin, by_finish, by_stop, by_release, Run, done, step,
}
use bitmarkd_broadcast_monit.Tasks.Waiting.{WithoutGo}

abbrev pub phases_left : Phase → ℕ
phases_left idle = 2
phases_left waiting = 1
phases_left signalled = 0

-- The steps that are left if no task is started any more.
abbrev pub steps_left : Tasks → ℕ
steps_left s = 2 * s.spawned + s.running + phases_left s.phase

Step-steps_left :
    (l : Label) (s t : Tasks) → Step l s t → l ≢ go → suc (steps_left t) ≡ steps_left s
Step-steps_left go s t by_go n = absurd (n refl)
Step-steps_left begin s t (by_begin e) n = omega (arith, e)
Step-steps_left finish s t (by_finish e) n = omega (arith, e)
Step-steps_left stop s t (by_stop e) n = rw e (omega arith)
Step-steps_left release s t (by_release e r) n = rw e (omega arith)

Run-steps_left :
    (ls : List Label) (s t : Tasks)
    → Run ls s t
    → WithoutGo ls
    → length ls + steps_left t ≡ steps_left s
Run-steps_left [] s t done w = omega arith
Run-steps_left (l ∷ ls) s t (step {t = u} first rest) w =
    omega (arith, Step-steps_left l s u first w.0, Run-steps_left ls u t rest w.1)

-- A step that can be taken, and needs neither a new task nor the end of one.
abbrev pub CanStep : Tasks → Type 0
CanStep s = (l : Label) × (t : Tasks) × Step l s t × (l ≢ go) × (l ≢ finish)

-- `Done` waits, and only for functions that have not returned.
abbrev pub AwaitsTasks : Tasks → Type 0
AwaitsTasks s = (s.phase ≡ waiting) × (s.spawned ≡ 0) × (0 < s.running)

waiting_steps :
    (spawned running : ℕ) (s : Tasks)
    → s.spawned ≡ spawned
    → s.running ≡ running
    → s.phase ≡ waiting
    → CanStep s ⊎ AwaitsTasks s
waiting_steps (suc n) k s e f p = inl (begin, _, by_begin e, (λ q. cc), (λ q. cc))
waiting_steps zero (suc k) s e f p = inr (p, e, omega (arith, f))
waiting_steps zero zero s e f p = inl (release, _, by_release p f, (λ q. cc), (λ q. cc))

progress :
    (p : Phase) (s : Tasks) → s.phase ≡ p → (s.phase ≡ signalled) ⊎ (CanStep s ⊎ AwaitsTasks s)
progress idle s e = inr (inl (stop, _, by_stop e, (λ q. cc), (λ q. cc)))
progress waiting s e = inr (waiting_steps s.spawned s.running s refl refl e)
progress signalled s e = inl e

-- While no task is started, each step uses up one of the steps that are left. Whatever the tasks do,
-- the package is then in one of three states: `Done` has sent its signal; or there is a step to
-- take that needs neither a new task nor the end of one, such as the call of `Done`; or `Done` waits, every goroutine has
-- reached the group, and the function of at least one has not returned.
pub Run-terminates :
    (ls : List Label) (s t : Tasks)
    → Run ls s t
    → WithoutGo ls
    → (length ls + steps_left t ≡ steps_left s)
      × ((t.phase ≡ signalled) ⊎ (CanStep t ⊎ AwaitsTasks t))
Run-terminates ls s t run w = (Run-steps_left ls s t run w, progress t.phase t refl)

-- How often a task comes to its end.
abbrev pub ends : List Label → ℕ
ends [] = 0
ends (finish ∷ ls) = suc (ends ls)
ends (l ∷ ls) = ends ls

-- If fewer tasks come to their end than run at the start, `Done` has not sent its signal, whatever
-- else happens.
pub Run-waits :
    (ls : List Label) (s t : Tasks)
    → Run ls s t
    → s.phase ≢ signalled
    → ends ls < s.running
    → t.phase ≢ signalled
Run-waits [] s t done p h = p
Run-waits (go ∷ ls) s t (step by_go rest) p h = Run-waits ls _ t rest p h
Run-waits (begin ∷ ls) s t (step (by_begin e) rest) p h = Run-waits ls _ t rest p (omega arith)
Run-waits (finish ∷ ls) s t (step (by_finish e) rest) p h =
    Run-waits ls _ t rest p (omega (arith, e, h))
Run-waits (stop ∷ ls) s t (step (by_stop e) rest) p h = Run-waits ls _ t rest (λ q. cc) h
Run-waits (release ∷ ls) s t (step (by_release e r) rest) p h = absurd (omega (arith, r, h))

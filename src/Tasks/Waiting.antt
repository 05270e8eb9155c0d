-- ===== src/Tasks/Waiting.antt =====
-- tasks/task.go: what `Done` waits for.
use bitmarkd_broadcast_monit.Common.{
  ℕ, zero, suc, ◌+◌, ◌≡◌, ◌≢◌, refl, List, [], ◌∷◌, ◌++◌, replicate, arith, ◌⊎◌, inl, inr,
}
use bitmarkd_broadcast_monit.Tasks.{
  idle, waiting, signalled, Tasks, Label, go, begin, finish, stop, release, Step, by_go, by_begin,
  by_finish, by_stop, by_release, Run, done, step,
}

-- No call of `Go` is among the steps.
abbrev pub WithoutGo : List Label → Type 0
WithoutGo [] = Unit {0}
WithoutGo (l ∷ ls) = (l ≢ go) × WithoutGo ls

-- Once no goroutine is on its way to the group, and while none is started, all that ran are
-- accounted for, and `done` has been sent only if none runs.
pub record IsSettled (all : ℕ) (s : Tasks) : Type 0 where
  pub none_spawned : s.spawned ≡ 0
  pub accounted : s.running + s.finished ≡ all
  pub waited : (s.phase ≢ signalled) ⊎ (s.running ≡ 0)

Step-IsSettled :
    (all : ℕ) (l : Label) (s t : Tasks) → Step l s t → l ≢ go → IsSettled all s → IsSettled all t
Step-IsSettled all go s t by_go n i = absurd (n refl)
Step-IsSettled all begin s t (by_begin e) n i = absurd (omega (arith, e, i.none_spawned))
Step-IsSettled all finish s t (by_finish e) n i = record {
  none_spawned = i.none_spawned;
  accounted = omega (arith, e, i.accounted);
  waited = elim i.waited [ inl before ↦ inl before | inr r ↦ absurd (omega (arith, e, r)) ];
}
Step-IsSettled all stop s t (by_stop e) n i = record {
  none_spawned = i.none_spawned;
  accounted = i.accounted;
  waited = inl (λ e. cc);
}
Step-IsSettled all release s t (by_release e r) n i = record {
  none_spawned = i.none_spawned;
  accounted = i.accounted;
  waited = inr r;
}

Run-IsSettled :
    (all : ℕ) (ls : List Label) (s t : Tasks)
    → Run ls s t
    → WithoutGo ls
    → IsSettled all s
    → IsSettled all t
Run-IsSettled all [] s t done w i = i
Run-IsSettled all (l ∷ ls) s t (step {t = u} first rest) w i =
    Run-IsSettled all ls u t rest w.1 (Step-IsSettled all l s u first w.0 i)

-- If no goroutine is on its way to the group when `Done` is called, and none is started after it,
-- then by the time that `done` is sent each task that ran has ended.
pub release_after_all :
    (ls : List Label) (s t : Tasks)
    → Run ls s t
    → WithoutGo ls
    → s.spawned ≡ 0
    → s.phase ≢ signalled
    → t.phase ≡ signalled
    → (t.spawned ≡ 0) × (t.running ≡ 0) × (t.finished ≡ s.running + s.finished)
release_after_all ls s t run w e p q =
    let settled : IsSettled (s.running + s.finished) t =
      Run-IsSettled (s.running + s.finished) ls s t run w
        (record { none_spawned = e; accounted = refl; waited = inl p }) in
    let ended : t.running ≡ 0 = elim settled.waited [
      | inl before ↦ absurd (before q)
      | inr r ↦ r
    ] in
    (settled.none_spawned, ended, omega (arith, settled.accounted, ended))

finishes :
    (n : ℕ) (s : Tasks)
    → s.running ≡ n
    → s.phase ≡ waiting
    → (t : Tasks) × Run (replicate n finish ++ release ∷ []) s t × (t.phase ≡ signalled)
finishes zero s r w = (record s { phase = signalled }, step (by_release w r) done, refl)
finishes (suc n) s r w =
    let next : Tasks = record s { running = n; finished = suc s.finished } in
    let (t, run, q) = finishes n next refl w in (t, step (by_finish r) run, q)

-- From any state in which `Done` has not been called, it can be called, and if the running tasks
-- end one by one then the wait does.
pub stop-release :
    (s : Tasks)
    → s.phase ≡ idle
    → (t : Tasks) × Run (stop ∷ replicate s.running finish ++ release ∷ []) s t
      × (t.phase ≡ signalled)
stop-release s e =
    let (t, run, q) = finishes s.running (record s { phase = waiting }) refl refl in
    (t, step (by_stop e) run, q)

-- While no task runs, one that has just been started is not waited for: `Done` may send on `done`
-- first, and the task then runs.
pub go-overlooked :
    (s : Tasks)
    → s.phase ≡ idle
    → s.running ≡ 0
    → (t : Tasks) × Run (go ∷ stop ∷ release ∷ begin ∷ []) s t
      × (t.phase ≡ signalled)
      × (t.running ≡ 1)
go-overlooked s e r = (
  record s { running = suc s.running; phase = signalled },
  step by_go (step (by_stop e) (step (by_release refl r) (step (by_begin refl) done))),
  refl,
  rw r refl,
)

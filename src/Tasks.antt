-- ===== src/Tasks.antt =====
-- tasks/task.go: the goroutines that are waited for at the end, as a step relation. What a task
-- does is left out: it may end at any time, or block and never end.
use bitmarkd_broadcast_monit.Common.{
  ℕ, zero, suc, ◌+◌, ◌≡◌, refl, ap, sym, ◌∙◌, List, [], ◌∷◌, ◌++◌, Bool, true, false,
}
pub mod Waiting
pub mod Termination
pub mod Tests

-- `Done`: it has not been called, it waits for the group, it has sent on `done`.
pub data Phase : Type 0 where
  idle waiting signalled : Phase

-- `spawned`: goroutines that have not reached `wg.Add(1)`; `running`: those that execute, which is
-- the counter of the wait group; `finished`: those after `wg.Done()`.
pub record Tasks : Type 0 where
  pub spawned : ℕ
  pub running : ℕ
  pub finished : ℕ
  pub phase : Phase

unfoldable pub new_tasks : Tasks
new_tasks = record { spawned = 0; running = 0; finished = 0; phase = idle }

pub data Label : Type 0 where
  go begin finish stop release : Label

-- `go`: a call of `Go`. `begin`: a goroutine calls `wg.Add(1)` and executes. `finish`: its function
-- returns, if it ever does, and `wg.Done()`. `stop`: a call of `Done` up to `wg.Wait()`. `release`: the wait ends,
-- as the counter is 0.
pub data Step : Label → Tasks → Tasks → Type 0 where
  by_go : {s : Tasks} → Step go s (record s { spawned = suc s.spawned })
  by_begin :
      {s : Tasks} {n : ℕ}
      → s.spawned ≡ suc n
      → Step begin s (record s { spawned = n; running = suc s.running })
  by_finish :
      {s : Tasks} {n : ℕ}
      → s.running ≡ suc n
      → Step finish s (record s { running = n; finished = suc s.finished })
  by_stop : {s : Tasks} → s.phase ≡ idle → Step stop s (record s { phase = waiting })
  by_release :
      {s : Tasks}
      → s.phase ≡ waiting
      → s.running ≡ 0
      → Step release s (record s { phase = signalled })

pub data Run : List Label → Tasks → Tasks → Type 0 where
  done : {s : Tasks} → Run [] s s
  step : {l : Label} {ls : List Label} {s t u : Tasks} → Step l s t → Run ls t u → Run (l ∷ ls) s u

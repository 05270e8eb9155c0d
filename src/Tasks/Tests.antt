-- ===== src/Tasks/Tests.antt =====
-- tasks/task.go with two running tasks.
use bitmarkd_broadcast_monit.Common.{arith, ◌≢◌, ◌≡◌, refl, [], ◌∷◌, ◌+◌, ◌⊎◌, length}
use bitmarkd_broadcast_monit.Tasks.{
  idle, waiting, signalled, Tasks, finish, stop, release, by_finish, by_stop, by_release, Run, done,
  step,
}
use bitmarkd_broadcast_monit.Tasks.Termination.{
  steps_left, CanStep, AwaitsTasks, Run-terminates, Run-waits,
}

abbrev two_running : Tasks
two_running = record { spawned = 0; running = 2; finished = 1; phase = idle }

abbrev all_ended : Tasks
all_ended = record { spawned = 0; running = 0; finished = 3; phase = signalled }

to_the_end : Run (finish ∷ stop ∷ finish ∷ release ∷ []) two_running all_ended
to_the_end =
    step (by_finish refl)
      (step (by_stop refl) (step (by_finish refl) (step (by_release refl refl) done)))

Run-terminates_example :
    (length (finish ∷ stop ∷ finish ∷ release ∷ []) + steps_left all_ended ≡ steps_left two_running)
    × ((all_ended.phase ≡ signalled) ⊎ (CanStep all_ended ⊎ AwaitsTasks all_ended))
Run-terminates_example =
    Run-terminates (finish ∷ stop ∷ finish ∷ release ∷ []) two_running all_ended to_the_end
      ((λ e. cc), ((λ e. cc), ((λ e. cc), ((λ e. cc), tt))))

-- One of the two tasks has ended, and `Done` waits for the other.
abbrev one_left : Tasks
one_left = record { spawned = 0; running = 1; finished = 2; phase = waiting }

Run-waits_example : one_left.phase ≢ signalled
Run-waits_example =
    Run-waits (stop ∷ finish ∷ []) two_running one_left
      (step (by_stop refl) (step (by_finish refl) done)) (λ e. cc) (omega arith)

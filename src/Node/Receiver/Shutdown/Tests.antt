-- ===== src/Node/Receiver/Shutdown/Tests.antt =====
-- nodes/node/receiver.go: a shutdown while the poll loop has an event to send.
use bitmarkd_broadcast_monit.Common.{◌≡◌, ◌⊎◌, inr, refl, true, false, [], ◌∷◌}
use bitmarkd_broadcast_monit.Node.Receiver.Shutdown.Closing.{IsSafe, Run-IsSafe, closed-panics}
use bitmarkd_broadcast_monit.Node.Receiver.Shutdown.{
  event, delivering, panicked, returned, Session, new_session, StartStep, find, send_closed, close,
  by_start, by_routine, by_cancel, Run, done, step,
}

-- The receiver returned while the loop was about to send the event of socket 7.
abbrev closed_session : Session
closed_session = record {
  channel = [];
  closed = true;
  cancelled = true;
  signalled = false;
  poll_loop = delivering (event 7 ∷ []);
  routine = returned;
}

abbrev crashed : Session
crashed = record closed_session { poll_loop = panicked }

crash : Run closed_session crashed
crash = step (by_start (send_closed refl refl)) done

shutdown : Run new_session crashed
unfolding new_session
shutdown =
    step (by_start (find (event 7 ∷ []) refl (inr refl)))
      (step by_cancel (step (by_routine (close refl refl)) crash))

Run-IsSafe_example : IsSafe crashed
Run-IsSafe_example = Run-IsSafe crashed shutdown

closed-panics_example :
    (crashed.poll_loop ≡ panicked)
    ⊎ ((crashed.poll_loop ≡ delivering (event 7 ∷ []))
        × ((u : Session) × StartStep crashed u × (u.poll_loop ≡ panicked)))
closed-panics_example = closed-panics closed_session crashed 7 [] refl refl crash

-- ===== src/Network/Poller/Tests.antt =====
-- network/poller.go: one client that is removed while the loop runs, and added again.
use bitmarkd_broadcast_monit.Common.{ℕ, refl, true, false, [], ◌∷◌}
use bitmarkd_broadcast_monit.Network.Poller.{
  Poller, queue_remove, remove, remove_all, remove_socket, remove_client, poll, stop,
  by_remove_client, by_poll, by_stop, Run, done, step,
}
use bitmarkd_broadcast_monit.Network.Poller.Consistent.{IsConsistent, Run-IsConsistent}

-- Client 1 has socket 5, and socket 6 after it has been opened again.
abbrev pub reopened : ℕ → ℕ
reopened client = 6

abbrev pub polling_five : Poller
polling_five = record { sockets = 5 ∷ []; polled = 5 ∷ []; queue = []; group = 0; polling = true }

abbrev queued : Poller
queued = record polling_five { queue = 1 ∷ []; group = 1 }

abbrev pub ended : Poller
ended = record polling_five { polling = false }

pub to_the_end : Run (remove_client 1 ∷ poll ∷ stop reopened ∷ []) polling_five ended
unfolding queue_remove remove remove_all remove_socket
to_the_end = step (by_remove_client 1) (step (by_poll refl) (step (by_stop reopened refl) done))

Run-IsConsistent_example : IsConsistent ended
Run-IsConsistent_example =
    Run-IsConsistent to_the_end (record { same = refl; distinct = (refl, tt); counts = refl })

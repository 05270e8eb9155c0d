-- ===== src/Network/Poller/Waits.antt =====
-- network/poller.go: what `Remove` makes of a later `Add`.
use bitmarkd_broadcast_monit.Common.{ℕ, ◌<◌, ◌≡◌, refl, false, List, [], ◌∷◌, arith, inl, inr, ◌⊎◌}
use bitmarkd_broadcast_monit.Network.Poller.{
  Poller, contains, add_socket, queue_remove, remove_socket, remove_all, remove, Label, add,
  remove_client, Step, by_add, by_remove_client, by_poll, by_stop, Run, done, step,
}

-- Something is queued for removal, or the loop has ended.
abbrev IsHeld : Poller → Type 0
IsHeld p = (0 < p.group) ⊎ (p.polling ≡ false)

Step-IsHeld : {l : Label} {p q : Poller} → Step l p q → IsHeld p → IsHeld q
unfolding add_socket queue_remove
Step-IsHeld {p = p} (by_add socket free) h = ground (arith, free)
Step-IsHeld (by_remove_client client) h = ground arith
Step-IsHeld (by_poll polling) h = h
Step-IsHeld (by_stop socket_of polling) h = inr refl

Run-IsHeld : {ls : List Label} {p q : Poller} → Run ls p q → IsHeld p → IsHeld q
Run-IsHeld done h = h
Run-IsHeld (step s run) h = Run-IsHeld run (Step-IsHeld s h)

-- After a call of `Remove`, no call of `Add` gets past its wait while the loop of `Start` runs, since
-- only the end of that loop removes anything: when an `Add` is made at last, nothing polls any more.
pub add-waits :
    (client socket : ℕ) {ls : List Label} {p q r : Poller}
    → Run (remove_client client ∷ ls) p q
    → Step (add socket) q r
    → q.polling ≡ false
unfolding queue_remove
add-waits client socket (step (by_remove_client _) run) (by_add _ free) =
    elim (Run-IsHeld run (inl (omega arith))) [
      | inl queued ↦ absurd (omega (arith, queued, free))
      | inr ended ↦ ended
    ]

-- A client that has another socket by the time that it is removed keeps its old one in the map and
-- in the zmq poller, if the new one is not known there.
pub remove-reopened :
    (socket_of : ℕ → ℕ) (client : ℕ) (p : Poller)
    → p.queue ≡ client ∷ []
    → contains (socket_of client) p.sockets ≡ false
    → ((remove socket_of p).sockets ≡ p.sockets)
      × ((remove socket_of p).polled ≡ p.polled)
      × ((remove socket_of p).queue ≡ [])
unfolding remove remove_all remove_socket
remove-reopened socket_of client p q new = rw (remove, q, remove_socket, new) (refl, refl, refl)

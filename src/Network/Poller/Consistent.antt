-- ===== src/Network/Poller/Consistent.antt =====
-- network/poller.go: what holds of the poller whatever the order of the calls.
use bitmarkd_broadcast_monit.Common.{
  ℕ, ◌-◌, ◌≡◌, refl, ap, ◌∙◌, false, ◌==◌, List, [], ◌∷◌, length, length-append, arith, Bool-cases,
  inl, inr,
}
use bitmarkd_broadcast_monit.Network.Poller.{
  Poller, contains, delete, add_socket, queue_remove, remove_socket, remove_all, remove, Label,
  Step, by_add, by_remove_client, by_poll, by_stop, Run, done, step,
}

abbrev pub Distinct : List ℕ → Type 0
Distinct [] = Unit {0}
Distinct (n ∷ ns) = (contains n ns ≡ false) × Distinct ns

-- The zmq poller polls just the sockets of the map, each once, and the wait group counts the queue.
pub record IsConsistent (p : Poller) : Type 0 where
  pub same : p.polled ≡ p.sockets
  pub distinct : Distinct p.sockets
  pub counts : p.group ≡ length p.queue

contains-delete : (n k : ℕ) (ns : List ℕ) → contains k ns ≡ false → contains k (delete n ns) ≡ false
contains-delete n k [] h = refl
contains-delete n k (m ∷ ns) h = ground (arith, contains-delete n k ns)

Distinct-delete : (n : ℕ) (ns : List ℕ) → Distinct ns → Distinct (delete n ns)
Distinct-delete n [] d = tt
Distinct-delete n (m ∷ ns) d = elim (Bool-cases (n == m)) [
  | inl e ↦ rw e d.1
  | inr e ↦ rw e (contains-delete n m ns d.0, Distinct-delete n ns d.1)
]

-- The map and the zmq poller agree during a removal, too.
record AreSame (p : Poller) : Type 0 where
  same : p.polled ≡ p.sockets
  distinct : Distinct p.sockets

remove_socket-AreSame : (socket : ℕ) (p : Poller) → AreSame p → AreSame (remove_socket socket p)
unfolding remove_socket
remove_socket-AreSame socket p a = elim (Bool-cases (contains socket p.sockets)) [
  | inl e ↦
      rw (remove_socket, e)
        (record {
          same = ap (delete socket) a.same;
          distinct = Distinct-delete socket p.sockets a.distinct;
        })
  | inr e ↦ rw (remove_socket, e) (record { same = a.same; distinct = a.distinct })
]

remove_all-AreSame :
    (socket_of : ℕ → ℕ) (cs : List ℕ) (p : Poller) → AreSame p → AreSame (remove_all socket_of cs p)
unfolding remove_all
remove_all-AreSame socket_of [] p a = a
remove_all-AreSame socket_of (c ∷ cs) p a =
    remove_all-AreSame socket_of cs (remove_socket (socket_of c) p)
      (remove_socket-AreSame (socket_of c) p a)

group-remove_socket : (socket : ℕ) (p : Poller) → (remove_socket socket p).group ≡ p.group - 1
unfolding remove_socket
group-remove_socket socket p = ground arith

group-remove_all :
    (socket_of : ℕ → ℕ) (cs : List ℕ) (p : Poller)
    → p.group ≡ length cs
    → (remove_all socket_of cs p).group ≡ 0
unfolding remove_all
group-remove_all socket_of [] p h = h
group-remove_all socket_of (c ∷ cs) p h =
    group-remove_all socket_of cs (remove_socket (socket_of c) p)
      (group-remove_socket (socket_of c) p ∙ omega (arith, h))

remove-IsConsistent :
    (socket_of : ℕ → ℕ) (p : Poller) → IsConsistent p → IsConsistent (remove socket_of p)
unfolding remove
remove-IsConsistent socket_of p c =
    let a =
      remove_all-AreSame socket_of p.queue p (record { same = c.same; distinct = c.distinct }) in
    record {
      same = a.same;
      distinct = a.distinct;
      counts = group-remove_all socket_of p.queue p c.counts;
    }

Step-IsConsistent : {l : Label} {p q : Poller} → Step l p q → IsConsistent p → IsConsistent q
unfolding add_socket queue_remove
Step-IsConsistent {p = p} (by_add socket free) c = elim (Bool-cases (contains socket p.sockets)) [
  | inl e ↦ rw (add_socket, e) c
  | inr e ↦
      rw (add_socket, e)
        (record {
          same = ap (λ s. socket ∷ s) c.same;
          distinct = (e, c.distinct);
          counts = c.counts;
        })
]
Step-IsConsistent {p = p} (by_remove_client client) c = record {
  same = c.same;
  distinct = c.distinct;
  counts = omega (arith, c.counts, length-append p.queue (client ∷ []));
}
Step-IsConsistent (by_poll polling) c = c
Step-IsConsistent {p = p} (by_stop socket_of polling) c =
    let r = remove-IsConsistent socket_of p c in
    record { same = r.same; distinct = r.distinct; counts = r.counts }

-- Whatever calls of `Add` and `Remove` interleave with the poll loop and its end, it stays so that
-- the zmq poller polls just the sockets that the map knows, each once, and that the wait group
-- counts the clients that are queued for removal.
pub Run-IsConsistent :
    {ls : List Label} {p q : Poller} → Run ls p q → IsConsistent p → IsConsistent q
Run-IsConsistent done c = c
Run-IsConsistent (step s run) c = Run-IsConsistent run (Step-IsConsistent s c)

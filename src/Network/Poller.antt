-- ===== src/Network/Poller.antt =====
-- network/poller.go: the sockets that are polled, and the queue of those to be removed. The calls of
-- `Add` and `Remove`, and the goroutine of `Start`, are steps that interleave; a call that waits for
-- the group is a step that is not enabled.
use bitmarkd_broadcast_monit.Common.{
  ℕ, zero, suc, ◌+◌, ◌-◌, ◌≡◌, ◌≢◌, refl, Bool, true, false, not, ◌||◌, ◌==◌, Option, none, some,
  List, [], ◌∷◌, ◌++◌, length, if◌then◌else◌,
}
pub mod Consistent
pub mod Waits
pub mod Tests

-- A socket is a number; nil, which a client without a socket has by the time of a removal, is one
-- that no socket has.
-- `sockets` are the keys of the map, `polled` the sockets of the zmq poller less the receiver of the
-- signal pair, `queue` the clients in `removeQueue`, `group` the counter of the wait group, and
-- `polling` whether the loop of `Start` still runs. A client is a number too.
pub record Poller : Type 0 where
  pub sockets : List ℕ
  pub polled : List ℕ
  pub queue : List ℕ
  pub group : ℕ
  pub polling : Bool

unfoldable pub new_poller : Poller
new_poller = record { sockets = []; polled = []; queue = []; group = 0; polling = true }

abbrev pub contains : ℕ → List ℕ → Bool
contains n [] = false
contains n (k ∷ ks) = n == k || contains n ks

abbrev pub delete : ℕ → List ℕ → List ℕ
delete n [] = []
delete n (k ∷ ks) = if n == k then ks else k ∷ delete n ks

-- `Add` after its wait: `socket` is the one that the client has by then. A call for a client without a
-- socket is left out: the library dereferences the nil that it is given.
unfoldable pub add_socket : ℕ → Poller → Poller
add_socket socket p =
    if contains socket p.sockets
    then p
    else record p { sockets = socket ∷ p.sockets; polled = socket ∷ p.polled }

unfoldable pub queue_remove : ℕ → Poller → Poller
queue_remove client p = record p { queue = p.queue ++ client ∷ []; group = p.group + 1 }

-- One round of the loop of `remove`.
unfoldable pub remove_socket : ℕ → Poller → Poller
remove_socket socket p =
    if not (contains socket p.sockets) then record p { group = p.group - 1 } else record p {
      sockets = delete socket p.sockets;
      polled = delete socket p.polled;
      group = p.group - 1;
    }

unfoldable pub remove_all : (ℕ → ℕ) → List ℕ → Poller → Poller
unfolding remove_socket
remove_all socket_of [] p = p
remove_all socket_of (c ∷ cs) p = remove_all socket_of cs (remove_socket (socket_of c) p)

-- `remove`; `socket_of` is the socket that each client has by then.
unfoldable pub remove : (ℕ → ℕ) → Poller → Poller
unfolding remove_all
remove socket_of p = record (remove_all socket_of p.queue p) { queue = [] }

-- What another goroutine, or the environment, does to the poller. `add` is a call of `Add` that gets
-- past its wait; `poll` is a turn of the loop of `Start` whose events all go to the channel; `stop`
-- is one that finds the stop signal, or whose poll fails, with the removal that follows the loop.
pub data Label : Type 0 where
  add remove_client : ℕ → Label
  poll : Label
  stop : (ℕ → ℕ) → Label

pub data Step : Label → Poller → Poller → Type 0 where
  by_add : {p : Poller} (socket : ℕ) → p.group ≡ 0 → Step (add socket) p (add_socket socket p)
  by_remove_client :
      {p : Poller} (client : ℕ) → Step (remove_client client) p (queue_remove client p)
  by_poll : {p : Poller} → p.polling ≡ true → Step poll p p
  by_stop :
      {p : Poller} (socket_of : ℕ → ℕ)
      → p.polling ≡ true
      → Step (stop socket_of) p (record (remove socket_of p) { polling = false })

pub data Run : List Label → Poller → Poller → Type 0 where
  done : {p : Poller} → Run [] p p
  step : {l : Label} {ls : List Label} {p q r : Poller} → Step l p q → Run ls q r → Run (l ∷ ls) p r

-- ===== src/Node/Receiver/Shutdown.antt =====
-- nodes/node/receiver.go with network/poller.go: the channel of events between the poll loop and the
-- receiver, up to and after the end of the program's context. The goroutines are `poller.Start`,
-- `waitShutdownEvent` and `receiverRoutine`; their steps interleave. A send on a full channel waits:
-- its step is not enabled. The second that `Start` lets pass after each event is left out.
pub mod Closing
mod Tests
use bitmarkd_broadcast_monit.Common.{
  ℕ, ◌+◌, ◌≤◌, ◌<◌, ◌≡◌, ◌≢◌, refl, ◌⊎◌, inl, inr, Bool, true, false, List, [], ◌∷◌, ◌++◌, arith,
  length, length-append,
}

abbrev pub event_channel_size : ℕ
event_channel_size = 100

-- A socket that `Poll` found ready: that of a client, or the receiver of the signal pair.
pub data Polled : Type 0 where
  event : ℕ → Polled
  signal : Polled

-- The loop of `Start`: in `Poll`, in the loop over what it found, after the loop, or stopped by a
-- send on a closed channel.
pub data Polling : Type 0 where
  polling : Polling
  delivering : List Polled → Polling
  ended panicked : Polling

-- `receiverRoutine`: in its `select`, in `resetTimer` after a time-out, or returned.
pub data Routine : Type 0 where
  selecting blocked returned : Routine

-- `cancelled`: the context is done. `signalled`: `waitShutdownEvent` has called `stop`.
pub record Session : Type 0 where
  pub channel : List ℕ
  pub closed : Bool
  pub cancelled : Bool
  pub signalled : Bool
  pub poll_loop : Polling
  pub routine : Routine

unfoldable pub new_session : Session
new_session = record {
  channel = [];
  closed = false;
  cancelled = false;
  signalled = false;
  poll_loop = polling;
  routine = selecting;
}

abbrev pub has_signal : List Polled → Bool
has_signal [] = false
has_signal (event e ∷ es) = has_signal es
has_signal (signal ∷ es) = true

-- The steps of `Start`. The signal is found only after it was sent.
pub data StartStep : Session → Session → Type 0 where
  find :
      {s : Session} (found : List Polled)
      → s.poll_loop ≡ polling
      → (s.signalled ≡ true) ⊎ (has_signal found ≡ false)
      → StartStep s (record s { poll_loop = delivering found })
  fail : {s : Session} → s.poll_loop ≡ polling → StartStep s (record s { poll_loop = ended })
  again :
      {s : Session} → s.poll_loop ≡ delivering [] → StartStep s (record s { poll_loop = polling })
  break :
      {s : Session} {es : List Polled}
      → s.poll_loop ≡ delivering (signal ∷ es)
      → StartStep s (record s { poll_loop = ended })
  send :
      {s : Session} {e : ℕ} {es : List Polled}
      → s.poll_loop ≡ delivering (event e ∷ es)
      → s.closed ≡ false
      → length s.channel < event_channel_size
      → StartStep s (record s { channel = s.channel ++ e ∷ []; poll_loop = delivering es })
  send_closed :
      {s : Session} {e : ℕ} {es : List Polled}
      → s.poll_loop ≡ delivering (event e ∷ es)
      → s.closed ≡ true
      → StartStep s (record s { poll_loop = panicked })

-- The steps of `receiverRoutine`. An event that cannot be read is as good as received; what `process`
-- does with it is left to its own model. `resetTimer` after a time-out never returns.
pub data RoutineStep : Session → Session → Type 0 where
  receive :
      {s : Session} {e : ℕ} {es : List ℕ}
      → s.routine ≡ selecting
      → s.channel ≡ e ∷ es
      → RoutineStep s (record s { channel = es })
  time_out : {s : Session} → s.routine ≡ selecting → RoutineStep s (record s { routine = blocked })
  close :
      {s : Session}
      → s.routine ≡ selecting
      → s.cancelled ≡ true
      → RoutineStep s (record s { closed = true; routine = returned })

-- The context may be done at any time.
pub data Step : Session → Session → Type 0 where
  by_start : {s t : Session} → StartStep s t → Step s t
  by_routine : {s t : Session} → RoutineStep s t → Step s t
  by_cancel : {s : Session} → Step s (record s { cancelled = true })
  by_signal : {s : Session} → s.cancelled ≡ true → Step s (record s { signalled = true })

pub data Run : Session → Session → Type 0 where
  done : {s : Session} → Run s s
  step : {s t u : Session} → Step s t → Run t u → Run s u

-- ===== src/Node/Receiver/Shutdown/Closing.antt =====
-- nodes/node/receiver.go with network/poller.go: what the close of the channel of events does.
use bitmarkd_broadcast_monit.Common.{
  ℕ, ◌≤◌, ◌≡◌, refl, ap, ◌⊎◌, inl, inr, Bool, true, false, List, [], ◌∷◌, arith, length,
  length-append,
}
use bitmarkd_broadcast_monit.Node.Receiver.Shutdown.{
  event_channel_size, Polled, event, Polling, delivering, panicked, returned, Session, new_session,
  StartStep, find, fail, again, break, send, send_closed, RoutineStep, receive, time_out, close,
  Step, by_start, by_routine, by_cancel, by_signal, Run, done, step,
}

abbrev pub has_panicked : Polling → Bool
has_panicked panicked = true
has_panicked _ = false

-- The channel holds at most its size; it is closed only by the receiver, which then has returned,
-- and only after the context is done; the poll loop panics only on the closed channel.
pub record IsSafe (s : Session) : Type 0 where
  pub bounded : length s.channel ≤ event_channel_size
  pub asked : (s.closed ≡ false) ⊎ ((s.cancelled ≡ true) × (s.routine ≡ returned))
  pub alive : (has_panicked s.poll_loop ≡ false) ⊎ (s.closed ≡ true)

StartStep-IsSafe : (s t : Session) → StartStep s t → IsSafe s → IsSafe t
StartStep-IsSafe s t (find found at may) i = record {
  bounded = i.bounded;
  asked = i.asked;
  alive = inl refl;
}
StartStep-IsSafe s t (fail at) i = record { bounded = i.bounded; asked = i.asked; alive = inl refl }
StartStep-IsSafe s t (again at) i = record {
  bounded = i.bounded;
  asked = i.asked;
  alive = inl refl;
}
StartStep-IsSafe s t (break at) i = record {
  bounded = i.bounded;
  asked = i.asked;
  alive = inl refl;
}
StartStep-IsSafe s t (send {e = e} at not_closed room) i = record {
  bounded = omega (arith, length-append s.channel (e ∷ []));
  asked = i.asked;
  alive = inl refl;
}
StartStep-IsSafe s t (send_closed at closed) i = record {
  bounded = i.bounded;
  asked = i.asked;
  alive = inr closed;
}

RoutineStep-IsSafe : (s t : Session) → RoutineStep s t → IsSafe s → IsSafe t
RoutineStep-IsSafe s t (receive {e = e} {es} at more) i = record {
  bounded = omega (arith, i.bounded, ap length more);
  asked = i.asked;
  alive = i.alive;
}
RoutineStep-IsSafe s t (time_out at) i = record {
  bounded = i.bounded;
  asked = elim i.asked [
    | inl not_closed ↦ inl not_closed
    | inr (_, r) ↦ absurd (ground (arith, at, r))
  ];
  alive = i.alive;
}
RoutineStep-IsSafe s t (close at cancelled) i = record {
  bounded = i.bounded;
  asked = inr (cancelled, refl);
  alive = inr refl;
}

Step-IsSafe : (s t : Session) → Step s t → IsSafe s → IsSafe t
Step-IsSafe s t (by_start x) i = StartStep-IsSafe s t x i
Step-IsSafe s t (by_routine x) i = RoutineStep-IsSafe s t x i
Step-IsSafe s t by_cancel i = record {
  bounded = i.bounded;
  asked = elim i.asked [ inl not_closed ↦ inl not_closed | inr (_, r) ↦ inr (refl, r) ];
  alive = i.alive;
}
Step-IsSafe s t (by_signal cancelled) i = record {
  bounded = i.bounded;
  asked = i.asked;
  alive = i.alive;
}

IsSafe-Run : (s t : Session) → Run s t → IsSafe s → IsSafe t
IsSafe-Run s t done i = i
IsSafe-Run s t (step {t = u} x rest) i = IsSafe-Run u t rest (Step-IsSafe s u x i)

-- From the start on, in whatever order the goroutines take their steps: the channel of events holds
-- at most a hundred, it is closed only by the receiver, which has then returned, after the context
-- is done, and the poll loop panics only on the closed channel.
pub Run-IsSafe : (s : Session) → Run new_session s → IsSafe s
unfolding new_session
Run-IsSafe s run =
    IsSafe-Run new_session s run
      (record { bounded = omega arith; asked = inl refl; alive = inl refl })

-- The channel is closed, and the loop is about to send an event, or has panicked.
AtClosed : Polled → List Polled → Session → Type 0
AtClosed e es s =
    (s.closed ≡ true) × ((s.poll_loop ≡ delivering (e ∷ es)) ⊎ (s.poll_loop ≡ panicked))

StartStep-AtClosed :
    (s t : Session) (e : ℕ) (es : List Polled)
    → StartStep s t
    → AtClosed (event e) es s
    → AtClosed (event e) es t
unfolding AtClosed
StartStep-AtClosed s t e es (find found at may) (c, p) = absurd (ground (arith, p, at))
StartStep-AtClosed s t e es (fail at) (c, p) = absurd (ground (arith, p, at))
StartStep-AtClosed s t e es (again at) (c, p) = absurd (ground (arith, p, at))
StartStep-AtClosed s t e es (break at) (c, p) = absurd (ground (arith, p, at))
StartStep-AtClosed s t e es (send at not_closed room) (c, p) =
    absurd (ground (arith, c, not_closed))
StartStep-AtClosed s t e es (send_closed at closed) (c, p) = (c, inr refl)

Step-AtClosed :
    (s t : Session) (e : ℕ) (es : List Polled)
    → Step s t
    → AtClosed (event e) es s
    → AtClosed (event e) es t
unfolding AtClosed
Step-AtClosed s t e es (by_start x) h = StartStep-AtClosed s t e es x h
Step-AtClosed s t e es (by_routine (receive at more)) h = h
Step-AtClosed s t e es (by_routine (time_out at)) h = h
Step-AtClosed s t e es (by_routine (close at cancelled)) (c, p) = (refl, p)
Step-AtClosed s t e es by_cancel h = h
Step-AtClosed s t e es (by_signal cancelled) h = h

Run-AtClosed :
    (s t : Session) (e : ℕ) (es : List Polled)
    → Run s t
    → AtClosed (event e) es s
    → AtClosed (event e) es t
Run-AtClosed s t e es done h = h
Run-AtClosed s t e es (step {t = u} x rest) h =
    Run-AtClosed u t e es rest (Step-AtClosed s u e es x h)

-- If the poll loop still has an event to send when the receiver has closed the channel, then
-- whatever steps follow, the loop has panicked, or it is still at that event, and a step that it can
-- take is a panic.
pub closed-panics :
    (s t : Session) (e : ℕ) (es : List Polled)
    → s.closed ≡ true
    → s.poll_loop ≡ delivering (event e ∷ es)
    → Run s t
    → (t.poll_loop ≡ panicked)
      ⊎ ((t.poll_loop ≡ delivering (event e ∷ es))
          × ((u : Session) × StartStep t u × (u.poll_loop ≡ panicked)))
unfolding AtClosed
closed-panics s t e es c p run =
    let (c', p') = Run-AtClosed s t e es run (c, inl p) in
    elim p' [ inl waits ↦ inr (waits, (_, send_closed waits c', refl)) | inr over ↦ inl over ]

-- ===== src/Node/Receiver/Routine.antt =====
-- nodes/node/receiver.go: the loop of `receiverRoutine` and its timer. What the loop is woken by is
-- a list of events, in the order in which `select` takes them; the messages are left to `process`.
use bitmarkd_broadcast_monit.Common.{
  ◌≡◌, refl, Option, none, some, List, [], ◌∷◌, inl, arith, if◌then◌else◌, ◌++◌,
}
use bitmarkd_broadcast_monit.Clock.Timer.{
  Timer, new_timer, expire, receive, stop, reset, IsPending, expire-IsPending,
}

-- `resetTimer`; `none` is a routine that is blocked for ever.
unfoldable pub reset_timer : Timer → Option Timer
reset_timer t =
    let (was_active, t') = stop t in
    if was_active
    then some (reset t')
    else elim (receive t') [ none ↦ none | some t'' ↦ some (reset t'') ]

-- `message`: a message that was received; `receive_error`: a socket that gave an error;
-- `elapse`: the time of the timer comes, if it runs; `timeout`: the case of the timer's channel,
-- which is not taken while the channel is empty.
pub data Event : Type 0 where
  message receive_error elapse timeout : Event

-- One turn of the loop, or the passing of time.
unfoldable pub on_event : Event → Timer → Option Timer
unfolding reset_timer
on_event message t = reset_timer t
on_event receive_error t = some t
on_event elapse t = some (expire t)
on_event timeout t = elim (receive t) [ none ↦ some t | some t' ↦ reset_timer t' ]

unfoldable pub routine : List Event → Timer → Option Timer
unfolding on_event
routine [] t = some t
routine (e ∷ rest) t = elim (on_event e t) [ none ↦ none | some t' ↦ routine rest t' ]

pub data WithoutTimeout : List Event → Type 0 where
  no_event : WithoutTimeout []
  on_message : {es : List Event} → WithoutTimeout es → WithoutTimeout (message ∷ es)
  on_error : {es : List Event} → WithoutTimeout es → WithoutTimeout (receive_error ∷ es)
  on_elapse : {es : List Event} → WithoutTimeout es → WithoutTimeout (elapse ∷ es)

reset_timer-IsPending : (t : Timer) → IsPending t → reset_timer t ≡ some new_timer
unfolding reset_timer
reset_timer-IsPending t p = ground arith

-- As long as the loop never takes the case of the timer, it is never blocked, and the timer is
-- running or holds its value unread.
pub routine-WithoutTimeout :
    (es : List Event) (t : Timer)
    → WithoutTimeout es
    → IsPending t
    → (t' : Timer) × (routine es t ≡ some t') × IsPending t'
unfolding routine on_event
routine-WithoutTimeout [] t no_event p = (t, refl, p)
routine-WithoutTimeout (message ∷ es) t (on_message w) p =
    let (t', e, p') = routine-WithoutTimeout es new_timer w (inl (refl, refl)) in
    (t', rw (routine, reset_timer-IsPending t p) e, p')
routine-WithoutTimeout (receive_error ∷ es) t (on_error w) p = routine-WithoutTimeout es t w p
routine-WithoutTimeout (elapse ∷ es) t (on_elapse w) p =
    routine-WithoutTimeout es (expire t) w (expire-IsPending t p)
routine-WithoutTimeout (timeout ∷ es) t w p = elim w [ ]

-- The first time that the timer runs out and the loop notices blocks the loop for ever, whatever
-- comes after: `resetTimer` waits for a second value of the channel.
pub routine_blocks :
    (es rest : List Event) (t : Timer)
    → WithoutTimeout es
    → IsPending t
    → routine (es ++ elapse ∷ timeout ∷ rest) t ≡ none
unfolding routine on_event
routine_blocks [] rest t no_event p = ground (arith, reset_timer)
routine_blocks (message ∷ es) rest t (on_message w) p =
    rw (routine, reset_timer-IsPending t p) (routine_blocks es rest new_timer w (inl (refl, refl)))
routine_blocks (receive_error ∷ es) rest t (on_error w) p = routine_blocks es rest t w p
routine_blocks (elapse ∷ es) rest t (on_elapse w) p =
    routine_blocks es rest (expire t) w (expire-IsPending t p)
routine_blocks (timeout ∷ es) rest t w p = elim w [ ]

-- ===== src/Node/Sender/Asking.antt =====
-- nodes/node/sender.go: how long a sender goes on asking.
use bitmarkd_broadcast_monit.Common.{
  ◌≡◌, refl, sym, ◌∙◌, true, false, none, some, List, [], ◌∷◌, ◌++◌, arith, inl, append_assoc,
  append-nil,
}
use bitmarkd_broadcast_monit.Clock.Timer.{Timer, expire-receive, IsPending}
use bitmarkd_broadcast_monit.Communication.{InfoResponse}
use bitmarkd_broadcast_monit.Node.Sender.{
  Request, ask_info, ask_block_header, Event, elapse, shutdown, timeout, Sender, sender_event,
  sender_loop,
}

-- A timer that does not run and whose channel is empty: it never fires again by itself.
abbrev pub IsStopped : Timer → Type 0
IsStopped t = (t.active ≡ false) × (t.fired ≡ false)

sender_event-IsStopped :
    (e : Event) (s : Sender)
    → IsStopped s.timer
    → IsStopped (sender_event e s).timer × ((sender_event e s).requests ≡ s.requests)
unfolding sender_event
sender_event-IsStopped elapse s h = ground arith
sender_event-IsStopped shutdown s h = ground arith
sender_event-IsStopped (timeout info) s h = ground arith

sender_loop-IsStopped :
    (es : List Event) (s : Sender) → IsStopped s.timer → (sender_loop es s).requests ≡ s.requests
unfolding sender_loop
sender_loop-IsStopped [] s h = refl
sender_loop-IsStopped (e ∷ es) s h =
    let (h', same) = sender_event-IsStopped e s h in
    sender_loop-IsStopped es (sender_event e s) h' ∙ same

-- A sender whose timer runs asks for the height when the time has come. If that fails it asks
-- nothing more, whatever happens after.
pub sender_loop_stalls :
    (s : Sender) (es : List Event)
    → s.returned ≡ false
    → IsPending s.timer
    → (sender_loop (elapse ∷ timeout none ∷ es) s).requests ≡ s.requests ++ ask_info ∷ []
unfolding sender_loop sender_event
sender_loop_stalls s es r p =
    rw (sender_loop, sender_event, r, expire-receive s.timer p)
      (sender_loop-IsStopped es _ (refl, refl))

-- The events of rounds in which the node answers.
abbrev pub rounds : List InfoResponse → List Event
rounds [] = []
rounds (info ∷ infos) = elapse ∷ timeout (some info) ∷ rounds infos

-- What is to be asked in them.
abbrev pub asked : List InfoResponse → List Request
asked [] = []
asked (info ∷ infos) = ask_info ∷ ask_block_header info.height ∷ asked infos

-- As long as the node answers, the sender asks in each round for the height and then for the block
-- at the height that it was told, and its timer runs.
pub sender_loop-rounds :
    (infos : List InfoResponse) (s : Sender)
    → s.returned ≡ false
    → IsPending s.timer
    → ((sender_loop (rounds infos) s).requests ≡ s.requests ++ asked infos)
      × IsPending (sender_loop (rounds infos) s).timer
unfolding sender_loop sender_event
sender_loop-rounds [] s r p = (sym (append-nil s.requests), p)
sender_loop-rounds (info ∷ infos) s r p =
    let turn : Sender = record {
      timer = record { active = true; fired = false };
      requests = s.requests ++ ask_info ∷ ask_block_header info.height ∷ [];
      returned = false;
    } in
    let (all, running) = sender_loop-rounds infos turn refl (inl (refl, refl)) in
    rw (sender_loop, sender_event, r, expire-receive s.timer p)
      (
        all ∙ append_assoc s.requests (ask_info ∷ ask_block_header info.height ∷ []) (asked infos),
        running,
      )

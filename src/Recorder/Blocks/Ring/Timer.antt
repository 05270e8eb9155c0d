-- ===== src/Recorder/Blocks/Ring/Timer.antt =====
-- recorder/blocks.go: what the timer's clean-up does to the queue that the array holds.
use bitmarkd_broadcast_monit.Common.{
  ℕ, ◌+◌, ◌-◌, ◌≤◌, ◌<◌, ◌≡◌, ◌≢◌, refl, sym, subst, ap, ◌∙◌, ◌⊎◌, inl, inr, true, none, List, [],
  ◌∷◌, ◌++◌, arith, append-nil, Bool-cases, length, length-append, get_or,
}
use bitmarkd_broadcast_monit.Clock.{Time, after}
use bitmarkd_broadcast_monit.Recorder.Blocks.{
  data_length, zero_block, BlockData, Blocks, add, find_fresh, keep_window, cleanup_expired_blocks,
  cleanup_expired_forks, cleanup_expired_long_confirms, cleanup,
}
use bitmarkd_broadcast_monit.Recorder.Blocks.Ascending.{padded}
use bitmarkd_broadcast_monit.Recorder.Blocks.Cleanup.{
  expiry, kept_blocks, keep_window_lem, cleanup-IsValid,
}
use bitmarkd_broadcast_monit.Recorder.Blocks.Invariant.{IsValid, add-none_iff}
use bitmarkd_broadcast_monit.Recorder.Blocks.Overrun.{
  final, final-get_or, cleanup-id, cleanup-overrun,
}
use bitmarkd_broadcast_monit.Recorder.Blocks.Ring.Expiring.{
  AreFilled, AreFilled-append, append-AreFilled, recorded-free, recorded-AreFilled,
  length-received_after, cleanup-recorded, AreStale, AreStale-last, received_after-stale,
  received_after-append_stale, find_fresh-append_stale, Window-append_stale, InOrder-append,
  final-first, final-append,
}
use bitmarkd_broadcast_monit.Recorder.Blocks.Ring.{Holds, Filling, Wrapped}
use bitmarkd_broadcast_monit.Recorder.Blocks.Window.{
  recorded, received_after, InOrder, Window, find_fresh-none,
}

cleanup-slots :
    (b : Blocks) (now : Time) → (cleanup b now).slots ≡ (cleanup_expired_blocks b now).slots
unfolding cleanup cleanup_expired_forks cleanup_expired_long_confirms
cleanup-slots b now = ground arith

Holds-same :
    (b c : Blocks) (q : List BlockData) → c.slots ≡ b.slots → c.id ≡ b.id → Holds b q → Holds c q
Holds-same b c q s i (inl f) =
    inl (record { slots = s ∙ f.slots; index = i ∙ f.index; room = f.room })
Holds-same b c q s i (inr w) = inr (record {
  older = w.older;
  newer = w.newer;
  queue = w.queue;
  slots = s ∙ w.slots;
  index = i ∙ w.index;
  room = w.room;
  full = w.full;
})

module _ (b : Blocks) (now : Time) (q : List BlockData) where
  -- Nothing is fresh and the queue stays; or the fresh blocks stay; or the next slot is past the
  -- array.
  abbrev pub Cleaned : Type 0
  Cleaned =
      ((received_after (expiry now) q ≡ []) × Holds (cleanup b now) q)
      ⊎ (((received_after (expiry now) q ≢ [])
            × Holds (cleanup b now) (received_after (expiry now) q))
          ⊎ (data_length ≤ (cleanup b now).id))

  stays :
      Holds b q → received_after (expiry now) q ≡ [] → cleanup_expired_blocks b now ≡ b → Cleaned
  stays h empty same = inl (
    empty,
    Holds-same b (cleanup b now) q (cleanup-slots b now ∙ ap (λ c. c.slots) same)
        (cleanup-id b now ∙ ap (λ c. c.id) same) h,
  )

  refilled :
      (fresh : List BlockData)
      → received_after (expiry now) q ≡ fresh
      → fresh ≢ []
      → (cleanup_expired_blocks b now).slots ≡ padded fresh
      → (cleanup_expired_blocks b now).id ≡ length fresh
      → (length fresh < data_length) ⊎ (data_length ≤ length fresh)
      → Cleaned
  refilled fresh e some_fresh slots id (inl room) = inr (
      inl (
        (λ none_fresh. some_fresh (sym e ∙ none_fresh)),
        subst (Holds (cleanup b now)) (sym e) (
            inl (record {
              slots = cleanup-slots b now ∙ slots;
              index = cleanup-id b now ∙ id;
              room = room;
            })),
      ))
  refilled fresh e some_fresh slots id (inr full) = inr (inr (omega (arith, cleanup-id b now, id)))

  -- The recorded blocks are the queue.
  in_order-Cleaned : IsValid b → Holds b q → recorded b.slots ≡ q → InOrder q → Cleaned
  in_order-Cleaned v h same o = elim (cleanup-recorded b now q v same o) [
    | inl (empty, stay) ↦ stays h empty stay
    | inr (some_fresh, slots, id) ↦
        refilled (received_after (expiry now) q) refl some_fresh slots id (below_or_above _)
  ]
    where
      below_or_above : (n : ℕ) → (n < data_length) ⊎ (data_length ≤ n)
      below_or_above n = ground arith

  module _ (v : IsValid b) (newer older : List BlockData) (queue : q ≡ older ++ newer)
      (slots : b.slots ≡ newer ++ older) (index : b.id ≡ length newer)
      (room : length newer < data_length) (full : length newer + length older ≡ data_length)
      (f : AreFilled newer) (g : AreFilled older) (o : InOrder (older ++ newer)) where
    -- Of a queue whose older part is stale, the fresh blocks are those of the newer part.
    older_stale : Holds b q → AreStale (expiry now) older → Cleaned
    unfolding cleanup_expired_blocks
    older_stale h s = elim (find_fresh-none t newer 0 in_order) [
      | inl (e, none_found) ↦
          let skips : find_fresh t b.slots 0 none ≡ none =
            ap (λ l. find_fresh t l 0 none) slots
            ∙ find_fresh-append_stale t newer older 0 none f s
            ∙ none_found in
          stays h (freshest ∙ e) (rw (cleanup_expired_blocks, skips, keep_window) refl)
      | inr w ↦
          let w' : Window t b.slots 0 =
            subst (λ l. Window t l 0) (sym slots) (Window-append_stale t newer older f g s w) in
          let (slots', id') = keep_window_lem b now v w' in
          refilled (kept_blocks b now) (freshest ∙ sym kept)
            (λ none_kept. omega (arith, w.held, ap length (sym kept ∙ none_kept))) slots' id'
            (inl (
              omega (
                arith,
                ap length kept,
                ap length (recorded-AreFilled newer f),
                length-received_after t (recorded newer),
              )))
    ]
      where
        t : Time
        t = expiry now

        in_order : InOrder (recorded newer)
        in_order = subst InOrder (sym (recorded-AreFilled newer f)) (InOrder-append older newer o).1

        freshest : received_after t q ≡ received_after t (recorded newer)
        freshest =
            ap (received_after t) queue
            ∙ received_after-stale t older newer s
            ∙ ap (received_after t) (sym (recorded-AreFilled newer f))

        kept : kept_blocks b now ≡ received_after t (recorded newer)
        kept =
            ap (λ l. received_after t (recorded l)) slots
            ∙ ap (received_after t)
                (recorded-AreFilled (newer ++ older) (append-AreFilled newer older f g))
            ∙ received_after-append_stale t newer older s
            ∙ ap (received_after t) (sym (recorded-AreFilled newer f))

  -- The array has wrapped around, and its last slot is fresh.
  last_slot_fresh :
      (n : BlockData) (ns : List BlockData) (m : BlockData) (ms : List BlockData)
      → b.slots ≡ n ∷ ns ++ m ∷ ms
      → b.id < data_length
      → length (n ∷ ns) + length (m ∷ ms) ≡ data_length
      → AreFilled (n ∷ ns ++ m ∷ ms)
      → InOrder (m ∷ ms ++ n ∷ ns)
      → after (final m ms).received_time (expiry now) ≡ true
      → data_length ≤ (cleanup b now).id
  last_slot_fresh n ns m ms s below full f o late =
      (cleanup-overrun b now (n ∷ ns ++ m ∷ ms) s (length-append (n ∷ ns) (m ∷ ms) ∙ full) below).1
        (
          ap length (recorded-AreFilled (n ∷ ns ++ m ∷ ms) f),
          ground (arith, final-first m ms n ns o),
          ap (λ c. after c.received_time (expiry now)) last ∙ late,
        )
    where
      last : get_or (n ∷ ns ++ m ∷ ms) 99 zero_block ≡ final m ms
      last =
          ap (λ i. get_or (n ∷ ns ++ m ∷ ms) i zero_block) {x = 99} {y = length (ns ++ m ∷ ms)}
            (omega (arith, full, length-append ns (m ∷ ms)))
          ∙ final-get_or n (ns ++ m ∷ ms)
          ∙ final-append m ms n ns

  wrapped-Cleaned : IsValid b → (w : Wrapped b q) → AreFilled q → InOrder q → Cleaned
  wrapped-Cleaned v w f o = from w.newer w.older w.queue w.slots w.index w.room w.full
    where
      from :
          (newer older : List BlockData)
          → q ≡ older ++ newer
          → b.slots ≡ newer ++ older
          → b.id ≡ length newer
          → length newer < data_length
          → length newer + length older ≡ data_length
          → Cleaned
      from newer [] queue slots index room full = absurd (omega (arith, room, full))
      from [] (m ∷ ms) queue slots index room full =
          let whole : q ≡ m ∷ ms = queue ∙ append-nil (m ∷ ms) in
          let same : recorded b.slots ≡ q =
            ap recorded (slots ∙ sym whole) ∙ recorded-AreFilled q f in
          in_order-Cleaned v (inr w) same o
      from (n ∷ ns) (m ∷ ms) queue slots index room full =
          let o' : InOrder (m ∷ ms ++ n ∷ ns) = subst InOrder queue o in
          let (g, h) = AreFilled-append (m ∷ ms) (n ∷ ns) (subst AreFilled queue f) in
          elim (Bool-cases (after (final m ms).received_time (expiry now))) [
            | inl late ↦ inr (
                inr (
                  last_slot_fresh n ns m ms slots (omega (arith, index, room)) full
                    (append-AreFilled (n ∷ ns) (m ∷ ms) h g) o' late))
            | inr stale ↦
                older_stale v (n ∷ ns) (m ∷ ms) queue slots index room full h g o' (inr w)
                  (AreStale-last (expiry now) m ms (InOrder-append (m ∷ ms) (n ∷ ns) o').0 stale)
          ]

  filling-Cleaned : IsValid b → (w : Filling b q) → AreFilled q → InOrder q → Cleaned
  filling-Cleaned v w f o =
      in_order-Cleaned v (inl w) (ap recorded w.slots ∙ recorded-free q (data_length - length q) f)
        o

  Holds-Cleaned : IsValid b → Holds b q → AreFilled q → InOrder q → Cleaned
  Holds-Cleaned v (inl w) f o = filling-Cleaned v w f o
  Holds-Cleaned v (inr w) f o = wrapped-Cleaned v w f o

overrun-length :
    (b : Blocks) (now : Time) (q : List BlockData)
    → IsValid b
    → Holds b q
    → AreFilled q
    → data_length ≤ (cleanup b now).id
    → length q ≡ data_length
overrun-length b now q v (inl w) f over =
    let (full, _, _) =
      (cleanup-overrun b now b.slots refl v.full_array (omega (arith, w.index, w.room))).0 over in
    let same : recorded b.slots ≡ q =
      ap recorded w.slots ∙ recorded-free q (data_length - length q) f in
    ap length (sym same) ∙ full ∙ v.full_array
overrun-length b now q v (inr w) f over =
    ap length w.queue ∙ length-append w.older w.newer ∙ omega (arith, w.full)

-- On a valid record that is a queue of blocks with numbers and hashes, in the order of receipt, what
-- the timer of `PeriodicRemove` triggers does one of three things: no block was received within the
-- last two hours and the queue stays as it is; or some was, and the record is then the queue of the
-- blocks that were received within the last two hours; or the queue had a hundred blocks, and the next `Add`
-- panics.
pub cleanup-Holds :
    (b : Blocks) (now : Time) (q : List BlockData)
    → IsValid b
    → Holds b q
    → AreFilled q
    → InOrder q
    → ((received_after (expiry now) q ≡ []) × Holds (cleanup b now) q)
      ⊎ (((received_after (expiry now) q ≢ [])
            × Holds (cleanup b now) (received_after (expiry now) q))
          ⊎ ((length q ≡ data_length)
              × ((t : Time) (block : BlockData) → add (cleanup b now) t block ≡ none)))
cleanup-Holds b now q v h f o = elim (Holds-Cleaned b now q v h f o) [
  | inl empty ↦ inl empty
  | inr (inl kept) ↦ inr (inl kept)
  | inr (inr over) ↦ inr (
      inr (
        overrun-length b now q v h f over,
        λ t block. (add-none_iff (cleanup b now) t block (cleanup-IsValid b now v)).1 over,
      ))
]

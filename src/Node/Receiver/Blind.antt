-- ===== src/Node/Receiver/Blind.antt =====
-- nodes/node/receiver.go: what a run of `process` leaves of the recorders.
use bitmarkd_broadcast_monit.Common.{
  none_ne, ◌≡◌, refl, sym, ap, ◌∙◌, Option, none, some, List, [], ◌∷◌, Bytes, Bool-cases,
  Option-cases, inl, inr, ◌⊎◌,
}
use mathlib.Core.Option.{some-injective}
use bitmarkd_broadcast_monit.Clock.{Time}
use bitmarkd_broadcast_monit.Cache.{GoCache}
use bitmarkd_broadcast_monit.Recorder.Transactions.{Transactions}
use bitmarkd_broadcast_monit.Recorder
use bitmarkd_broadcast_monit.Recorder.Blocks.{add}
use bitmarkd_broadcast_monit.Recorder.Blocks.Hashless.{IsBlind, Added-IsBlind}
use bitmarkd_broadcast_monit.Node.Receiver.{
  Header, CacheValue, Bitmarkd, Category, block, transaction, heartbeat, other, category, State,
  Lookup, panics, failed, held, find_header, find_id, add_transaction, block_data, add_block,
  process_block, process_transaction, dispatch, process, end_process,
}

module _ (bitmarkd : Bitmarkd) (cache : GoCache (CacheValue bitmarkd.Digest)) where
  open bitmarkd use {chain_valid}

  -- `process` over messages in order.
  unfoldable pub process_all :
      List (Time × List Bytes) → State bitmarkd cache → Option (State bitmarkd cache)
  process_all [] s = some s
  process_all ((now, frames) ∷ rest) s = elim (process bitmarkd cache now frames s) [
    | none ↦ none
    | some s' ↦ process_all rest s'
  ]

  -- What one message may do: the heartbeat recorder is untouched, a transaction is recorded unless
  -- the message is dropped, and the block recorder stays blind.
  pub record Step (now : Time) (s s' : State bitmarkd cache) : Type 0 where
    pub heartbeat : s'.recorders.heartbeat ≡ s.recorders.heartbeat
    pub transaction :
        (s'.recorders.transaction ≡ Recorder.Transactions.add s.recorders.transaction now)
        ⊎ (s'.recorders ≡ s.recorders)
    pub block : IsBlind s.recorders.block → IsBlind s'.recorders.block

  same-Step : (now : Time) (s : State bitmarkd cache) → Step now s s
  same-Step now s = record { heartbeat = refl; transaction = inr refl; block = λ b. b }

  add_transaction-Step :
      (now : Time) (s s' : State bitmarkd cache)
      → s'.recorders ≡ s.recorders
      → Step now s (add_transaction bitmarkd cache now s')
  add_transaction-Step now s s' e = record {
    heartbeat = ap (λ r. r.heartbeat) e;
    transaction = inl (ap (λ r. Recorder.Transactions.add r.transaction now) e);
    block = λ b. rw e b;
  }

  add_transaction-Step-of :
      (now : Time) (s : State bitmarkd cache) (store : cache.Store) (t : State bitmarkd cache)
      → some (add_transaction bitmarkd cache now (record s { store = store })) ≡ some t
      → Step now s t
  add_transaction-Step-of now s store t r =
      rw (sym (some-injective _ _ r)) (add_transaction-Step now s (record s { store = store }) refl)

  add_block-Step :
      (now : Time) (h : Header) (s s' : State bitmarkd cache)
      → s'.recorders ≡ s.recorders
      → (t : State bitmarkd cache)
      → end_process bitmarkd cache now (add_block bitmarkd cache now h s') ≡ some t
      → Step now s t
  unfolding end_process
  add_block-Step now h s s' e t r =
      elim (Option-cases (add s'.recorders.block now (block_data h))) [
        | inl fails ↦ absurd (none_ne (sym (rw (fails, end_process) refl) ∙ r))
        | inr (b, adds) ↦
            let u : t
                ≡ add_transaction bitmarkd cache now
                    (record s' { recorders = record s'.recorders { block = b } }) =
              some-injective _ _ (sym r ∙ rw (adds, end_process) refl) in
            record {
              heartbeat = rw u (ap (λ r. r.heartbeat) e);
              transaction = inl (rw u (ap (λ r. Recorder.Transactions.add r.transaction now) e));
              block = λ blind.
                  let (b', added, blind') =
                    Added-IsBlind s'.recorders.block now (block_data h) refl (rw e blind) in
                  rw (u, some-injective _ _ (sym adds ∙ added)) blind';
            }
      ]

  Lookup-cases :
      {A : Type 0} (x : Lookup bitmarkd cache A)
      → (x ≡ panics) ⊎ ((x ≡ failed) ⊎ ((store : cache.Store) × (a : A) × (x ≡ held store a)))
  Lookup-cases panics = inl refl
  Lookup-cases failed = inr (inl refl)
  Lookup-cases (held store a) = inr (inr (store, a, refl))

  process_block-Step :
      (now : Time) (bytes : Bytes) (s t : State bitmarkd cache)
      → process_block bitmarkd cache now bytes s ≡ some t
      → Step now s t
  unfolding process_block end_process
  process_block-Step now bytes s t r =
      elim (Lookup-cases (find_header bitmarkd cache s.store now bytes)) [
        | inl e ↦ absurd (none_ne (sym (rw (e, process_block) refl) ∙ r))
        | inr (inl e) ↦
            rw (sym (some-injective s t (sym (rw (e, process_block) refl) ∙ r))) (same-Step now s)
        | inr (inr (store, h, e)) ↦
            add_block-Step now h s (record s { store = store }) refl t
              (sym (rw (e, process_block) refl) ∙ r)
      ]

  process_transaction-Step :
      (now : Time) (chain bytes : Bytes) (s t : State bitmarkd cache)
      → process_transaction bitmarkd cache now bytes chain s ≡ some t
      → Step now s t
  unfolding process_transaction
  process_transaction-Step now chain bytes s t r =
      elim (Lookup-cases (find_id bitmarkd cache s.store now bytes chain)) [
        | inl e ↦ absurd (none_ne (sym (rw (e, process_transaction) refl) ∙ r))
        | inr (inl e) ↦
            rw (sym (some-injective s t (sym (rw (e, process_transaction) refl) ∙ r)))
              (same-Step now s)
        | inr (inr (store, d, e)) ↦
            add_transaction-Step-of now s store t (sym (rw (e, process_transaction) refl) ∙ r)
      ]

  dispatch-Step :
      (now : Time) (chain : Bytes) (c : Category) (rest : List Bytes) (s t : State bitmarkd cache)
      → dispatch bitmarkd cache now chain c rest s ≡ some t
      → Step now s t
  unfolding dispatch
  dispatch-Step now chain block [] s t r = absurd (none_ne r)
  dispatch-Step now chain block (bytes ∷ rest) s t r = process_block-Step now bytes s t r
  dispatch-Step now chain transaction [] s t r = absurd (none_ne r)
  dispatch-Step now chain transaction (bytes ∷ rest) s t r =
      process_transaction-Step now chain bytes s t r
  dispatch-Step now chain heartbeat rest s t r = add_transaction-Step-of now s s.store t r
  dispatch-Step now chain other rest s t r = add_transaction-Step-of now s s.store t r

  -- A message that does not panic leaves the heartbeat recorder as it was, adds one transaction at
  -- the present time or changes no recorder at all, and leaves a blind block recorder blind.
  pub process-Step :
      (now : Time) (frames : List Bytes) (s t : State bitmarkd cache)
      → process bitmarkd cache now frames s ≡ some t
      → Step now s t
  unfolding process
  process-Step now [] s t r = absurd (none_ne r)
  process-Step now (chain ∷ []) s t r = elim (Bool-cases (chain_valid chain)) [
    | inl e ↦ absurd (none_ne (sym (rw e refl) ∙ r))
    | inr e ↦ rw (sym (some-injective s t (sym (rw e refl) ∙ r))) (same-Step now s)
  ]
  process-Step now (chain ∷ c ∷ rest) s t r = elim (Bool-cases (chain_valid chain)) [
    | inl e ↦ dispatch-Step now chain (category c) rest s t (sym (rw e refl) ∙ r)
    | inr e ↦ rw (sym (some-injective s t (sym (rw e refl) ∙ r))) (same-Step now s)
  ]

  -- Whatever messages a node receives, a block recorder that was blind at the start is blind at
  -- the end, and the heartbeat recorder is the one of the start.
  pub process_all-IsBlind :
      (messages : List (Time × List Bytes)) (s t : State bitmarkd cache)
      → process_all messages s ≡ some t
      → IsBlind s.recorders.block
      → IsBlind t.recorders.block × (t.recorders.heartbeat ≡ s.recorders.heartbeat)
  unfolding process_all
  process_all-IsBlind [] s t r blind = rw (sym (some-injective s t r)) (blind, refl)
  process_all-IsBlind ((now, frames) ∷ rest) s t r blind =
      elim (Option-cases (process bitmarkd cache now frames s)) [
        | inl e ↦ absurd (none_ne (sym (rw (e, process_all) refl) ∙ r))
        | inr (u, e) ↦
            let step = process-Step now frames s u e in
            let (b, h) =
              process_all-IsBlind rest u t (sym (rw (e, process_all) refl) ∙ r)
                (step.block blind) in
            (b, h ∙ step.heartbeat)
      ]

-- ===== src/Node/Receiver.antt =====
-- nodes/node/receiver.go: what a broadcast message does to the recorders and the cache.
-- The decoders of bitmarkd and the cache library are parameters; `none` is a run-time panic; a
-- message is the list of its frames; `time.Now()` is an argument.
pub mod Blind
pub mod Cached
pub mod Routine
pub mod Reconnecting
pub mod Shutdown
pub mod Tests
use bitmarkd_broadcast_monit.Common.Hex.{hex_encode}
use bitmarkd_broadcast_monit.Common.{
  ℕ, zero, suc, ◌+◌, ◌-◌, ◌*◌, ◌/◌, ◌%◌, ◌^◌, Bool, true, false, not, ◌||◌, Option, none, some,
  List, [], ◌∷◌, ◌++◌, ltb, leb, if◌then◌else◌, length, take, get_elem?, Bytes, bytes_eq, codes,
}
use bitmarkd_broadcast_monit.Clock.{Time, second, unix_epoch, zero_time}
use bitmarkd_broadcast_monit.Cache.{GoCache}
use bitmarkd_broadcast_monit.Recorder.Heartbeat.{Heartbeat}
use bitmarkd_broadcast_monit.Recorder.Transactions.{Transactions}
use bitmarkd_broadcast_monit.Recorder.Blocks.{Blocks, BlockData}
use bitmarkd_broadcast_monit.Recorder

abbrev pub key_length : ℕ
key_length = 10

-- `blockrecord.Header`, as far as it is read.
pub record Header : Type 0 where
  pub number : ℕ
  pub timestamp : ℕ

-- What the cache holds: headers and transaction identifiers, as values of any type.
pub data CacheValue (Digest : Type 0) : Type 0 where
  header : Header → CacheValue Digest
  digest : Digest → CacheValue Digest

-- The functions of bitmarkd that `process` calls.
pub record Bitmarkd : Type 1 where
  pub Digest : Type 0
  pub chain_valid : Bytes → Bool
  pub main_chain : Bytes
  pub extract_header : Bytes → Option Header
  pub unpack : Bytes → Bool → Option ℕ
  pub make_link : Bytes → Digest

pub record Recorders : Type 0 where
  pub heartbeat : Heartbeat
  pub transaction : Transactions
  pub block : Blocks

-- `data[from:to]` of a slice with no room behind its end.
unfoldable pub slice_to : Bytes → ℕ → Option Bytes
slice_to bytes n = if leb n (length bytes) then some (take n bytes) else none

-- `time.Unix(int64(timestamp), 0)` of a uint64, where that is a time the model has.
abbrev pub from_unix : ℕ → Time
from_unix timestamp =
    if ltb timestamp (2 ^ 63)
    then unix_epoch + timestamp * second
    else unix_epoch - (2 ^ 64 - timestamp) * second

-- The cases of the `switch` in `process`.
pub data Category : Type 0 where
  block transaction heartbeat other : Category

abbrev pub category : Bytes → Category
category s =
    if bytes_eq s (codes "block")
    then block
    else if bytes_eq s (codes "assets")
        || bytes_eq s (codes "issues")
        || bytes_eq s (codes "transfer")
    then transaction
    else if bytes_eq s (codes "heart")
    then heartbeat
    else other

-- What `process` makes of a header: it leaves the hash and the time of receipt unset.
abbrev pub block_data : Header → BlockData
block_data h = record {
  hash = [];
  number = h.number;
  generate_time = from_unix h.timestamp;
  received_time = zero_time;
}

module _ (bitmarkd : Bitmarkd) (cache : GoCache (CacheValue bitmarkd.Digest)) where
  open bitmarkd use {Digest, chain_valid, main_chain, extract_header, unpack, make_link}
  open cache use {Store}

  pub record State : Type 0 where
    pub recorders : Recorders
    pub store : Store

  is_testnet : Bytes → Bool
  is_testnet chain = not (bytes_eq main_chain chain)

  -- The identifier is made from the bytes that were unpacked.
  unfoldable pub extract_id : Bytes → Bytes → Option Digest
  unfolding is_testnet
  extract_id bytes chain = elim (unpack bytes (is_testnet chain)) [
    | none ↦ none
    | some n ↦ some (make_link (take n bytes))
  ]

  -- What a look-up in the cache, and on a miss the decoder, come to.
  pub data Lookup (A : Type 0) : Type 0 where
    panics : Lookup A
    failed : Lookup A
    held : Store → A → Lookup A

  header_of : Store → Time → Bytes → Bytes → Option (CacheValue Digest) → Lookup Header
  header_of store now key bytes none = elim (extract_header bytes) [
    | none ↦ failed
    | some h ↦ held (cache.set store now key (header h)) h
  ]
  header_of store now key bytes (some (header h)) = held store h
  header_of store now key bytes (some (digest d)) = panics

  -- The header of a block message: the cached one under the first bytes, or the decoded one.
  unfoldable pub find_header : Store → Time → Bytes → Lookup Header
  unfolding header_of
  find_header store now bytes = elim (slice_to bytes key_length) [
    | none ↦ panics
    | some key ↦ header_of store now key bytes (cache.get store now key)
  ]

  id_of : Store → Time → Bytes → Bytes → Bytes → Option (CacheValue Digest) → Lookup Digest
  unfolding extract_id
  id_of store now key bytes chain none = elim (extract_id bytes chain) [
    | none ↦ failed
    | some d ↦ held (cache.set store now key (digest d)) d
  ]
  id_of store now key bytes chain (some (digest d)) = held store d
  id_of store now key bytes chain (some (header h)) = panics

  -- The identifier of an asset, issue or transfer message.
  unfoldable pub find_id : Store → Time → Bytes → Bytes → Lookup Digest
  unfolding id_of
  find_id store now bytes chain = elim (slice_to (hex_encode bytes) key_length) [
    | none ↦ panics
    | some key ↦ id_of store now key bytes chain (cache.get store now key)
  ]

  -- `rs.transaction.Add(now)`, which ends `process`.
  abbrev pub add_transaction : Time → State → State
  add_transaction now s = record s {
    recorders = record s.recorders {
      transaction = Recorder.Transactions.add s.recorders.transaction now;
    };
  }

  -- `rs.block.Add(now, ...)`
  abbrev pub add_block : Time → Header → State → Option State
  add_block now h s = elim (Recorder.Blocks.add s.recorders.block now (block_data h)) [
    | none ↦ none
    | some b ↦ some (record s { recorders = record s.recorders { block = b } })
  ]

  end_process : Time → Option State → Option State
  end_process now none = none
  end_process now (some s) = some (add_transaction now s)

  unfoldable pub process_block : Time → Bytes → State → Option State
  unfolding find_header end_process
  process_block now bytes s = elim (find_header s.store now bytes) [
    | panics ↦ none
    | failed ↦ some s
    | held store h ↦ end_process now (add_block now h (record s { store = store }))
  ]

  unfoldable pub process_transaction : Time → Bytes → Bytes → State → Option State
  unfolding find_id
  process_transaction now bytes chain s = elim (find_id s.store now bytes chain) [
    | panics ↦ none
    | failed ↦ some s
    | held store d ↦ some (add_transaction now (record s { store = store }))
  ]

  -- `data[2]` of the frames after the category.
  unfoldable pub dispatch : Time → Bytes → Category → List Bytes → State → Option State
  unfolding process_block process_transaction
  dispatch now chain block [] s = none
  dispatch now chain block (bytes ∷ rest) s = process_block now bytes s
  dispatch now chain transaction [] s = none
  dispatch now chain transaction (bytes ∷ rest) s = process_transaction now bytes chain s
  dispatch now chain heartbeat rest s = some (add_transaction now s)
  dispatch now chain other rest s = some (add_transaction now s)

  unfoldable pub process : Time → List Bytes → State → Option State
  unfolding dispatch
  process now [] s = none
  process now (chain ∷ []) s = if chain_valid chain then none else some s
  process now (chain ∷ c ∷ rest) s =
      if chain_valid chain then dispatch now chain (category c) rest s else some s

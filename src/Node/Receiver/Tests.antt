-- ===== src/Node/Receiver/Tests.antt =====
-- nodes/node/receiver.go with a small decoder and a cache that never forgets.
use bitmarkd_broadcast_monit.Common.{
  ◌<◌, ◌⊎◌, false, ◌≡◌, refl, Option, none, some, List, [], ◌∷◌, ◌++◌, Bytes, bytes_eq,
  bytes_eq_refl, codes, inl, replicate, if◌then◌else◌, take,
}
use bitmarkd_broadcast_monit.Clock.{hour}
use bitmarkd_broadcast_monit.Clock.Timer.{new_timer}
use bitmarkd_broadcast_monit.Cache.{GoCache, Keeps}
use bitmarkd_broadcast_monit.Recorder
use bitmarkd_broadcast_monit.Recorder.Blocks.{new_block}
use bitmarkd_broadcast_monit.Recorder.Transactions.{new_transaction}
use bitmarkd_broadcast_monit.Recorder.Heartbeat.{new_heartbeat}
use bitmarkd_broadcast_monit.Node.Receiver.{
  Header, CacheValue, header, end_process, header_of, Bitmarkd, State, process, find_header,
  hex_encode, add_transaction, block_data, process_block, dispatch, slice_to,
}
use bitmarkd_broadcast_monit.Node.Receiver.Blind.{Step, process_all, process-Step}
use bitmarkd_broadcast_monit.Node.Receiver.Routine.{
  message, elapse, timeout, routine, no_event, on_message, routine_blocks,
}
use bitmarkd_broadcast_monit.Network.Client.{reconnect}
use bitmarkd_broadcast_monit.Network.Client.Tests.{subscriber, world, working}
use bitmarkd_broadcast_monit.Network.Poller.{add_socket, by_add}
use bitmarkd_broadcast_monit.Network.Poller.Tests.{polling_five, ended, to_the_end}
use bitmarkd_broadcast_monit.Node.Receiver.Reconnecting.{
  Receiving, Reconnect, added, reconnect_stalls,
}

hex_test : hex_encode (31 ∷ 160 ∷ []) ≡ codes "1fa0"
hex_test = refl

-- A header is its number and its time, after the bytes of the key.
abbrev pub decode : Bytes → Option Header
decode bytes = elim bytes [ [] ↦ none | n ∷ rest ↦ some (record { number = n; timestamp = 7 }) ]

abbrev pub chain : Bitmarkd
chain = record {
  Digest = Bytes;
  chain_valid = λ c. bytes_eq c (codes "bitmark");
  main_chain = codes "bitmark";
  extract_header = decode;
  unpack = λ bytes testnet. some 4;
  make_link = λ bytes. bytes;
}

abbrev pub Values : Type 0
Values = CacheValue Bytes

abbrev pub find : {V : Type 0} → List (Bytes × V) → Bytes → Option V
find [] k = none
find ((l, v) ∷ rest) k = if bytes_eq k l then some v else find rest k

abbrev pub lasting : GoCache (CacheValue chain.Digest)
lasting = record {
  Store = List (Bytes × Values);
  create = λ e c. [];
  set = λ s t k v. (k, v) ∷ s;
  get = λ s t k. find s k;
}

lasting-Keeps : Keeps lasting
lasting-Keeps = record { get-set = λ s t u k v h i. rw (bytes_eq_refl k) refl }

abbrev pub raw_block : Bytes
raw_block = 42 ∷ replicate 11 0

abbrev other_block : Bytes
other_block = 42 ∷ replicate 9 0 ++ 99 ∷ []

abbrev pub block_message : List Bytes
block_message = codes "bitmark" ∷ codes "block" ∷ raw_block ∷ []

abbrev pub blank : State chain lasting
blank = record {
  recorders = record {
    heartbeat = new_heartbeat 0;
    transaction = new_transaction 0;
    block = new_block 0;
  };
  store = [];
}

-- The cache after the message, and the recorders.
abbrev after_block : State chain lasting
after_block = add_transaction chain lasting hour (record {
  recorders = record blank.recorders {
    block =
        elim (Recorder.Blocks.add blank.recorders.block hour
          (block_data (record { number = 42; timestamp = 7 }))) [
            | none ↦ blank.recorders.block
            | some b ↦ b
          ];
  };
  store = (take 10 raw_block, header (record { number = 42; timestamp = 7 })) ∷ [];
})

process-block_test : process chain lasting hour block_message blank ≡ some after_block
unfolding process dispatch process_block find_header slice_to end_process header_of
    Recorder.Blocks.add new_block
process-block_test = refl

process-Step_example : Step chain lasting hour blank after_block
process-Step_example =
    process-Step chain lasting hour block_message blank after_block process-block_test

process_all_test : process_all chain lasting ((hour, block_message) ∷ []) blank ≡ some after_block
unfolding process_all
process_all_test = rw (process_all, process-block_test) refl

routine_blocks_example :
    routine ((message ∷ []) ++ elapse ∷ timeout ∷ message ∷ []) new_timer ≡ none
routine_blocks_example =
    routine_blocks (message ∷ []) (message ∷ []) new_timer (on_message no_event) (inl (refl, refl))

abbrev before : Receiving
before = record { client = subscriber; world = world; poller = polling_five; timer = new_timer }

abbrev connected_again : Receiving
connected_again = record {
  client = (reconnect (working (some (codes "id"))) subscriber world).client;
  world = (reconnect (working (some (codes "id"))) subscriber world).world;
  poller = add_socket 5 ended;
  timer = new_timer;
}

reconnected : Reconnect 1 (working (some (codes "id"))) before connected_again
unfolding reconnect
reconnected = added to_the_end refl refl (by_add 5 refl)

reconnect_stalls_example :
    (((reconnect (working (some (codes "id"))) subscriber world).ok ≡ false)
      × (0 < connected_again.poller.group))
    ⊎ (connected_again.poller.polling ≡ false)
reconnect_stalls_example = reconnect_stalls reconnected

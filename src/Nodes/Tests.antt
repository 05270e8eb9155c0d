-- ===== src/Nodes/Tests.antt =====
-- nodes/nodes.go for one node, and for a second one whose key is not hexadecimal.
use bitmarkd_broadcast_monit.Common.{
  none, some, Option, ℕ, ◌≡◌, refl, ◌⊎◌, [], ◌∷◌, codes, replicate, true,
}
use bitmarkd_broadcast_monit.Network.Keypair.{read_public_key, read_private_key}
use bitmarkd_broadcast_monit.Common.Hex.{hex_encode, hex_decode}
use bitmarkd_broadcast_monit.Network.Address.{new_connection}
use bitmarkd_broadcast_monit.Configuration.{NodeConfig, Configuration, default_configuration}
use bitmarkd_broadcast_monit.Network.Client.{World, new_client, connect}
use bitmarkd_broadcast_monit.Node.Keys.{parse_keys}
use bitmarkd_broadcast_monit.Node.Keys.Tests.{own}
use bitmarkd_broadcast_monit.Node.Monitor.{Surroundings, new_node, heartbeat_remove}
use bitmarkd_broadcast_monit.Node.Monitor
use bitmarkd_broadcast_monit.Node.Receiver.Tests.{chain, lasting}
use bitmarkd_broadcast_monit.Node.Remote.{new_remote, new_zmq_client, deferred}
use bitmarkd_broadcast_monit.Node.Remote.Tests.{usual, net, config}
use bitmarkd_broadcast_monit.Db.{Influx}
use bitmarkd_broadcast_monit.Messengers
use bitmarkd_broadcast_monit.Messengers.{new_slack, send}
use bitmarkd_broadcast_monit.Recorder
use bitmarkd_broadcast_monit.Recorder.Blocks.{new_block}
use bitmarkd_broadcast_monit.Recorder.Blocks.Summary.{
  summary, missing_blocks, sort_array, find_block_start_and_end,
}
use bitmarkd_broadcast_monit.Node.Receiver.{process, find_header, process_block, dispatch, slice_to}
use bitmarkd_broadcast_monit.Node.Checker.{new_checker, checker_event, on_block, send_to_slack}
use bitmarkd_broadcast_monit.Node.Checker.Notices.{AllSilent}
use bitmarkd_broadcast_monit.Node.Monitor.{Node, Machine, new_recorders, monitored, act, act_all}
use bitmarkd_broadcast_monit.Node.Monitor.Tests.{actions}
use bitmarkd_broadcast_monit.Node.Monitor.Silence.{act_all-AllSilent}
use bitmarkd_broadcast_monit.Nodes.{db_start, initialise, make_nodes}
use bitmarkd_broadcast_monit.Nodes.Making.{AllMade, Refused, initialise_cases}

abbrev pub around : ℕ → Surroundings
around n = record {
  block_time = n;
  heartbeat_time = n;
  transaction_time = n;
  receiver_zmq = usual true;
  sender_zmq = usual true;
}

abbrev pub good : NodeConfig
good = record config { public_key = hex_encode (replicate 32 3) }

abbrev bad : NodeConfig
bad = record config { public_key = codes "?" }

abbrev pub two : Configuration
two = record default_configuration { keys = own; nodes = good ∷ bad ∷ [] }

abbrev world : World
world = record { sockets = []; next = 0 }

-- The error leaves two sockets of the first node open.
refused_test : (initialise net (λ t. t) around lasting two world).world.sockets ≡ 1 ∷ 0 ∷ []
unfolding initialise make_nodes new_node parse_keys Monitor.initialise read_public_key hex_decode
    read_private_key new_remote new_zmq_client new_connection new_client deferred connect
refused_test = refl

initialise_cases_example :
    let r = initialise net (λ t. t) around lasting two world in
    AllMade net (λ t. t) around (good ∷ bad ∷ []) 0 [] (db_start ∷ []) r
    ⊎ Refused net (λ t. t) around own (good ∷ bad ∷ []) 0 (db_start ∷ []) r
initialise_cases_example = initialise_cases net (λ t. t) around lasting two world

abbrev node_of : Option Node → Node
node_of none = record {
  config = good;
  id = 0;
  name = [];
  recorders = new_recorders (around 0);
  remote = record { broadcast_receiver = none; command_sender = none };
}
node_of (some n) = n

abbrev node : Node
node = node_of (new_node net (λ t. t) own (around 0) good 0 world).node

new_node_test : (new_node net (λ t. t) own (around 0) good 0 world).node ≡ some node
unfolding new_node parse_keys read_public_key hex_decode read_private_key new_remote new_zmq_client
    new_connection new_client deferred connect
new_node_test = refl

abbrev influx : Influx
influx = record { database = codes "db"; queue = []; is_ok = true }

abbrev machine : Machine chain lasting
machine = monitored chain lasting node [] influx (new_slack (codes "token") (codes "channel"))

abbrev outcome : Option (Machine chain lasting) → Machine chain lasting
outcome none = machine
outcome (some m) = m

abbrev end : Machine chain lasting
end = outcome (act_all chain lasting node.name actions machine)

act_all_test : act_all chain lasting node.name actions machine ≡ some end
unfolding act_all act monitored new_node parse_keys read_public_key hex_decode read_private_key
    new_remote new_zmq_client new_connection new_client deferred connect new_recorders process
    dispatch process_block find_header slice_to Recorder.Blocks.add new_block
    Recorder.Blocks.cleanup new_checker new_slack checker_event on_block summary send_to_slack send
    missing_blocks sort_array find_block_start_and_end Recorder.Blocks.Summary.valid
    Messengers.valid
act_all_test = refl

act_all-AllSilent_example : AllSilent end.checker.slack.outgoing
act_all-AllSilent_example =
    act_all-AllSilent chain lasting net (λ t. t) own (around 0) good 0 world node [] influx
      (codes "token") (codes "channel") actions end new_node_test act_all_test

-- ===== src/Node/Monitor.antt =====
-- nodes/node/node.go: what the nodes share, a new node, the routines that its monitor starts, and
-- the routines of one node at work on its recorders.
-- A routine that is started is a value; what it does is the model of that routine. Each handler of
-- a routine is one step.
use bitmarkd_broadcast_monit.Common.{
  ℕ, Bool, Option, none, some, List, [], ◌∷◌, ◌++◌, Bytes, is_empty_string, if◌then◌else◌,
}
use bitmarkd_broadcast_monit.Clock.{Time}
use bitmarkd_broadcast_monit.Cache.{GoCache, Created, new_cache}
use bitmarkd_broadcast_monit.Configuration.{
  NodeConfig, Keys, Configuration, key, heartbeat_interval_in_second, slack_config,
}
use bitmarkd_broadcast_monit.Db.{Influx}
use bitmarkd_broadcast_monit.Messengers.{SlackMessenger, new_slack}
use bitmarkd_broadcast_monit.Recorder
use bitmarkd_broadcast_monit.Network.Address.{Net}
use bitmarkd_broadcast_monit.Network.Client.{World, Zmq}
use bitmarkd_broadcast_monit.Node.Keys.{NodeKeys, parse_keys}
use bitmarkd_broadcast_monit.Node.Remote.{Remote, new_remote}
use bitmarkd_broadcast_monit.Node.Receiver.{CacheValue, Bitmarkd, Recorders, State, process}
use bitmarkd_broadcast_monit.Node.Checker.{Notice, Checker, Event, new_checker, checker_event}
pub mod Fresh
pub mod Silence
pub mod Tests

-- The package variables of the node package, less the context and the tasks.
pub record Shared (Store : Type 0) : Type 0 where
  pub heartbeat_interval_second : ℕ
  pub keys : Keys
  pub slack : SlackMessenger Notice
  pub caches : Created Store

unfoldable pub initialise : {V : Type 0} (c : GoCache V) → Configuration → Shared c.Store
initialise c configs = record {
  heartbeat_interval_second = heartbeat_interval_in_second configs;
  keys = key configs;
  slack = new_slack (slack_config configs).token (slack_config configs).channel_id;
  caches = new_cache c [];
}

-- What `task.Go` is called with.
pub data Routine : Type 0 where
  heartbeat_remove transaction_remove block_remove : Routine
  receiver_routine receiver_loop checker_loop sender_loop : Routine

pub record Node : Type 0 where
  pub config : NodeConfig
  pub id : ℕ
  pub name : Bytes
  pub recorders : Recorders
  pub remote : Remote

-- The readings of the clock and the answers of zmq4 while a node is made.
pub record Surroundings : Type 0 where
  pub block_time : Time
  pub heartbeat_time : Time
  pub transaction_time : Time
  pub receiver_zmq : Zmq
  pub sender_zmq : Zmq

-- What `NewNode` leaves: the node, or none for an error, the open sockets, and what it has started.
pub record Made : Type 0 where
  pub node : Option Node
  pub world : World
  pub started : List Routine

unfoldable pub new_recorders : Surroundings → Recorders
new_recorders a = record {
  heartbeat = Recorder.Heartbeat.new_heartbeat a.heartbeat_time;
  transaction = Recorder.Transactions.new_transaction a.transaction_time;
  block = Recorder.Blocks.new_block a.block_time;
}

-- `NewHeartbeat` starts the clean-up of the heartbeats.
abbrev refused : World → Made
refused w = record { node = none; world = w; started = heartbeat_remove ∷ [] }

with_remote : NodeConfig → ℕ → Recorders → Option Remote × World → Made
with_remote config id rs (none, w) = refused w
with_remote config id rs (some r, w) = record {
  node = some (record { config = config; id = id; name = config.name; recorders = rs; remote = r });
  world = w;
  started = heartbeat_remove ∷ [];
}

module _ (net : Net) (trim_space : Bytes → Bytes) where
  with_keys : Surroundings → NodeConfig → ℕ → World → Option NodeKeys → Made
  unfolding with_remote
  with_keys a config id w none = refused w
  with_keys a config id w (some keys) =
      with_remote config id (new_recorders a)
        (new_remote net a.receiver_zmq a.sender_zmq config keys w)

  unfoldable pub new_node : Keys → Surroundings → NodeConfig → ℕ → World → Made
  unfolding with_keys
  new_node keys a config id w =
      with_keys a config id w (parse_keys trim_space keys config.public_key)

-- The calls of `task.Go` in `Monitor` and in `receiverLoop`, in their order.
unfoldable pub monitor_starts : Node → List Routine
monitor_starts n =
    receiver_loop
    ∷ checker_loop
    ∷ (if is_empty_string n.config.command_port then [] else sender_loop ∷ [])

unfoldable pub receiver_loop_starts : List Routine
receiver_loop_starts = transaction_remove ∷ block_remove ∷ receiver_routine ∷ []

module _ (bitmarkd : Bitmarkd) (cache : GoCache (CacheValue bitmarkd.Digest)) where
  -- The recorders and the cache of a node, which its routines share, and its checker.
  pub record Machine : Type 0 where
    pub shared : State bitmarkd cache
    pub checker : Checker

  -- What `Monitor` hands to the routines of a node, with the influx writer and the messenger that
  -- the checker uses.
  unfoldable pub monitored : Node → cache.Store → Influx → SlackMessenger Notice → Machine
  monitored n store influx slack = record {
    shared = record { recorders = n.recorders; store = store };
    checker = new_checker influx slack;
  }

  -- What the routines of a node do next: the receiver processes a message, a clean-up comes to its
  -- turn, or the checker is woken.
  pub data Action : Type 0 where
    receive : Time → List Bytes → Action
    clean_blocks clean_transactions clean_heartbeats : Time → Action
    check : Event → Action

  abbrev with_recorders : Recorders → Machine → Machine
  with_recorders rs m = record m { shared = record m.shared { recorders = rs } }

  received : Machine → Option (State bitmarkd cache) → Option Machine
  received m none = none
  received m (some s) = some (record m { shared = s })

  checked : Machine → Option Checker → Option Machine
  checked m none = none
  checked m (some c) = some (record m { checker = c })

  -- none is a run-time panic.
  unfoldable pub act : Bytes → Action → Machine → Option Machine
  unfolding received checked
  act name (receive now frames) m = received m (process bitmarkd cache now frames m.shared)
  act name (clean_blocks now) m =
      let rs = m.shared.recorders in
      some (with_recorders (record rs { block = Recorder.Blocks.cleanup rs.block now }) m)
  act name (clean_transactions now) m =
      let rs = m.shared.recorders in
      some (
        with_recorders
          (record rs {
            transaction = Recorder.Transactions.cleanup_expired_transaction rs.transaction now;
          })
          m)
  act name (clean_heartbeats now) m =
      let rs = m.shared.recorders in
      some (
        with_recorders
          (record rs { heartbeat = Recorder.Heartbeat.cleanup_expired_heartbeat rs.heartbeat now })
          m)
  act name (check e) m = checked m (checker_event name e m.shared.recorders m.checker)

  act_next : (Machine → Option Machine) → Option Machine → Option Machine
  act_next rest none = none
  act_next rest (some m) = rest m

  unfoldable pub act_all : Bytes → List Action → Machine → Option Machine
  unfolding act_next
  act_all name [] m = some m
  act_all name (a ∷ rest) m = act_next (act_all name rest) (act name a m)

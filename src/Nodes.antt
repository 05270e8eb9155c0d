-- ===== src/Nodes.antt =====
-- nodes/nodes.go: all the monitored nodes, as they are made and as their monitors are started.
-- What `tasks.Go` is called with is a value, in the order of the calls; Tasks says what becomes of
-- it, and of `StopMonitor`, which calls `Done` and waits for its signal.
use bitmarkd_broadcast_monit.Common.{
  ℕ, suc, ◌+◌, Option, none, some, List, [], ◌∷◌, ◌++◌, Bytes, map,
}
use bitmarkd_broadcast_monit.Cache.{GoCache}
use bitmarkd_broadcast_monit.Configuration.{NodeConfig, Keys, Configuration, nodes_config}
use bitmarkd_broadcast_monit.Network.Address.{Net}
use bitmarkd_broadcast_monit.Network.Client.{World}
use bitmarkd_broadcast_monit.Node.Monitor.{Node, Routine, Surroundings, Made, Shared, new_node}
use bitmarkd_broadcast_monit.Node.Monitor
pub mod Making
pub mod Tests

pub data Task : Type 0 where
  db_start : Task
  routine : Routine → Task
  node_monitor : Node → Task

-- `Initialise`: the nodes, or none for an error, with what is open and what has been started.
pub record Initialised : Type 0 where
  pub node_arr : Option (List Node)
  pub world : World
  pub started : List Task

-- Which tasks a new node has started.
abbrev pub tasks_of : List Routine → List Task
tasks_of rs = map routine rs

module _ (net : Net) (trim_space : Bytes → Bytes) (around : ℕ → Surroundings) where
  -- The turn of the loop after `NewNode`; `rest` is the loop from there.
  after_node :
      List Node → List Task → (List Node → World → List Task → Initialised) → Made → Initialised
  after_node ns started rest made = elim made.node [
    | none ↦ record {
      node_arr = none;
      world = made.world;
      started = started ++ tasks_of made.started;
    }
    | some n ↦ rest (ns ++ n ∷ []) made.world (started ++ tasks_of made.started)
  ]

  -- The loop over the configurations, from index `idx`.
  unfoldable pub make_nodes :
      Keys → List NodeConfig → ℕ → List Node → World → List Task → Initialised
  unfolding after_node
  make_nodes keys [] idx ns w started = record { node_arr = some ns; world = w; started = started }
  make_nodes keys (c ∷ cs) idx ns w started =
      after_node ns started (make_nodes keys cs (idx + 1))
        (new_node net trim_space keys (around idx) c idx w)

  unfoldable pub initialise : {V : Type 0} → GoCache V → Configuration → World → Initialised
  unfolding make_nodes
  initialise cache configs w =
      make_nodes (Monitor.initialise cache configs).keys (nodes_config configs) 0 [] w
        (db_start ∷ [])

-- The calls of `tasks.Go` in `Monitor`.
unfoldable pub monitor : List Node → List Task
monitor ns = map node_monitor ns

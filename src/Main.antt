-- ===== src/Main.antt =====
-- main.go: the start of the program, up to the monitors.
-- What is outside the repository answers in a record: the file system, the Lua library, the logger,
-- zmq4, the influx client and the network.
use bitmarkd_broadcast_monit.Common.{
  ℕ, Bool, true, false, not, ◌||◌, Option, none, some, List, [], ◌∷◌, ◌++◌, Bytes, is_empty_string,
  if◌then◌else◌,
}
use bitmarkd_broadcast_monit.Cache.{GoCache}
use bitmarkd_broadcast_monit.Configuration.{Configuration, influx_config, parse}
use bitmarkd_broadcast_monit.Network.Address.{Net}
use bitmarkd_broadcast_monit.Network.Authentication.{start_authentication}
use bitmarkd_broadcast_monit.Network.Client.{World}
use bitmarkd_broadcast_monit.Db
use bitmarkd_broadcast_monit.Db.{Influx}
use bitmarkd_broadcast_monit.Node.Monitor.{Node, Surroundings}
use bitmarkd_broadcast_monit.Nodes
use bitmarkd_broadcast_monit.Nodes.{Task, Initialised, monitor}
pub mod Starting
pub mod Tests

pub record Environment : Type 1 where
  pub Table : Type 0
  pub exists : Bytes → Bool
  pub absolute : Bytes → Option Bytes
  pub run_file : Bytes → Option Table
  pub map_table : Table → Configuration → Option Configuration
  pub logger_starts : Bool
  pub auth_starts : Bool
  pub new_http_client : Bytes → Bytes → Bytes → Bool
  pub net : Net
  pub trim_space : Bytes → Bytes
  pub around : ℕ → Surroundings

-- Where `main` returns early, or that it monitors: the configuration, the writer to the database,
-- the nodes, and what has been started.
pub data Started : Type 0 where
  no_config_file not_parsed no_logger no_authentication no_database : Started
  no_nodes : Initialised → Started
  monitors : Configuration → Influx → List Node → List Task → Started

-- Whether `parseFlag` gives no error.
unfoldable pub parse_flag : (Bytes → Bool) → Bytes → Bool
parse_flag exists config_file = if is_empty_string config_file then false else exists config_file

module _ (env : Environment) {V : Type 0} (cache : GoCache V) where
  open env use {
    exists, absolute, run_file, map_table, logger_starts, auth_starts, new_http_client, net,
    trim_space, around,
  }

  with_nodes : Configuration → Influx → Initialised → Started
  with_nodes config db r = elim r.node_arr [
    | none ↦ no_nodes r
    | some ns ↦ monitors config db ns (r.started ++ monitor ns)
  ]

  with_database : Configuration → Option Influx → Started
  unfolding with_nodes
  with_database config none = no_database
  with_database config (some db) =
      with_nodes config db
        (Nodes.initialise net trim_space around cache config (record { sockets = []; next = 0 }))

  with_config : Option Configuration → Started
  unfolding with_database start_authentication
  with_config none = not_parsed
  with_config (some config) =
      if not logger_starts
      then no_logger
      else if not (start_authentication auth_starts false).0
      then no_authentication
      else with_database config (Db.initialise new_http_client (influx_config config))

  unfoldable pub main : Bytes → Started
  unfolding parse_flag with_config
  main config_file =
      if not (parse_flag exists config_file)
      then no_config_file
      else with_config (parse absolute run_file map_table config_file)

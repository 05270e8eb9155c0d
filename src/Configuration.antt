-- ===== src/Configuration.antt =====
-- configuration/configuration.go: the settings that the other parts read, and their defaults.
-- The Lua interpreter and the mapper (configuration/lua.go) are parameters; the log settings, which
-- only the logger reads, are left out.
pub mod Text
use bitmarkd_broadcast_monit.Common.{ℕ, Option, none, some, List, [], Bytes}

pub record NodeConfig : Type 0 where
  pub ip : Bytes
  pub broadcast_port : Bytes
  pub command_port : Bytes
  pub chain : Bytes
  pub name : Bytes
  pub public_key : Bytes

pub record InfluxDbConfig : Type 0 where
  pub database : Bytes
  pub ip : Bytes
  pub port : Bytes
  pub user : Bytes
  pub password : Bytes

pub record SlackConfig : Type 0 where
  pub token : Bytes
  pub channel_id : Bytes

pub record Keys : Type 0 where
  pub public : Bytes
  pub private : Bytes

pub record Configuration : Type 0 where
  pub nodes : List NodeConfig
  pub keys : Keys
  pub heartbeat_interval_second : ℕ
  pub influx_db : InfluxDbConfig
  pub slack : SlackConfig

-- `NodesConfig`
abbrev pub nodes_config : Configuration → List NodeConfig
nodes_config c = c.nodes

-- `Key`
abbrev pub key : Configuration → Keys
key c = c.keys

-- `HeartbeatIntervalInSecond`
abbrev pub heartbeat_interval_in_second : Configuration → ℕ
heartbeat_interval_in_second c = c.heartbeat_interval_second

-- `Influx`
abbrev pub influx_config : Configuration → InfluxDbConfig
influx_config c = c.influx_db

-- `SlackConfig`
abbrev pub slack_config : Configuration → SlackConfig
slack_config c = c.slack

abbrev pub default_heartbeat_interval_second : ℕ
default_heartbeat_interval_second = 60

-- The value that the mapper fills in.
abbrev pub default_configuration : Configuration
default_configuration = record {
  nodes = [];
  keys = record { public = []; private = [] };
  heartbeat_interval_second = default_heartbeat_interval_second;
  influx_db = record { database = []; ip = []; port = []; user = []; password = [] };
  slack = record { token = []; channel_id = [] };
}

-- `absolute` is `filepath.Abs(filepath.Clean(…))`, `run_file` runs the file and returns the table
-- that it leaves, and `map_table` writes a table over a configuration; each may fail.
module _ {Table : Type 0} (absolute : Bytes → Option Bytes) (run_file : Bytes → Option Table)
    (map_table : Table → Configuration → Option Configuration) where
  abbrev over : Configuration → Option Table → Option Configuration
  over config none = none
  over config (some table) = map_table table config

  parse_lua_configuration_file : Bytes → Configuration → Option Configuration
  parse_lua_configuration_file file config = over config (run_file file)

  abbrev parse_at : Option Bytes → Option Configuration
  parse_at none = none
  parse_at (some path) = parse_lua_configuration_file path default_configuration

  unfoldable pub parse : Bytes → Option Configuration
  unfolding parse_lua_configuration_file
  parse file = parse_at (absolute file)

-- ===== src/Configuration/Text.antt =====
-- configuration/configuration.go: the text of a configuration, which `main` prints.
-- The text of the log settings is a parameter.
mod Tests
use bitmarkd_broadcast_monit.Common.{ℕ, ◌+◌, List, [], ◌∷◌, ◌++◌, Bytes, codes, flatten}
use bitmarkd_broadcast_monit.Network.Address.{itoa}
use bitmarkd_broadcast_monit.Configuration.{
  NodeConfig, InfluxDbConfig, SlackConfig, Keys, Configuration,
}

keys_text : Keys → Bytes
keys_text k =
    flatten (
      codes "Keys:\n\tpublic: \t"
      ∷ k.public
      ∷ codes "\n\tprivate: \t"
      ∷ k.private
      ∷ codes "\n"
      ∷ [])

node_text : ℕ → NodeConfig → Bytes
node_text i node = flatten (
    codes "\tnode["
    ∷ itoa i
    ∷ codes "]:\n\t\taddress: \t"
    ∷ node.ip
    ∷ codes "\n\t\tbroadcast port: "
    ∷ node.broadcast_port
    ∷ codes "\n\t\tcommand port: \t"
    ∷ node.command_port
    ∷ codes "\n\t\tpublic key: \t"
    ∷ node.public_key
    ∷ codes "\n\t\tchain: "
    ∷ node.chain
    ∷ codes "\n\t\tname: \t"
    ∷ node.name
    ∷ codes "\n"
    ∷ [])

-- The loop over the nodes, from index `i` on.
nodes_text : ℕ → List NodeConfig → Bytes
unfolding node_text
nodes_text i [] = []
nodes_text i (node ∷ nodes) = node_text i node ++ nodes_text (i + 1) nodes

influx_text : InfluxDbConfig → Bytes
influx_text config = flatten (
    codes "influx database:\n\tip:\t"
    ∷ config.ip
    ∷ codes "\n\tport:\t"
    ∷ config.port
    ∷ codes "\n\tuser:\t"
    ∷ config.user
    ∷ codes "\n\tpassword:\t"
    ∷ config.password
    ∷ codes "\n"
    ∷ [])

slack_text : SlackConfig → Bytes
slack_text config = flatten (
    codes "\tslack:\n\t\ttoken:"
    ∷ config.token
    ∷ codes "\n\t\tchannel ID: "
    ∷ config.channel_id
    ∷ codes "\n"
    ∷ [])

-- `String`; `logging` is what `%+v` makes of the log settings.
unfoldable pub configuration_text : Bytes → Configuration → Bytes
unfolding keys_text nodes_text influx_text slack_text
configuration_text logging c = flatten (
    keys_text c.keys
    ∷ codes "nodes:\n"
    ∷ nodes_text 0 c.nodes
    ∷ codes "heartbeat interval: "
    ∷ itoa c.heartbeat_interval_second
    ∷ codes " seconds\nlogging: "
    ∷ logging
    ∷ codes "\n"
    ∷ influx_text c.influx_db
    ∷ slack_text c.slack
    ∷ [])

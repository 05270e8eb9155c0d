-- ===== src/Configuration/Text/Tests.antt =====
-- configuration/configuration.go: the text of a configuration with one node.
use bitmarkd_broadcast_monit.Common.{◌≡◌, refl, [], ◌∷◌, codes}
use bitmarkd_broadcast_monit.Configuration.{NodeConfig}
use bitmarkd_broadcast_monit.Configuration.Text.{nodes_text, node_text}
use bitmarkd_broadcast_monit.Network.Address.{itoa}

abbrev a_node : NodeConfig
a_node = record {
  ip = codes "10.0.0.1";
  broadcast_port = codes "2135";
  command_port = [];
  chain = codes "bitmark";
  name = codes "n";
  public_key = codes "00";
}

node_text_test :
    nodes_text 0 (a_node ∷ [])
    ≡ codes
        "\tnode[0]:\n\t\taddress: \t10.0.0.1\n\t\tbroadcast port: 2135\n\t\tcommand port: \t\n\t\tpublic key: \t00\n\t\tchain: bitmark\n\t\tname: \tn\n"
unfolding nodes_text node_text itoa
node_text_test = refl

-- ===== src/Main/Tests.antt =====
-- main.go with a file that configures one node.
use bitmarkd_broadcast_monit.Common.{◌≡◌, refl, some, List, [], ◌∷◌, Bytes, codes, true, false}
use bitmarkd_broadcast_monit.Configuration.{Configuration, parse}
use bitmarkd_broadcast_monit.Network.Keypair.{read_public_key, read_private_key}
use bitmarkd_broadcast_monit.Common.Hex.{hex_decode}
use bitmarkd_broadcast_monit.Network.Address.{new_connection}
use bitmarkd_broadcast_monit.Network.Client.{new_client, connect}
use bitmarkd_broadcast_monit.Node.Remote.{new_remote, new_zmq_client, deferred}
use bitmarkd_broadcast_monit.Db
use bitmarkd_broadcast_monit.Db.{Influx}
use bitmarkd_broadcast_monit.Node.Keys.{parse_keys}
use bitmarkd_broadcast_monit.Node.Monitor.{Node, new_node}
use bitmarkd_broadcast_monit.Node.Monitor
use bitmarkd_broadcast_monit.Node.Receiver.Tests.{lasting}
use bitmarkd_broadcast_monit.Node.Remote.Tests.{net}
use bitmarkd_broadcast_monit.Nodes
use bitmarkd_broadcast_monit.Nodes.{Task, Initialised}
use bitmarkd_broadcast_monit.Nodes.Tests.{around, good, two}
use bitmarkd_broadcast_monit.Main.{Environment, Started, monitors, main}
use bitmarkd_broadcast_monit.Main.Starting.{IsStarted, main-IsStarted}

abbrev one : Configuration
one = record two { nodes = good ∷ [] }

-- The file is its own table.
abbrev env : Environment
env = record {
  Table = Bytes;
  exists = λ f. true;
  absolute = λ f. some f;
  run_file = λ f. some f;
  map_table = λ table config. some one;
  logger_starts = true;
  auth_starts = true;
  new_http_client = λ address user password. true;
  net = net;
  trim_space = λ t. t;
  around = around;
}

abbrev database : Influx
database = record { database = []; queue = []; is_ok = false }

abbrev nodes_of : Started → List Node
nodes_of s = elim s [ monitors c d ns t ↦ ns | _ ↦ [] ]

abbrev tasks_of : Started → List Task
tasks_of s = elim s [ monitors c d ns t ↦ t | _ ↦ [] ]

abbrev outcome : Started
outcome = main env lasting (codes "conf")

main_test : outcome ≡ monitors one database (nodes_of outcome) (tasks_of outcome)
unfolding main parse Db.initialise Nodes.initialise new_node parse_keys Monitor.initialise
    read_public_key hex_decode read_private_key new_remote new_zmq_client new_connection new_client
    deferred connect
main_test = refl

main-IsStarted_example :
    IsStarted env lasting (codes "conf") one database (nodes_of outcome) (tasks_of outcome)
main-IsStarted_example =
    main-IsStarted env lasting (codes "conf") one database (nodes_of outcome) (tasks_of outcome)
      main_test

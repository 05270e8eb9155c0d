-- ===== src/Node/Monitor/Fresh.antt =====
-- nodes/node/node.go: what `NewNode` returns and starts.
use bitmarkd_broadcast_monit.Common.{
  ℕ, ◌≡◌, refl, Option, none, some, [], ◌∷◌, Bytes, ◌⊎◌, inl, inr,
}
use bitmarkd_broadcast_monit.Configuration.{NodeConfig, Keys}
use bitmarkd_broadcast_monit.Network.Address.{Net}
use bitmarkd_broadcast_monit.Network.Client.{World}
use bitmarkd_broadcast_monit.Node.Keys.{NodeKeys, parse_keys}
use bitmarkd_broadcast_monit.Node.Remote.{Remote, new_remote}
use bitmarkd_broadcast_monit.Node.Receiver.{Recorders}
use bitmarkd_broadcast_monit.Node.Monitor.{
  Node, heartbeat_remove, Surroundings, Made, new_recorders, with_remote, with_keys, new_node,
}

-- A node of a configuration and a number, with new recorders.
pub record IsFresh (config : NodeConfig) (id : ℕ) (rs : Recorders) (n : Node) : Type 0 where
  pub config_kept : n.config ≡ config
  pub numbered : n.id ≡ id
  pub named : n.name ≡ config.name
  pub new : n.recorders ≡ rs

-- The one task that is started, and an error or a fresh node.
pub record Outcome (config : NodeConfig) (id : ℕ) (rs : Recorders) (m : Made) : Type 0 where
  pub started : m.started ≡ heartbeat_remove ∷ []
  pub result : (m.node ≡ none) ⊎ ((n : Node) × (m.node ≡ some n) × IsFresh config id rs n)

with_remote-Outcome :
    (config : NodeConfig) (id : ℕ) (rs : Recorders) (r : Option Remote) (w : World)
    → Outcome config id rs (with_remote config id rs (r, w))
unfolding with_remote
with_remote-Outcome config id rs none w = record { started = refl; result = inl refl }
with_remote-Outcome config id rs (some r) w = record {
  started = refl;
  result = inr (
    record { config = config; id = id; name = config.name; recorders = rs; remote = r },
    refl,
    record { config_kept = refl; numbered = refl; named = refl; new = refl },
  );
}

module _ (net : Net) (trim_space : Bytes → Bytes) where
  with_keys-Outcome :
      (a : Surroundings) (config : NodeConfig) (id : ℕ) (w : World) (keys : Option NodeKeys)
      → Outcome config id (new_recorders a) (with_keys net trim_space a config id w keys)
  unfolding with_keys
  with_keys-Outcome a config id w none = record { started = refl; result = inl refl }
  with_keys-Outcome a config id w (some keys) =
      let r = new_remote net a.receiver_zmq a.sender_zmq config keys w in
      with_remote-Outcome config id (new_recorders a) r.0 r.1

  -- Whatever `NewNode` returns, it has started the clean-up of the heartbeats and nothing else; a
  -- node that it returns has the configuration, its name, the number and new recorders.
  pub new_node-Outcome :
      (keys : Keys) (a : Surroundings) (config : NodeConfig) (id : ℕ) (w : World)
      → Outcome config id (new_recorders a) (new_node net trim_space keys a config id w)
  unfolding new_node
  new_node-Outcome keys a config id w =
      with_keys-Outcome a config id w (parse_keys trim_space keys config.public_key)

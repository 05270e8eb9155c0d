-- ===== src/Nodes/Making.antt =====
-- nodes/nodes.go: which nodes `Initialise` makes, and what an error leaves behind.
use bitmarkd_broadcast_monit.Common.{
  ℕ, suc, ◌+◌, ◌≡◌, refl, sym, ap, ◌∙◌, none, some, List, [], ◌∷◌, ◌++◌, Bytes, length, replicate,
  append_assoc, append-nil, arith, ◌⊎◌, inl, inr,
}
use bitmarkd_broadcast_monit.Cache.{GoCache}
use bitmarkd_broadcast_monit.Configuration.{NodeConfig, Keys, Configuration}
use bitmarkd_broadcast_monit.Network.Address.{Net}
use bitmarkd_broadcast_monit.Network.Client.{World}
use bitmarkd_broadcast_monit.Node.Monitor
use bitmarkd_broadcast_monit.Node.Monitor.{
  Node, heartbeat_remove, Surroundings, Made, new_node, new_recorders,
}
use bitmarkd_broadcast_monit.Node.Monitor.Fresh.{IsFresh, new_node-Outcome}
use bitmarkd_broadcast_monit.Nodes.{
  Task, db_start, routine, Initialised, after_node, make_nodes, initialise,
}

module _ (net : Net) (trim_space : Bytes → Bytes) (around : ℕ → Surroundings) where
  -- One fresh node for each configuration, in their order, numbered from an index on.
  abbrev pub Numbered : ℕ → List NodeConfig → List Node → Type 0
  Numbered idx [] [] = Unit {0}
  Numbered idx [] (n ∷ ns) = ⊥
  Numbered idx (c ∷ cs) [] = ⊥
  Numbered idx (c ∷ cs) (n ∷ ns) =
      IsFresh c idx (new_recorders (around idx)) n × Numbered (idx + 1) cs ns

  -- All configurations have made a node.
  pub record AllMade (cs : List NodeConfig) (idx : ℕ) (ns : List Node) (started : List Task)
      (r : Initialised) : Type 0 where
    pub made : List Node
    pub nodes : r.node_arr ≡ some (ns ++ made)
    pub numbered : Numbered idx cs made
    pub tasks : r.started ≡ started ++ replicate (length cs) (routine heartbeat_remove)

  -- The one after the first `before` has not, and those behind it have not been tried.
  pub record Refused (keys : Keys) (cs : List NodeConfig) (idx : ℕ) (started : List Task)
      (r : Initialised) : Type 0 where
    pub before : List NodeConfig
    pub config : NodeConfig
    pub behind : List NodeConfig
    pub split : cs ≡ before ++ config ∷ behind
    pub tried_at : World
    pub failed :
        (new_node net trim_space keys
          (around (idx + length before))
          config
          (idx + length before)
          tried_at).node
        ≡ none
    pub nodes : r.node_arr ≡ none
    pub tasks : r.started ≡ started ++ replicate (length before + 1) (routine heartbeat_remove)

  later-AllMade :
      (c : NodeConfig) (cs : List NodeConfig) (idx : ℕ) (n : Node) (ns : List Node)
      (started : List Task) (r : Initialised)
      → IsFresh c idx (new_recorders (around idx)) n
      → AllMade cs (idx + 1) (ns ++ n ∷ []) (started ++ routine heartbeat_remove ∷ []) r
      → AllMade (c ∷ cs) idx ns started r
  later-AllMade c cs idx n ns started r fresh a = record {
    made = n ∷ a.made;
    nodes = a.nodes ∙ ap some (append_assoc ns (n ∷ []) a.made);
    numbered = (fresh, a.numbered);
    tasks = a.tasks ∙ append_assoc started (routine heartbeat_remove ∷ []) _;
  }

  later-Refused :
      (keys : Keys) (c : NodeConfig) (cs : List NodeConfig) (idx : ℕ) (started : List Task)
      (r : Initialised)
      → Refused keys cs (idx + 1) (started ++ routine heartbeat_remove ∷ []) r
      → Refused keys (c ∷ cs) idx started r
  later-Refused keys c cs idx started r f =
      let at : idx + 1 + length f.before ≡ idx + suc (length f.before) = omega arith in
      let more : suc (length f.before + 1) ≡ suc (length f.before) + 1 = omega arith in
      record {
        before = c ∷ f.before;
        config = f.config;
        behind = f.behind;
        split = ap (λ l. c ∷ l) f.split;
        tried_at = f.tried_at;
        failed = rw (← at) f.failed;
        nodes = f.nodes;
        tasks =
            f.tasks
            ∙ append_assoc started (routine heartbeat_remove ∷ []) _
            ∙ ap (λ k. started ++ replicate k (routine heartbeat_remove)) more;
      }

  make_nodes_cases :
      (keys : Keys) (cs : List NodeConfig) (idx : ℕ) (ns : List Node) (w : World)
      (started : List Task)
      → let r = make_nodes net trim_space around keys cs idx ns w started in
        AllMade cs idx ns started r ⊎ Refused keys cs idx started r
  unfolding make_nodes after_node
  make_nodes_cases keys [] idx ns w started = inl (record {
    made = [];
    nodes = ap some (sym (append-nil ns));
    numbered = tt;
    tasks = sym (append-nil started);
  })
  make_nodes_cases keys (c ∷ cs) idx ns w started =
      let m = new_node net trim_space keys (around idx) c idx w in
      let o = new_node-Outcome net trim_space keys (around idx) c idx w in
      elim o.result [
        | inl e ↦ inr (record {
          before = [];
          config = c;
          behind = cs;
          split = refl;
          tried_at = w;
          failed = let same : idx + 0 ≡ idx = omega arith in rw same e;
          nodes = rw (make_nodes, after_node, e) refl;
          tasks = rw (make_nodes, after_node, e, o.started) refl;
        })
        | inr (n, e, fresh) ↦
            rw (make_nodes, after_node, e, o.started)
              (elim (make_nodes_cases keys cs (idx + 1) (ns ++ n ∷ []) m.world
                (started ++ routine heartbeat_remove ∷ [])) [
                  | inl a ↦ inl (later-AllMade c cs idx n ns started _ fresh a)
                  | inr f ↦ inr (later-Refused keys c cs idx started _ f)
                ])
      ]

  -- `Initialise` starts the writer to the database. It returns the nodes of all configurations, in
  -- order, numbered from 0, and has started one clean-up for each; or, at the first that fails, it
  -- returns an error, and has started a clean-up for that one and for each before it.
  pub initialise_cases :
      {V : Type 0} (cache : GoCache V) (configs : Configuration) (w : World)
      → let r = initialise net trim_space around cache configs w in
        AllMade configs.nodes 0 [] (db_start ∷ []) r
        ⊎ Refused configs.keys configs.nodes 0 (db_start ∷ []) r
  unfolding initialise Monitor.initialise
  initialise_cases cache configs w =
      make_nodes_cases configs.keys configs.nodes 0 [] w (db_start ∷ [])

-- ===== src/Main/Starting.antt =====
-- main.go: what has been done by the time that the program monitors.
use bitmarkd_broadcast_monit.Common.{
  ◌≡◌, ◌≢◌, refl, sym, ap, ◌∙◌, Bool, true, false, not, Option, none, some, List, [], ◌∷◌, ◌++◌,
  Bytes, is_empty_string, length, replicate, map, inl, inr, subst, if◌then◌else◌,
}
use bitmarkd_broadcast_monit.Cache.{GoCache}
use bitmarkd_broadcast_monit.Configuration.{Configuration, parse}
use bitmarkd_broadcast_monit.Db
use bitmarkd_broadcast_monit.Db.{Influx}
use bitmarkd_broadcast_monit.Network.Authentication.{start_authentication}
use bitmarkd_broadcast_monit.Node.Monitor.{Node, heartbeat_remove}
use bitmarkd_broadcast_monit.Nodes
use bitmarkd_broadcast_monit.Nodes.{Task, db_start, routine, node_monitor, Initialised, monitor}
use bitmarkd_broadcast_monit.Nodes.Making.{Numbered, initialise_cases}
use bitmarkd_broadcast_monit.Main.{
  Environment, Started, no_config_file, not_parsed, no_logger, no_authentication, no_database,
  no_nodes, monitors, parse_flag, with_nodes, with_database, with_config, main,
}

monitors_injective :
    {c c' : Configuration} {d d' : Influx} {n n' : List Node} {t t' : List Task}
    → monitors c d n t ≡ monitors c' d' n' t'
    → (c ≡ c') × (d ≡ d') × (n ≡ n') × (t ≡ t')
monitors_injective e = (cc, cc, cc, cc)

-- A start that does not monitor.
abbrev Ends : Started → Type 0
Ends (monitors c d n t) = ⊥
Ends s = Unit {0}

not_monitors :
    (s : Started) {c : Configuration} {d : Influx} {n : List Node} {t : List Task}
    → Ends s
    → s ≢ monitors c d n t
not_monitors no_config_file h e = cc
not_monitors not_parsed h e = cc
not_monitors no_logger h e = cc
not_monitors no_authentication h e = cc
not_monitors no_database h e = cc
not_monitors (no_nodes r) h e = cc
not_monitors (monitors c d n t) h e = h

module _ (env : Environment) {V : Type 0} (cache : GoCache V) where
  open env use {
    exists, absolute, run_file, map_table, logger_starts, auth_starts, new_http_client, net,
    trim_space, around,
  }

  pub record IsStarted (file : Bytes) (config : Configuration) (db : Influx) (ns : List Node)
      (tasks : List Task) : Type 0 where
    pub named : is_empty_string file ≡ false
    pub found : exists file ≡ true
    pub parsed : parse absolute run_file map_table file ≡ some config
    pub logger : logger_starts ≡ true
    pub authentication : auth_starts ≡ true
    pub database : Db.initialise new_http_client config.influx_db ≡ some db
    pub numbered : Numbered net trim_space around 0 config.nodes ns
    pub started :
        tasks
        ≡ (db_start ∷ replicate (length config.nodes) (routine heartbeat_remove))
          ++ map node_monitor ns

  nodes_made :
      (config config' : Configuration) (db db' : Influx) (ns : List Node) (tasks : List Task)
      → with_nodes env cache config db
          (Nodes.initialise net trim_space around cache config (record { sockets = []; next = 0 }))
        ≡ monitors config' db' ns tasks
      → (config ≡ config')
        × (db ≡ db')
        × Numbered net trim_space around 0 config.nodes ns
        × (tasks
            ≡ (db_start ∷ replicate (length config.nodes) (routine heartbeat_remove))
              ++ map node_monitor ns)
  unfolding with_nodes monitor
  nodes_made config config' db db' ns tasks e =
      elim (initialise_cases net trim_space around cache config
        (record { sockets = []; next = 0 })) [
          | inl a ↦
              let (c, d, n, t) = monitors_injective (rw (with_nodes, a.nodes, a.tasks) at e) in
              (
                c,
                d,
                subst (Numbered net trim_space around 0 config.nodes) n a.numbered,
                sym t
                    ∙ ap
                        (λ l.
                          (db_start ∷ replicate (length config.nodes) (routine heartbeat_remove))
                          ++ map node_monitor l)
                        n,
              )
          | inr f ↦ absurd (not_monitors (no_nodes _) tt (rw (with_nodes, f.nodes) at e))
        ]

  past_start :
      (logger auth : Bool) (config : Configuration) (o : Option Influx) {c : Configuration}
      {d : Influx} {n : List Node} {t : List Task}
      → (if not logger
          then no_logger
          else if not (start_authentication auth false).0
          then no_authentication
          else with_database env cache config o)
        ≡ monitors c d n t
      → (logger ≡ true)
        × (auth ≡ true)
        × ((db : Influx) × (o ≡ some db)
            × (with_database env cache config (some db) ≡ monitors c d n t))
  unfolding start_authentication with_database
  past_start false auth config o e = absurd (not_monitors no_logger tt e)
  past_start true false config o e = absurd (not_monitors no_authentication tt e)
  past_start true true config none e = absurd (not_monitors no_database tt e)
  past_start true true config (some db) e = (refl, refl, (db, refl, e))

  past_file :
      (empty there : Bool) (o : Option Configuration) {c : Configuration} {d : Influx}
      {n : List Node} {t : List Task}
      → (if not (if empty then false else there) then no_config_file else with_config env cache o)
        ≡ monitors c d n t
      → (empty ≡ false)
        × (there ≡ true)
        × ((config : Configuration) × (o ≡ some config)
            × (with_config env cache (some config) ≡ monitors c d n t))
  unfolding with_config
  past_file true there o e = absurd (not_monitors no_config_file tt e)
  past_file false false o e = absurd (not_monitors no_config_file tt e)
  past_file false true none e = absurd (not_monitors not_parsed tt e)
  past_file false true (some config) e = (refl, refl, (config, refl, e))

  -- If the program comes to monitor, then its file was named, found and parsed, the logger, zmq4 and
  -- the writer to the database were set up, there is a fresh node for each configuration, in order
  -- and numbered from 0, and the tasks started are the writer, a clean-up for each node, and a
  -- monitor of each.
  pub main-IsStarted :
      (file : Bytes) (config : Configuration) (db : Influx) (ns : List Node) (tasks : List Task)
      → main env cache file ≡ monitors config db ns tasks
      → IsStarted file config db ns tasks
  unfolding main parse_flag with_config with_database
  main-IsStarted file config db ns tasks e =
      let (empty, there, (c, parsed, e')) =
        past_file (is_empty_string file) (exists file) (parse absolute run_file map_table file) e in
      let (logger, auth, (d, made, e'')) =
        past_start logger_starts auth_starts c (Db.initialise new_http_client c.influx_db) e' in
      let (same, same', numbered, started) = nodes_made c config d db ns tasks e'' in
      record {
        named = empty;
        found = there;
        parsed = parsed ∙ ap some same;
        logger = logger;
        authentication = auth;
        database =
            ap (λ (k : Configuration). Db.initialise new_http_client k.influx_db) (sym same)
            ∙ made
            ∙ ap some same';
        numbered =
            subst (λ (k : Configuration). Numbered net trim_space around 0 k.nodes ns) same
              numbered;
        started =
            started
            ∙ ap
                (λ (k : Configuration).
                  (db_start ∷ replicate (length k.nodes) (routine heartbeat_remove))
                  ++ map node_monitor ns)
                same;
      }

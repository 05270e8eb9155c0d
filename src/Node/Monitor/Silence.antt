-- ===== src/Node/Monitor/Silence.antt =====
-- nodes/node/: which notices a node ever sends, whatever it receives.
use bitmarkd_broadcast_monit.Common.{
  ℕ, ap, subst, arith, ◌∙◌, none_ne, ◌≡◌, sym, some, List, [], ◌∷◌, Bytes, Option-cases, inl, inr,
}
use mathlib.Core.Option.{some-injective}
use bitmarkd_broadcast_monit.Clock.{Time}
use bitmarkd_broadcast_monit.Cache.{GoCache}
use bitmarkd_broadcast_monit.Recorder.Blocks.Hashless.{IsBlind, new_block-IsBlind}
use bitmarkd_broadcast_monit.Recorder.Blocks.Silent.{cleanup-IsBlind}
use bitmarkd_broadcast_monit.Node.Receiver.{CacheValue, Bitmarkd, process}
use bitmarkd_broadcast_monit.Node.Receiver.Blind.{process-Step}
use bitmarkd_broadcast_monit.Node.Checker.{Event}
use bitmarkd_broadcast_monit.Node.Checker.Notices.{AllSilent, checker_event-StaysQuiet}
use bitmarkd_broadcast_monit.Configuration.{NodeConfig, Keys}
use bitmarkd_broadcast_monit.Db.{Influx}
use bitmarkd_broadcast_monit.Messengers.{new_slack}
use bitmarkd_broadcast_monit.Network.Address.{Net}
use bitmarkd_broadcast_monit.Network.Client.{World}
use bitmarkd_broadcast_monit.Node.Receiver.{Recorders}
use bitmarkd_broadcast_monit.Node.Checker.{Notice, new_checker}
use bitmarkd_broadcast_monit.Node.Monitor.Fresh.{new_node-Outcome}
use bitmarkd_broadcast_monit.Node.Monitor.{
  Node, Surroundings, new_node, new_recorders, monitored, Machine, Action, receive, clean_blocks,
  clean_transactions, clean_heartbeats, check, act, act_all,
}

none_sent : (token channel : Bytes) → [] ≡ (new_slack {Message = Notice} token channel).outgoing
unfolding new_slack
none_sent token channel = ground arith

module _ (bitmarkd : Bitmarkd) (cache : GoCache (CacheValue bitmarkd.Digest)) where
  -- The block record is blind, and no notice so far is about a fork or a missing block.
  pub record IsQuiet (m : Machine bitmarkd cache) : Type 0 where
    pub blind : IsBlind m.shared.recorders.block
    pub silent : AllSilent m.checker.slack.outgoing

  receive-IsQuiet :
      (name : Bytes) (now : Time) (frames : List Bytes) (m m' : Machine bitmarkd cache)
      → act bitmarkd cache name (receive now frames) m ≡ some m'
      → IsQuiet m
      → IsQuiet m'
  unfolding act
  receive-IsQuiet name now frames m m' e q =
      elim (Option-cases (process bitmarkd cache now frames m.shared)) [
        | inl n ↦ absurd (none_ne (rw (act, n) at e))
        | inr (s, n) ↦ rw (sym (some-injective _ _ (rw (act, n) at e))) (record {
          blind = (process-Step bitmarkd cache now frames m.shared s n).block q.blind;
          silent = q.silent;
        })
      ]

  check-IsQuiet :
      (name : Bytes) (event : Event) (m m' : Machine bitmarkd cache)
      → act bitmarkd cache name (check event) m ≡ some m'
      → IsQuiet m
      → IsQuiet m'
  unfolding act
  check-IsQuiet name event m m' e q =
      let (c, n, silent) =
        checker_event-StaysQuiet name event m.shared.recorders m.checker q.blind q.silent in
      rw (sym (some-injective _ _ (rw (act, n) at e))) (record { blind = q.blind; silent = silent })

  act-IsQuiet :
      (name : Bytes) (a : Action bitmarkd cache) (m m' : Machine bitmarkd cache)
      → act bitmarkd cache name a m ≡ some m'
      → IsQuiet m
      → IsQuiet m'
  unfolding act
  act-IsQuiet name (receive now frames) m m' e q = receive-IsQuiet name now frames m m' e q
  act-IsQuiet name (clean_blocks now) m m' e q =
      rw (sym (some-injective _ _ e))
        (record { blind = cleanup-IsBlind m.shared.recorders.block now q.blind; silent = q.silent })
  act-IsQuiet name (clean_transactions now) m m' e q =
      rw (sym (some-injective _ _ e)) (record { blind = q.blind; silent = q.silent })
  act-IsQuiet name (clean_heartbeats now) m m' e q =
      rw (sym (some-injective _ _ e)) (record { blind = q.blind; silent = q.silent })
  act-IsQuiet name (check event) m m' e q = check-IsQuiet name event m m' e q

  -- However the routines of a node take turns and whatever messages it receives, from a blind
  -- block record and a messenger that has sent no notice about a fork or a missing block on, it
  -- never sends one.
  pub act_all-IsQuiet :
      (name : Bytes) (actions : List (Action bitmarkd cache)) (m m' : Machine bitmarkd cache)
      → act_all bitmarkd cache name actions m ≡ some m'
      → IsQuiet m
      → IsQuiet m'
  unfolding act_all
  act_all-IsQuiet name [] m m' e q = rw (sym (some-injective _ _ e)) q
  act_all-IsQuiet name (a ∷ rest) m m' e q = elim (Option-cases (act bitmarkd cache name a m)) [
    | inl n ↦ absurd (none_ne (rw (act_all, n) at e))
    | inr (k, n) ↦
        act_all-IsQuiet name rest k m' (rw (act_all, n) at e) (act-IsQuiet name a m k n q)
  ]

  monitored-IsQuiet :
      (a : Surroundings) (n : Node) (store : cache.Store) (influx : Influx) (token channel : Bytes)
      → n.recorders ≡ new_recorders a
      → IsQuiet (monitored bitmarkd cache n store influx (new_slack token channel))
  unfolding monitored new_recorders new_checker new_slack
  monitored-IsQuiet a n store influx token channel e = record {
    blind =
        subst IsBlind (ap (λ (rs : Recorders). rs.block) (sym e)) (new_block-IsBlind a.block_time);
    silent = subst AllSilent (none_sent token channel) tt;
  }

  -- However its routines take turns and whatever messages it receives, as long as nothing panics a
  -- node that `NewNode` has made never sends a notice about a fork or a missing block.
  pub act_all-AllSilent :
      (net : Net) (trim_space : Bytes → Bytes) (keys : Keys) (a : Surroundings)
      (config : NodeConfig) (id : ℕ) (w : World) (n : Node) (store : cache.Store) (influx : Influx)
      (token channel : Bytes) (actions : List (Action bitmarkd cache)) (m : Machine bitmarkd cache)
      → (new_node net trim_space keys a config id w).node ≡ some n
      → act_all bitmarkd cache n.name actions
          (monitored bitmarkd cache n store influx (new_slack token channel))
        ≡ some m
      → AllSilent m.checker.slack.outgoing
  act_all-AllSilent net trim_space keys a config id w n store influx token channel actions m made
        e =
      elim (new_node-Outcome net trim_space keys a config id w).result [
        | inl fails ↦ absurd (none_ne (sym fails ∙ made))
        | inr (n', made', fresh) ↦
            let same : n.recorders ≡ new_recorders a =
              ap (λ (k : Node). k.recorders) (some-injective _ _ (sym made ∙ made')) ∙ fresh.new in
            (act_all-IsQuiet n.name actions _ m e
              (monitored-IsQuiet a n store influx token channel same)).silent
      ]

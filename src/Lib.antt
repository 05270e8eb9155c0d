-- ===== src/Lib.antt =====
-- The verification of the broadcast monitor: a program that subscribes to the broadcasts of
-- bitmarkd nodes, records blocks, transactions and heartbeats of the last two hours, and reports
-- forks, missing blocks, late confirmations and drop rates.
--
-- How the parts work together: main.go reads the configuration, sets up the writer to the database
-- (db/influx.go) and makes the nodes (nodes/nodes.go), each with two zmq clients
-- (nodes/node/remote.go, network/client.go). A node starts routines through tasks/: the receiver
-- (nodes/node/receiver.go) decodes messages with the help of a cache (cache/) and adds to the
-- recorders (recorder/), which a loop of their own cleans up; the checker (nodes/node/checker.go)
-- takes their summaries, adds drop rates to the writer's queue and sends notices to Slack
-- (messengers/); the sender (nodes/node/sender.go) asks the node by communication/.
--
-- The files, and the code that they model:
--   Recorder.Blocks and its children: recorder/blocks.go. `Blocks` is the struct `blocks`; `add`,
--     `cleanup`, `summary` and `valid` are `Add`, the timer's branch of `PeriodicRemove`, `Summary`
--     and `Valid`, each with its helpers under the names of the source. Recorder.Blocks.Text is
--     `String`. Recorder.Blocks.Ring and its children look at the array as a queue: `Holds` relates
--     the two, and `queue_op` of Recorder.Blocks.Ring.History is the queue.
--   Recorder.Transactions: recorder/transaction.go. Recorder.Heartbeat: recorder/heartbeat.go. Each
--     has a child Text for `String`.
--   Recorder.Periodic: the loop of `PeriodicRemove`, which the three recorders share but for their
--     clean-up.
--   Db: db/influx.go; Db.Package: the functions over its package variable. Configuration:
--     configuration/, with the text in Configuration.Text. Cache: cache/. Messengers: messengers/slack.go.
--   Node.Receiver: `process`, and in Node.Receiver.Routine the loop of `receiverRoutine` with its
--     timer, in nodes/node/receiver.go. Node.Receiver.Reconnecting: `initialisePoller` and
--     `reconnect`; Node.Receiver.Shutdown: the channel between the loop of `Start` in
--     network/poller.go and `receiverRoutine`, as a step relation.
--   Node.Checker: nodes/node/checker.go, and `sendToSlack` of nodes/node/node.go.
--   Node.Remote: nodes/node/remote.go. Node.Keys: `parseKeys` of nodes/node/node.go. Node.Sender:
--     the loop of nodes/node/sender.go. Node.Remote.Requests: `Info`, `Height` and `BlockHeader` over
--     communication/; Node.Sender.Talking: a turn of the sender's loop with them.
--   Node.Monitor: `Initialise`, `NewNode` and `Monitor` of nodes/node/node.go, and the receiver, the
--     clean-ups and the checker of one node as steps on the recorders that they share.
--   Nodes: nodes/nodes.go. Main: main.go.
--   Communication: the requests of communication/.
--   Tasks: tasks/task.go.
--   Network.Keypair, Network.Address, Network.Client: network/keypair.go, network/util.go and
--     network/client.go. Network.Authentication: network/authentication.go.
--   Network.SignalPair, Network.Poller: network/signal_pair.go and network/poller.go, the poller as
--     a step relation.
--   Clock, Clock.Timer: times, durations and timers as package time has them. Common: what the
--     modules share.
--
-- How state and errors are modelled: an operation takes the state and returns the new one; times
-- that the source reads from the clock are arguments; a run-time panic is `none`. A loop of the
-- source is a function over the list it runs through; the events that a `select` waits for are a
-- list, in the order in which they are taken. Drop rates, which the source computes in float64,
-- are exact quotients. The one definition on fuel is `Network.Address.digits_of`, which writes a
-- number: it is given one more than the number, and a number has no more digits than that.
--
-- Libraries that are not in the repository are parameters: bitmarkd's decoders, go-cache with the
-- law that a value is found until it expires, the influx client, zmq4 by the answers of its calls,
-- package net, the Slack client by what it was asked to send, the logger, and the Lua interpreter
-- with its mapper.
--
-- Not modelled: the texts for the log, which change no state, and the settings of the logger in the
-- configuration; in nodes/node/sender.go `remoteHeight`,
-- which nothing calls; the Go runtime below the steps that are named, such as the memory model of
-- shared variables.
pub mod Common
pub mod Clock
pub mod Recorder
pub mod Configuration
pub mod Db
pub mod Cache
pub mod Messengers
pub mod Network
pub mod Communication
pub mod Node
pub mod Tasks
pub mod Nodes
pub mod Main

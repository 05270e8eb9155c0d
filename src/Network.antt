-- ===== src/Network.antt =====
-- network/: addresses, keys, the client of a node's sockets, and the poller.
pub mod Keypair
pub mod Address
pub mod Client
pub mod SignalPair
pub mod Poller
pub mod Authentication

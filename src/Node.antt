-- ===== src/Node.antt =====
-- nodes/node/: one monitored bitmarkd, its broadcasts and its queries.
pub mod Receiver
pub mod Sender
pub mod Keys
pub mod Remote
pub mod Checker
pub mod Monitor

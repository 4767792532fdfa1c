-- ===== src/Protocol.antt =====
-- protocol/src/lib.rs: the state snapshot that the agent publishes to its clients.
pub mod Operation
pub mod Account
pub mod Connection
pub mod Features
pub mod Snapshot

-- ===== src/StateReducer.antt =====
-- agent/src/state_reducer.rs: what the events of the backend make of the snapshot.
pub mod Account
pub mod Features
pub mod Connection
pub mod Events
pub mod Invariant
pub mod Runs
pub mod Frame
mod Tests

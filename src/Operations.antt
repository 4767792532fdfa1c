-- ===== src/Operations.antt =====
-- agent/src/operations.rs: the coordinator that admits, tracks and closes the agent's operations.
pub mod Spec
pub mod Ids
pub mod Registry
pub mod Begin
pub mod Finish
pub mod Calls
pub mod Invariant
pub mod Identity
pub mod Runs
pub mod Leases
pub mod Cancel
pub mod Refusal
pub mod Listed
pub mod Interrupted
mod Tests

-- ===== src/Splitd.antt =====
-- splitd/src: the privileged service that enforces split tunnelling.
pub mod Config
pub mod Tracking
pub mod Engine
pub mod Requests
pub mod Events
pub mod Connector
mod Frames
mod Reading
mod Parsing
mod Lossless
pub mod Procfs
mod Parents
mod ProcessTests
mod Keeps
mod Bypass
mod Outcome
mod Quiet
mod Guarded
mod Normalize
mod Validate
mod Rounds
mod Propagation
mod Descent
mod Marks
mod Remark
mod InStep
mod Follow
mod Tests
mod EngineTests

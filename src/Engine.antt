-- ===== src/Engine.antt =====
-- rust-client/src/engine.rs, a child module for each part.
pub mod State
pub mod Queue
pub mod Reconcile
pub mod Startup
pub mod Push
pub mod Apply
pub mod Tick
pub mod ClientState
pub mod Suspended
pub mod Pending
pub mod Keeps
pub mod Rounds
pub mod Ending
pub mod Returns

-- ===== src/Daemon.antt =====
-- rust-client/src/daemon.rs, a child module for each part.
pub mod Schedule
pub mod Backoff
pub mod Release
pub mod Monitor
pub mod Host
pub mod Connect
pub mod Connecting
pub mod Turn
pub mod MainLoop
pub mod Run
pub mod Paused
pub mod Noticed
pub mod Collected
pub mod Exclusive

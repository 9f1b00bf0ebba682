-- ===== src/Tests.antt =====
-- Concrete worlds for rust-client: files in memory, codecs that read back what they print, and
-- runs of the client on them.
pub mod Memory
pub mod Codecs
mod Journals
mod Rules
mod Inboxes
mod Engines
mod Wires
mod Manifests
mod Dataset
mod Daemons
mod Disks
mod Commands

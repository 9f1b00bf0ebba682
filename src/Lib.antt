-- ===== src/Lib.antt =====
-- The sync core of the headless client (rust-client/src), which keeps an Obsidian vault on disk
-- in step with a server: local changes go out through a durable outbox, remote changes come in
-- through a durable inbox, in order of the server's revisions.
--
-- Parts and how they interact. `engine.rs` owns the state and calls the rest: `enqueue_durable`
-- appends to the outbox, `tick` drains it through the transport, fetches new lines into the
-- inbox and applies them to the files, and `tracker.rs` (the manifest) tells which files
-- changed. `guard.rs` stops an unusually large push. Both journals are files of `jsonl.rs`, on
-- the interface `SyncFs` of `fs.rs`.
-- Base: text as a list of code points, results with state (`Exec`, and `Ensures`, a
-- postcondition for both ways a run can end), maps and sets in ascending order of their keys,
-- and `sort_by_key` of the Rust standard library.
-- Op, Protocol: `rust-client/src/protocol.rs`; Paths: `paths.rs` and the path policy of
-- `protocol.rs`; Guard: `guard.rs`; Fs: `fs.rs`; Jsonl: `jsonl.rs`; Outbox:
-- `outbox.rs`; Inbox: `inbox.rs`; Tracker: `tracker.rs`; Http: `transport.rs`; Settings:
-- `settings.rs`, with `data.json` on a disk in Settings/File; Error: the typed errors of
-- `engine.rs` and `transport.rs`.
-- Fs: the trait, and in Local and Inbound `LocalFs`, over Disk and Calls: a disk and what the
-- client uses of `std::fs` on it. The other children are proofs.
-- Engine: `engine.rs`. State has the struct and what it is given, Queue `enqueue_durable`,
-- Reconcile `reconcile_paths` and `rescan`, Startup `startup_reconcile`, Push
-- `drain_outbox_once`, Apply `apply_remote_inbox`, Tick `tick`. The other children are proofs.
-- Daemon: `daemon.rs`, the service around the engine. Schedule has `TickSchedule` and
-- `DirtyPaths`, Monitor the thread that watches for Obsidian, Host what the service is given,
-- Connect `connect`, Turn `absorb`, `pause_for_obsidian` and `log_tick`, MainLoop `main_loop`,
-- Run `run`. The other children are proofs. Watcher: `watcher.rs`, which feeds the main loop.
-- Cli: `cli.rs`. Cli itself has `parse_args`, Verify `verify`, Commands the other one-shot
-- commands, Main the dispatch of `main.rs`; Log: `log.rs`. Printed, Compared and InSync are proofs.
-- Tests: files in memory, codecs, servers and handlers at which the theorems are used.
--
-- A method that takes `&mut self` is a function on the pair of the object and the world `W`. The
-- world is a parameter: files, server, clocks and the flag `suspended`, which any step may find
-- changed. A closure's captured variables stand beside that pair. Names are the source's, in
-- snake_case; a `match` or a loop body has a helper of its own.
--
-- Parameters: `serde_json` (`Codec`, with `IsLawful` for what it promises), `sha2` (`digest`),
-- `ureq` (`Wire.call`), `notify` (the argument of `handle`), threads and signals (`Host`,
-- `Process`), the standard streams (`Shell`, `Machine`), `data.json` (`Files`, which
-- Settings/File implements on the disk of Fs/Disk), the files (`SyncFs`, with `HasContents` for
-- what its documentation promises of text files, a failing write included), `/proc`. `HasContents`
-- counts the `.tmp` and `.bak` files beside a journal as part of its content; what `LocalFs`
-- does with them is the subject of Fs/Atomic and Fs/Grows, on a disk where each call can fail.
--
-- Numbers are unbounded. The source's `usize` counts are bounded by the memory that holds the
-- lists; its `u64` revisions and times are compared and copied, never computed with. The 32-bit
-- hash of `settings.rs` wraps around. An `Instant` is a number of nanoseconds.
--
-- Fuel: the `loop` of `run_tick` (`drain_rounds`); a run that has used it up is told apart from
-- one that returned, and one round is enough (Engine/Ending, Engine/Returns). The loops of
-- `daemon.rs` wait for the server, for Obsidian and for signals, and have no bound: their fuel
-- is any number, and what is shown holds for each; so is that of `list_files_under`. All other
-- loops are structural recursions.
--
-- Not modelled: the calls that write log lines, but for those of `log_tick`; the text of the
-- usage message; time limits; the plugin, the server and the shared protocol in TypeScript.
pub mod Base
pub mod Op
pub mod Error
pub mod Guard
pub mod Paths
pub mod Fs
pub mod Jsonl
pub mod Outbox
pub mod Inbox
pub mod Tracker
pub mod Engine
pub mod Watcher
pub mod Daemon
pub mod Cli
pub mod Log
pub mod Protocol
pub mod Http
pub mod Settings
mod Tests

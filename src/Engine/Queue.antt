-- ===== src/Engine/Queue.antt =====
-- rust-client/src/engine.rs: the queueing of local changes.
use obsidian_sync_engine.Base.{
  ℕ, Text, true, Option, none, some, List, [], ◌∷◌, if◌then◌else◌, ◌==◌, map, TextMap, Result, ok,
  err, pure, fail, lift, ◌>>=◌, ◌>>◌, on_world, gets, update, catch,
}
use obsidian_sync_engine.Base.Map
use obsidian_sync_engine.Base.Set
use obsidian_sync_engine.Op.{OpKind, delete, op_eq}
use obsidian_sync_engine.Error.{Error, Any, io}
use obsidian_sync_engine.Fs.{PathStat}
use obsidian_sync_engine.Paths.{canonicalize_sync_path}
use obsidian_sync_engine.Outbox
use obsidian_sync_engine.Outbox.{OutboxOp}
use obsidian_sync_engine.Tracker
use obsidian_sync_engine.Engine.State.{
  Env, SyncEngine, State, with_tracker, reading, assert_active, current_revision,
}

-- The paths in the outbox, and those whose enqueue failed.
abbrev pub pending_of : List OutboxOp → SyncEngine → SyncEngine
pending_of ops e = record e {
  pending_outbox_paths =
      Set.extend (Map.keys e.failed_enqueues)
        (Set.extend (map (λ (op : OutboxOp). op.path) ops) []);
}

module _ {W : Type 0} (env : Env W) where
  -- `outbox::list` of the engine's own outbox.
  unfoldable pub outbox_list : Any (State W) (List OutboxOp)
  unfolding Outbox.list_ops
  outbox_list = do
    paths ← gets (λ (e : SyncEngine). e.paths)
    on_world (Outbox.list_ops env.fs env.outbox_codec paths.outbox)

  unfoldable pub hydrate : Any (State W) (Unit {0})
  unfolding outbox_list Set.extend
  hydrate = do ops ← outbox_list; update (λ e. record (pending_of ops e) { hydrated = true })

  unfoldable pub ensure_hydrated : Any (State W) (Unit {0})
  unfolding hydrate
  ensure_hydrated = do
    hydrated ← gets (λ (e : SyncEngine). e.hydrated)
    if hydrated then pure tt else hydrate

  abbrev base_for : OpKind → ℕ → Option ℕ
  base_for op revision = if op == delete then some revision else none

  -- The end of `enqueue_durable`, by what the write returned.
  unfoldable pub after_enqueue :
      Text → OutboxOp → Result Error (Unit {0}) → Any (State W) (Unit {0})
  unfolding Map.insert Map.remove
  after_enqueue path intent (err error) = do
    update (λ e. record e { failed_enqueues = Map.insert path intent e.failed_enqueues })
    fail error
  after_enqueue path intent (ok _) =
      update (λ e. record e { failed_enqueues = Map.remove path e.failed_enqueues })

  unfoldable pub enqueue_durable : Text → OpKind → Any (State W) (Unit {0})
  unfolding assert_active canonicalize_sync_path Set.insert Outbox.enqueue after_enqueue
  enqueue_durable raw_path op = do
    on_world (assert_active env)
    path ← lift (canonicalize_sync_path raw_path)
    ts ← on_world (reading env.now_ms)
    revision ← on_world (current_revision env)
    let intent : OutboxOp = record {
      op = op;
      path = path;
      ts = ts;
      base_revision = base_for op revision;
    }
    update (λ e. record e { pending_outbox_paths = Set.insert path e.pending_outbox_paths })
    paths ← gets (λ (e : SyncEngine). e.paths)
    written ← catch (on_world (Outbox.enqueue env.fs env.outbox_codec paths.outbox intent))
    after_enqueue path intent written

  -- The loop of `retry_failed_enqueues` over a copy of the map.
  unfoldable pub retry_each : TextMap OutboxOp → Any (State W) (Unit {0})
  unfolding Outbox.enqueue Map.remove Tracker.record_stat Tracker.forget
  retry_each [] = pure tt
  retry_each ((path, op) ∷ failed) = do
    paths ← gets (λ (e : SyncEngine). e.paths)
    on_world (Outbox.enqueue env.fs env.outbox_codec paths.outbox op)
    update (λ e. record e { failed_enqueues = Map.remove path e.failed_enqueues })
    found ← on_world (io (env.fs.stat path))
    elim found [
      | some (PathStat.file size mtime_ns) ↦ do
        hash ← on_world (io (env.fs.hash_file path))
        update (λ e.
            with_tracker e (Tracker.record_stat path hash (PathStat.file size mtime_ns) e.tracker))
        retry_each failed
      | _ ↦ do update (λ e. with_tracker e (Tracker.forget path e.tracker)); retry_each failed
    ]

  unfoldable pub retry_failed_enqueues : Any (State W) (Unit {0})
  unfolding retry_each
  retry_failed_enqueues = do
    failed ← gets (λ (e : SyncEngine). e.failed_enqueues)
    retry_each failed

-- ===== src/Engine/Apply.antt =====
-- rust-client/src/engine.rs: the inbox comes in from the server.
use obsidian_sync_engine.Base.{
  ℕ, ◌+◌, Text, Bytes, Bool, true, false, not, ◌&&◌, Option, some, List, [], ◌∷◌, ◌++◌,
  if◌then◌else◌, ◌==◌, ltb, split, any, is_empty, ok, err, pure, fail, lift, ◌>>=◌, ◌>>◌, on_world,
  gets, update, catch, for_each, Result,
}
use obsidian_sync_engine.Base.Tests.{nat_eq, list_eq}
use obsidian_sync_engine.Op.{InboxOp}
use obsidian_sync_engine.Error.{Error, Any, io, is_remote_file_not_found}
use obsidian_sync_engine.Fs.{PathStat, sha256_hex}
use obsidian_sync_engine.Paths.{
  ancestor_dirs, canonicalize_sync_path, contains_client_state, is_hidden, is_sync_excluded_path,
  is_watched_path, paths_structurally_conflict,
}
use obsidian_sync_engine.Inbox.{InboxHandler, append_inbox, apply_inbox}
use obsidian_sync_engine.Tracker
use obsidian_sync_engine.Engine.State.{
  Env, SyncEngine, State, with_tracker, on_tracker, beside_fs, assert_active, current_revision,
}
use obsidian_sync_engine.Engine.Reconcile.{reconcile_paths}

module _ {W : Type 0} (env : Env W) where
  -- `!self.tracker.matches_disk(..)?` for a watched path, else false.
  unfoldable pub is_unobserved : Text → Any (State W) Bool
  unfolding is_watched_path Tracker.matches_disk
  is_unobserved path =
      if is_watched_path path
      then (do
        tracker ← gets (λ (e : SyncEngine). e.tracker)
        same ← on_world (Tracker.matches_disk env.fs tracker path)
        pure (not same))
      else pure false

  unfoldable pub unobserved_files : List Text → Any (State W) (List Text)
  unfolding is_unobserved
  unobserved_files [] = pure []
  unobserved_files (file ∷ files) = do
    unseen ← is_unobserved file
    rest ← unobserved_files files
    pure (if unseen then file ∷ rest else rest)

  -- The `match` of `queue_unobserved_changes` on one candidate.
  unfoldable pub look_at : Text → Bool → Option PathStat → Any (State W) (List Text)
  unfolding unobserved_files Tracker.contains
  look_at candidate is_target (some (PathStat.file size mtime_ns)) =
      unobserved_files (candidate ∷ [])
  look_at candidate is_target (some PathStat.dir) =
      if is_target
      then (do files ← on_world (io (env.fs.list_files_under candidate)); unobserved_files files)
      else pure []
  look_at candidate is_target _ = do
    known ← gets (λ (e : SyncEngine). Tracker.contains e.tracker candidate)
    pure (if is_target && known then candidate ∷ [] else [])

  unfoldable pub look_at_each : Text → List Text → Any (State W) (List Text)
  unfolding look_at list_eq
  look_at_each path [] = pure []
  look_at_each path (candidate ∷ candidates) = do
    found ← on_world (io (env.fs.stat candidate))
    dirty ← look_at candidate (candidate == path) found
    rest ← look_at_each path candidates
    pure (dirty ++ rest)

  unfoldable pub queue_unobserved_changes : Text → Any (State W) Bool
  unfolding ancestor_dirs look_at_each reconcile_paths
  queue_unobserved_changes path = do
    dirty ← look_at_each path (ancestor_dirs path ++ (path ∷ []))
    if is_empty dirty
        then pure false
        else do queued ← reconcile_paths env dirty; pure (ltb 0 queued)

  -- `self.fs.stat(path)?` is a file and `hash_file(path)? == sha256_hex(&data)`.
  unfoldable pub already_there : Text → Bytes → Any (State W) Bool
  unfolding sha256_hex list_eq
  already_there path bytes = do
    found ← on_world (io (env.fs.stat path))
    elim found [
      | some (PathStat.file size mtime_ns) ↦ do
        hash ← on_world (io (env.fs.hash_file path))
        pure (hash == sha256_hex env.digest bytes)
      | _ ↦ pure false
    ]

  -- The end of `apply_remote_put`, with the bytes at hand.
  unfoldable pub store_remote : Text → Bytes → Any (State W) (Unit {0})
  unfolding assert_active already_there ancestor_dirs Tracker.forget Tracker.record_written for_each
  store_remote path bytes = do
    on_world (assert_active env)
    there ← already_there path bytes
    if there then pure tt else do
      on_world (io (env.fs.write_binary path bytes))
      for_each (ancestor_dirs path)
          (λ dir. update (λ e. with_tracker e (Tracker.forget dir e.tracker)))
    on_tracker (Tracker.record_written env.fs env.digest path bytes)

  -- The `match` of `apply_remote_put` on the download.
  unfoldable pub store_download : Text → Result Error Bytes → Any (State W) (Unit {0})
  unfolding store_remote assert_active
  store_download path (ok bytes) = store_remote path bytes
  store_download path (err error) = do
    on_world (assert_active env)
    if is_remote_file_not_found error then pure tt else fail error

  unfoldable pub apply_remote_put : Text → Any (State W) (Unit {0})
  unfolding canonicalize_sync_path is_sync_excluded_path store_download
  apply_remote_put path = do
    lift (canonicalize_sync_path path)
    if is_sync_excluded_path path
        then pure tt
        else do result ← on_world (catch (env.transport.download path)); store_download path result

  -- The folders that the removal left empty; a failure is only logged.
  unfoldable pub prune : Text → Any (State W) (Unit {0})
  prune path =
      if any is_hidden (split b'/' path)
      then pure tt
      else do done ← on_world (catch (env.fs.prune_empty_parents path)); pure tt

  unfoldable pub apply_remote_delete : Text → Any (State W) (Unit {0})
  unfolding canonicalize_sync_path contains_client_state Tracker.tracked_under Tracker.forget prune
      for_each
  apply_remote_delete path = do
    lift (canonicalize_sync_path path)
    if contains_client_state path then pure tt else do
      on_world (io (env.fs.remove path))
      tracked ← gets (λ (e : SyncEngine). Tracker.tracked_under e.tracker path)
      for_each tracked (λ t. update (λ e. with_tracker e (Tracker.forget t e.tracker)))
      prune path

  -- The trait's methods of `Applier`, whose count of applied lines stands beside the engine.
  unfoldable pub applier_put : Text → Any (ℕ × State W) (Unit {0})
  unfolding assert_active apply_remote_put
  applier_put path = do
    on_world (on_world (assert_active env))
    on_world (apply_remote_put path)
    update (λ (applied : ℕ). applied + 1)

  unfoldable pub applier_delete : Text → Any (ℕ × State W) (Unit {0})
  unfolding assert_active apply_remote_delete
  applier_delete path = do
    on_world (on_world (assert_active env))
    on_world (apply_remote_delete path)
    update (λ (applied : ℕ). applied + 1)

  unfoldable pub applier_set_revision : ℕ → Any (ℕ × State W) (Unit {0})
  unfolding assert_active
  applier_set_revision revision = do
    on_world (on_world (assert_active env))
    on_world (on_world (env.revision.set revision))

  unfoldable pub should_defer_apply : InboxOp → Any (ℕ × State W) Bool
  unfolding paths_structurally_conflict queue_unobserved_changes
  should_defer_apply op = do
    pending ← on_world (gets (λ (e : SyncEngine). e.pending_outbox_paths))
    if any (λ p. paths_structurally_conflict p op.path) pending
        then pure true
        else on_world (queue_unobserved_changes op.path)

  abbrev pub applier : InboxHandler (ℕ × State W)
  applier = record {
    apply_put = applier_put;
    apply_delete = applier_delete;
    get_revision = on_world (on_world (current_revision env));
    set_revision = applier_set_revision;
    should_skip_apply = λ op. pure false;
    should_defer_apply = should_defer_apply;
  }

  abbrev with_count : Result Error (Unit {0}) × (ℕ × State W) → Result Error ℕ × State W
  with_count (ok _, (applied, s)) = (ok applied, s)
  with_count (err error, (applied, s)) = (err error, s)

  -- `apply_inbox` with a fresh `Applier`; its count is the result.
  unfoldable pub run_applier : Text → Any (State W) ℕ
  unfolding apply_inbox applier_put applier_delete applier_set_revision should_defer_apply
  run_applier inbox_path s =
      with_count
        (apply_inbox (beside_fs (beside_fs env.fs)) env.inbox_codec applier inbox_path (0, s))

  unfoldable pub apply_remote_inbox : Any (State W) ℕ
  unfolding assert_active append_inbox run_applier
  apply_remote_inbox = do
    on_world (assert_active env)
    revision ← on_world (current_revision env)
    ops ← on_world (env.transport.fetch_inbox revision)
    on_world (assert_active env)
    paths ← gets (λ (e : SyncEngine). e.paths)
    on_world (append_inbox env.fs env.inbox_codec paths.inbox ops)
    run_applier paths.inbox

-- ===== src/Engine/Reconcile.antt =====
-- rust-client/src/engine.rs: from paths that may have changed to queued operations.
use obsidian_sync_engine.Base.{
  ℕ, ◌+◌, Text, true, false, not, Option, none, some, List, [], ◌∷◌, ◌++◌, if◌then◌else◌, ◌==◌, map,
  filter, is_empty, TextSet, ok, err, pure, fail, ◌>>=◌, ◌>>◌, on_world, gets, update, catch,
}
use obsidian_sync_engine.Base.Tests.{nat_eq, list_eq}
use obsidian_sync_engine.Base.Set
use obsidian_sync_engine.Op.{put, delete}
use obsidian_sync_engine.Error.{Any, io, is_suspended}
use obsidian_sync_engine.Fs.{PathStat}
use obsidian_sync_engine.Paths.{is_watched_path}
use obsidian_sync_engine.Tracker
use obsidian_sync_engine.Tracker.{ScanDiff}
use obsidian_sync_engine.Engine.State.{Env, SyncEngine, State, with_tracker, on_tracker}
use obsidian_sync_engine.Engine.Queue.{enqueue_durable}

module _ {W : Type 0} (env : Env W) where
  -- The tracked paths under a folder that are gone from the disk.
  unfoldable pub gone_under : Text → TextSet → List Text → Any (State W) TextSet
  unfolding list_eq Set.insert
  gone_under path deletes [] = pure deletes
  gone_under path deletes (tracked ∷ rest) = elim (tracked == path) [
    | true ↦ gone_under path deletes rest
    | false ↦ do
      found ← on_world (io (env.fs.stat tracked))
      elim found [
        | none ↦ gone_under path (Set.insert tracked deletes) rest
        | some _ ↦ gone_under path deletes rest
      ]
  ]

  -- The `match` of the first loop of `reconcile_paths`: the sets to delete and to put.
  unfoldable pub expand :
      Text → TextSet → TextSet → Option PathStat → Any (State W) (TextSet × TextSet)
  unfolding list_eq Set.insert Set.extend Tracker.tracked_under Tracker.contains is_watched_path
      gone_under
  expand path deletes puts (some (PathStat.file size mtime_ns)) = do
    tracked ← gets (λ (e : SyncEngine). Tracker.tracked_under e.tracker path)
    pure (
      Set.extend (filter (λ child. not (child == path)) tracked) deletes,
      if is_watched_path path then Set.insert path puts else puts,
    )
  expand path deletes puts (some PathStat.dir) = do
    known ← gets (λ (e : SyncEngine). Tracker.contains e.tracker path)
    files ← on_world (io (env.fs.list_files_under path))
    tracked ← gets (λ (e : SyncEngine). Tracker.tracked_under e.tracker path)
    deletes' ← gone_under path (if known then Set.insert path deletes else deletes) tracked
    pure (deletes', Set.extend (filter is_watched_path files) puts)
  expand path deletes puts _ = do
    tracked ← gets (λ (e : SyncEngine). Tracker.tracked_under e.tracker path)
    pure (Set.extend tracked deletes, puts)

  unfoldable pub expand_each : TextSet → TextSet → List Text → Any (State W) (TextSet × TextSet)
  unfolding expand
  expand_each deletes puts [] = pure (deletes, puts)
  expand_each deletes puts (path ∷ dirty) = elim (is_empty path) [
    | true ↦ expand_each deletes puts dirty
    | false ↦ do
      found ← on_world (io (env.fs.stat path))
      (deletes', puts') ← expand path deletes puts found
      expand_each deletes' puts' dirty
  ]

  -- The second loop: deletes first. Only a suspension ends it.
  unfoldable pub queue_deletes : ℕ → List Text → Any (State W) ℕ
  unfolding enqueue_durable Tracker.forget
  queue_deletes queued [] = pure queued
  queue_deletes queued (path ∷ paths) = do
    done ← catch (enqueue_durable env path delete)
    elim done [
      | ok _ ↦ do
        update (λ e. with_tracker e (Tracker.forget path e.tracker))
        queue_deletes (queued + 1) paths
      | err error ↦ if is_suspended error then fail error else queue_deletes queued paths
    ]

  -- The body of the third loop for a file whose hash is read: 1 if it was queued.
  unfoldable pub queue_put : Text → Text → PathStat → Any (State W) ℕ
  unfolding enqueue_durable Tracker.hash_of Tracker.record_stat list_eq
  queue_put path hash stat = do
    known ← gets (λ (e : SyncEngine). Tracker.hash_of e.tracker path)
    if elim known [ none ↦ false | some h ↦ h == hash ]
        then (do
          update (λ e. with_tracker e (Tracker.record_stat path hash stat e.tracker))
          pure 0)
        else do
          done ← catch (enqueue_durable env path put)
          elim done [
            | ok _ ↦ do
              update (λ e. with_tracker e (Tracker.record_stat path hash stat e.tracker))
              pure 1
            | err error ↦ if is_suspended error then fail error else pure 0
          ]

  unfoldable pub queue_puts : ℕ → List Text → Any (State W) ℕ
  unfolding queue_put
  queue_puts queued [] = pure queued
  queue_puts queued (path ∷ paths) = do
    found ← on_world (io (env.fs.stat path))
    elim found [
      | some (PathStat.file size mtime_ns) ↦ do
        hash ← on_world (io (env.fs.hash_file path))
        more ← queue_put path hash (PathStat.file size mtime_ns)
        queue_puts (queued + more) paths
      | _ ↦ queue_puts queued paths
    ]

  unfoldable pub reconcile_paths : List Text → Any (State W) ℕ
  unfolding expand_each queue_deletes queue_puts
  reconcile_paths dirty = do
    (deletes, puts) ← expand_each [] [] dirty
    queued ← queue_deletes 0 deletes
    queue_puts queued puts

  unfoldable pub rescan : Any (State W) ℕ
  unfolding reconcile_paths Tracker.scan
  rescan = do
    diff ← on_tracker (Tracker.scan env.fs)
    reconcile_paths (diff.missing ++ map (λ (p : Text × Text). p.0) diff.changed)

-- ===== src/Engine/Startup.antt =====
-- rust-client/src/engine.rs: the manifest is brought up to date before the first tick.
use obsidian_sync_engine.Base.{
  ℕ, ◌+◌, ◌-◌, Text, Bytes, codes, to_decimal, Bool, false, not, Option, none, some, List, [], ◌∷◌,
  ◌++◌, if◌then◌else◌, ◌==◌, filter, length, ok, err, pure, fail, ◌>>=◌, ◌>>◌, on_world, gets,
  update, catch, for_each, Result,
}
use obsidian_sync_engine.Base.Tests.{nat_eq, list_eq}
use obsidian_sync_engine.Error.{Error, Any, io, other, is_remote_file_not_found}
use obsidian_sync_engine.Fs.{sha256_hex}
use obsidian_sync_engine.Guard
use obsidian_sync_engine.Paths.{join, is_watched_path}
use obsidian_sync_engine.Tracker
use obsidian_sync_engine.Tracker.{Tracker, ScanDiff}
use obsidian_sync_engine.Engine.State.{
  Env, SyncEngine, State, with_tracker, on_tracker, reading, current_revision,
}
use obsidian_sync_engine.Engine.Queue.{outbox_list, ensure_hydrated}
use obsidian_sync_engine.Engine.Reconcile.{reconcile_paths}
use obsidian_sync_engine.Engine.Push.{is_delete, consume_approval, check_guard}

pub data StartupOutcome : Type 0 where
  first_run : (files : ℕ) → StartupOutcome
  rebaselined : (differing : ℕ) → StartupOutcome
  resumed : (queued_puts queued_deletes : ℕ) → StartupOutcome
  seeded : (files : ℕ) → StartupOutcome

-- What `reconcile_offline_changes` decides before it queues anything.
pub record Offline : Type 0 where
  pub puts : List Text
  pub deletes : List Text
  pub conflict_copies : List (Text × Bytes)

abbrev pub nothing : Offline
nothing = record { puts = []; deletes = []; conflict_copies = [] }

module _ {W : Type 0} where
  abbrev adopted : SyncEngine → Result Error ℕ × (Tracker × W) → Result Error ℕ × State W
  adopted e (ok n, (t, w)) = (ok n, (with_tracker e t, w))
  adopted e (err error, (t, w)) = (err error, (e, w))

  -- A tracker that is not the engine's yet becomes it if its method returns.
  abbrev adopt : Tracker → Any (Tracker × W) ℕ → Any (State W) ℕ
  adopt tracker m (e, w) = adopted e (m (tracker, w))

module _ {W : Type 0} (env : Env W) where
  -- The arms of `remote_bytes`.
  abbrev found_bytes : Result Error Bytes → Any W (Option Bytes)
  found_bytes (ok bytes) = pure (some bytes)
  found_bytes (err error) = if is_remote_file_not_found error then pure none else fail error

  unfoldable pub remote_bytes : Text → Any W (Option Bytes)
  remote_bytes path = do result ← catch (env.transport.download path); found_bytes result

  unfoldable pub keep_conflict_copy : Text × Bytes → Any (State W) (Unit {0})
  unfolding to_decimal
  keep_conflict_copy (path, remote) = do
    paths ← gets (λ (e : SyncEngine). e.paths)
    ts ← on_world (reading env.now_ms)
    on_world (io (env.fs.write_binary (join (join paths.conflicts (to_decimal ts)) path) remote))

  -- One round of the loop over `diff.changed`.
  unfoldable pub decide_changed : Text → Text → Offline → Option Bytes → Any (State W) Offline
  unfolding sha256_hex Tracker.record_stat Tracker.hash_of list_eq
  decide_changed path hash o none = pure (record o { puts = o.puts ++ (path ∷ []) })
  decide_changed path hash o (some remote) =
      if sha256_hex env.digest remote == hash
      then (do
        found ← on_world (io (env.fs.stat path))
        elim found [
          | some stat ↦ do
            update (λ e. with_tracker e (Tracker.record_stat path hash stat e.tracker))
            pure o
          | none ↦ pure o
        ])
      else (do
        known ← gets (λ (e : SyncEngine). Tracker.hash_of e.tracker path)
        let same : Bool = elim known [ none ↦ false | some h ↦ h == sha256_hex env.digest remote ]
        pure (record o {
          puts = o.puts ++ (path ∷ []);
          conflict_copies =
              if same then o.conflict_copies else o.conflict_copies ++ ((path, remote) ∷ []);
        }))

  unfoldable pub decide_all_changed : Offline → List (Text × Text) → Any (State W) Offline
  unfolding remote_bytes decide_changed
  decide_all_changed o [] = pure o
  decide_all_changed o ((path, hash) ∷ changed) = do
    remote ← on_world (remote_bytes path)
    o' ← decide_changed path hash o remote
    decide_all_changed o' changed

  -- The loop over `diff.missing`.
  unfoldable pub decide_all_missing : Offline → List Text → Any (State W) Offline
  unfolding remote_bytes Tracker.forget
  decide_all_missing o [] = pure o
  decide_all_missing o (path ∷ missing) = do
    remote ← on_world (remote_bytes path)
    elim remote [
      | some _ ↦ decide_all_missing (record o { deletes = o.deletes ++ (path ∷ []) }) missing
      | none ↦ do
        update (λ e. with_tracker e (Tracker.forget path e.tracker))
        decide_all_missing o missing
    ]

  unfoldable pub reconcile_offline_changes : Any (State W) StartupOutcome
  unfolding Tracker.scan decide_all_changed decide_all_missing outbox_list consume_approval
      check_guard keep_conflict_copy reconcile_paths for_each
  reconcile_offline_changes = do
    diff ← on_tracker (Tracker.scan env.fs)
    o' ← decide_all_changed nothing diff.changed
    o ← decide_all_missing o' diff.missing
    ops ← outbox_list env
    let pending_deletes = length (filter is_delete ops)
    consume_approval env
    check_guard env (pending_deletes + length o.deletes)
        (length ops - pending_deletes + length o.puts)
    for_each o.conflict_copies keep_conflict_copy
    reconcile_paths env (o.deletes ++ o.puts)
    pure (resumed (length o.puts) (length o.deletes))

  unfoldable pub seed : Any (State W) StartupOutcome
  unfolding Guard.approve Tracker.empty is_watched_path reconcile_paths
  seed = do
    update
        (λ e. record e { guard = Guard.approve e.guard; tracker = Tracker.empty e.paths.manifest })
    files ← on_world (io (env.fs.list_files_under []))
    queued ← reconcile_paths env (filter is_watched_path files)
    pure (seeded queued)

  -- The `match` of `startup_reconcile` on the manifest that was loaded.
  unfoldable pub start_from : Bool → ℕ → Option Tracker → Any (State W) StartupOutcome
  unfolding seed Tracker.empty Tracker.rebaseline reconcile_offline_changes
  start_from allow_seed revision none =
      if revision == 0
      then (if allow_seed
          then seed
          else fail (
              other (
                codes
                  "revision is 0, so this client would upload the whole vault to the server. Re-run with --allow-seed if that is intended")))
      else (do
        update (λ e. with_tracker e (Tracker.empty e.paths.manifest))
        on_tracker (Tracker.rebaseline env.fs env.manifest_codec revision)
        files ← gets (λ (e : SyncEngine). Tracker.count e.tracker)
        pure (first_run files))
  start_from allow_seed revision (some tracker) =
      if not (tracker.revision == revision)
      then (do
        differing ← adopt tracker (Tracker.rebaseline env.fs env.manifest_codec revision)
        pure (rebaselined differing))
      else (do update (λ e. with_tracker e tracker); reconcile_offline_changes)

  unfoldable pub startup_reconcile : Bool → Any (State W) StartupOutcome
  unfolding ensure_hydrated Tracker.load start_from Tracker.save
  startup_reconcile allow_seed = do
    ensure_hydrated env
    revision ← on_world (current_revision env)
    paths ← gets (λ (e : SyncEngine). e.paths)
    loaded ← on_world (Tracker.load env.fs env.manifest_codec paths.manifest)
    outcome ← start_from allow_seed revision loaded
    on_tracker (Tracker.save env.fs env.manifest_codec revision)
    pure outcome

  unfoldable pub rebaseline_after_handover : Any (State W) (Unit {0})
  unfolding Tracker.rebaseline
  rebaseline_after_handover = do
    revision ← on_world (current_revision env)
    on_tracker (Tracker.rebaseline env.fs env.manifest_codec revision)
    pure tt

  -- `approval_pending`
  unfoldable pub approval_pending : Any (State W) Bool
  approval_pending = do
    paths ← gets (λ (e : SyncEngine). e.paths)
    on_world (io (env.fs.exists paths.approval))

-- ===== src/Engine/Push.antt =====
-- rust-client/src/engine.rs: the outbox goes out to the server.
use obsidian_sync_engine.Base.{
  ℕ, ◌+◌, ◌-◌, Text, Bool, true, false, not, ◌&&◌, Option, none, some, [], ◌∷◌, ◌++◌, if◌then◌else◌,
  ◌==◌, filter, any, length, is_empty, TextSet, ok, err, pure, fail, ◌>>=◌, ◌>>◌, on_world, gets,
  update, catch, for_each, Result,
}
use obsidian_sync_engine.Base.Tests.{nat_eq, list_eq}
use obsidian_sync_engine.Base.Set
use obsidian_sync_engine.Op.{put, delete, as_str, op_eq}
use obsidian_sync_engine.Error.{
  Error, Any, io, mass_push_halted, permanent_remote, is_permanent_remote, display,
}
use obsidian_sync_engine.Fs.{PathStat}
use obsidian_sync_engine.Guard
use obsidian_sync_engine.Guard.{MassPushGuard}
use obsidian_sync_engine.Jsonl.{read_or_empty, with_newline}
use obsidian_sync_engine.Outbox
use obsidian_sync_engine.Outbox.{OutboxOp}
use obsidian_sync_engine.Engine.State.{
  Env, SyncEngine, State, reading, beside_fs, assert_active, DeadLetterNote,
}
use obsidian_sync_engine.Engine.Queue.{outbox_list, pending_of}

-- The counts of `TickResult`, which a tick that fails keeps.
pub record Counts : Type 0 where
  pub pushed : ℕ
  pub applied : ℕ
  pub dead_lettered : ℕ

abbrev pub is_delete : OutboxOp → Bool
is_delete op = op.op == delete

abbrev status_of : Error → Option ℕ
status_of (permanent_remote message status) = some status
status_of _ = none

unfoldable pub note_of : OutboxOp → Error → ℕ → DeadLetterNote
unfolding display
note_of op error ts = record {
  op = as_str op.op;
  path = op.path;
  original_ts = op.ts;
  error = display error;
  status = status_of error;
  ts = ts;
}

-- `matches!(fs.stat(path), Ok(Some(PathStat::File { .. })))`
abbrev pub is_file : Result Text (Option PathStat) → Bool
is_file (ok (some (PathStat.file size mtime_ns))) = true
is_file _ = false

module _ {T S : Type 0} where
  abbrev pub take_local : Result Error (Unit {0}) × (T × S) → Result Error T × S
  take_local (ok _, (t, s)) = (ok t, s)
  take_local (err e, (t, s)) = (err e, s)

module _ {W : Type 0} (env : Env W) where
  unfoldable pub consume_approval : Any (State W) (Unit {0})
  unfolding Guard.approve
  consume_approval = do
    paths ← gets (λ (e : SyncEngine). e.paths)
    asked ← on_world (io (env.fs.exists paths.approval))
    if asked
        then (do
          on_world (io (env.fs.remove paths.approval))
          update (λ e. record e { guard = Guard.approve e.guard }))
        else pure tt

  -- `self.guard.check(deletes, puts, Instant::now())`, an error if it trips.
  unfoldable pub check_guard : ℕ → ℕ → Any (State W) (Unit {0})
  unfolding Guard.check
  check_guard deletes puts = do
    now ← on_world (reading env.now)
    tripped ← gets (λ (e : SyncEngine). (Guard.check e.guard deletes puts now).0)
    update (λ e. record e { guard = (Guard.check e.guard deletes puts now).1 })
    elim tripped [ none ↦ pure tt | some t ↦ fail (mass_push_halted t) ]

  unfoldable pub check_mass_push : Any (State W) (Unit {0})
  unfolding outbox_list consume_approval check_guard
  check_mass_push = do
    ops ← outbox_list env
    if is_empty ops then pure tt else do
      let deletes = length (filter is_delete ops)
      consume_approval
      check_guard deletes (length ops - deletes)

  unfoldable pub push_put : Text → Any W ℕ
  unfolding assert_active
  push_put path = do
    assert_active env
    body ← io (env.fs.read_binary path)
    assert_active env
    env.transport.upload path body

  unfoldable pub push_delete : Text → Option ℕ → Any W ℕ
  unfolding assert_active
  push_delete path base_revision = do
    assert_active env
    env.transport.delete_remote path base_revision

  unfoldable pub push_op : OutboxOp → Any W ℕ
  unfolding push_put push_delete
  push_op op = elim (op.op) [
    | put ↦ push_put op.path
    | delete ↦ push_delete op.path op.base_revision
  ]

  -- The note is appended to the file as a line.
  unfoldable pub write_note : DeadLetterNote → Text → Any (State W) (Unit {0})
  unfolding read_or_empty
  write_note note path = do
    existing ← on_world (read_or_empty env.fs path)
    on_world
        (io (env.fs.write path (with_newline existing ++ (env.note_text note ++ (b'\n' ∷ [])))))

  unfoldable pub dead_letter : OutboxOp → Error → Any (State W) (Unit {0})
  unfolding write_note note_of
  dead_letter op error = do
    ts ← on_world (reading env.now_ms)
    paths ← gets (λ (e : SyncEngine). e.paths)
    write_note (note_of op error ts) paths.dead_letter

  -- The arms of the closure of `drain_outbox_once` on what the push returned; `processed` and the
  -- counts stand beside the engine.
  unfoldable pub settle_push :
      OutboxOp → Result Error ℕ → Any (TextSet × (Counts × State W)) (Unit {0})
  unfolding dead_letter Set.insert Guard.record_pushed
  settle_push op (ok revision) = do
    update (Set.insert op.path)
    on_world (update (λ (c : Counts). record c { pushed = c.pushed + 1 }))
    now ← on_world (on_world (on_world (reading env.now)))
    on_world (
        on_world
          (update (λ (e : SyncEngine). record e { guard = Guard.record_pushed e.guard op.op now })))
  settle_push op (err error) =
      if is_permanent_remote error
      then (do
        on_world (on_world (dead_letter op error))
        on_world (update (λ (c : Counts). record c { dead_lettered = c.dead_lettered + 1 }))
        update (Set.insert op.path))
      else fail error

  -- The closure of `drain_outbox_once`.
  unfoldable pub handle_op : OutboxOp → Any (TextSet × (Counts × State W)) (Unit {0})
  unfolding push_op settle_push
  handle_op op = do
    found ← on_world (on_world (on_world (catch (env.fs.stat op.path))))
    if op.op == put && not (is_file found)
        then update (Set.insert op.path)
        else do pushed ← on_world (on_world (on_world (catch (push_op op)))); settle_push op pushed

  unfoldable pub refresh_pending : Text → Any (State W) (Unit {0})
  unfolding outbox_list Set.insert Set.remove list_eq
  refresh_pending path = do
    ops ← outbox_list env
    update (λ e. record e {
      pending_outbox_paths =
          if any (λ (op : OutboxOp). op.path == path) ops
          then Set.insert path e.pending_outbox_paths
          else Set.remove path e.pending_outbox_paths;
    })

  unfoldable pub drain_with : Text → Any (TextSet × (Counts × State W)) (Unit {0})
  unfolding Outbox.drain handle_op
  drain_with outbox_path =
      Outbox.drain (beside_fs (beside_fs (beside_fs env.fs))) env.outbox_codec outbox_path handle_op

  -- A block with a local variable: it starts as `t`, and its last value is the result.
  abbrev pub with_local :
      TextSet → Any (TextSet × (Counts × State W)) (Unit {0}) → Any (Counts × State W) TextSet
  with_local t m s = take_local (m (t, s))

  unfoldable pub drain_outbox_once : Any (Counts × State W) (Unit {0})
  unfolding drain_with refresh_pending for_each
  drain_outbox_once = do
    paths ← on_world (gets (λ (e : SyncEngine). e.paths))
    processed ← with_local [] (drain_with paths.outbox)
    for_each processed (λ path. on_world (refresh_pending path))

  unfoldable pub rebuild_pending_paths : Any (State W) (Unit {0})
  unfolding outbox_list Set.extend
  rebuild_pending_paths = do ops ← outbox_list env; update (pending_of ops)

-- ===== src/Engine/Tick.antt =====
-- rust-client/src/engine.rs: one round of sync.
use obsidian_sync_engine.Base.{
  ℕ, suc, zero, Text, codes, to_decimal, Bool, true, false, Option, none, some, ◌++◌, if◌then◌else◌,
  ltb, is_empty, ok, err, pure, ◌>>=◌, ◌>>◌, on_world, update, Result,
}
use obsidian_sync_engine.Error.{Error, Any, display, is_suspended, is_mass_push_halted}
use obsidian_sync_engine.Guard
use obsidian_sync_engine.Tracker
use obsidian_sync_engine.Engine.State.{
  Env, SyncEngine, State, on_tracker, assert_active, current_revision,
}
use obsidian_sync_engine.Engine.Queue.{outbox_list, ensure_hydrated, retry_failed_enqueues}
use obsidian_sync_engine.Engine.Push.{
  Counts, check_mass_push, drain_outbox_once, rebuild_pending_paths,
}
use obsidian_sync_engine.Engine.Apply.{apply_remote_inbox}

pub data FailureKind : Type 0 where
  error dead_letter suspended halted : FailureKind

pub record TickResult : Type 0 where
  pub failure : Option (FailureKind × Text)
  pub counts : Counts

-- The order of the tests in `tick`.
abbrev pub kind_of : Error → FailureKind
kind_of e = if is_suspended e then suspended else if is_mass_push_halted e then halted else error

-- `result.failure` after `run_tick`.
unfoldable pub failure_of : Result Error (Unit {0}) → Counts → Option (FailureKind × Text)
unfolding display to_decimal
failure_of (err e) c = some (kind_of e, display e)
failure_of (ok _) c =
    if ltb 0 c.dead_lettered
    then some (dead_letter, to_decimal c.dead_lettered ++ codes " operation(s) require attention")
    else none

module _ {W : Type 0} (env : Env W) where
  -- The `loop` of `run_tick`, with fuel for its rounds: true when the outbox was found empty, false
  -- when the fuel was used up.
  unfoldable pub drain_rounds : ℕ → Any (Counts × State W) Bool
  unfolding drain_outbox_once outbox_list Guard.outbox_emptied
  drain_rounds zero = pure false
  drain_rounds (suc fuel) = do
    drain_outbox_once env
    ops ← on_world (outbox_list env)
    elim (is_empty ops) [
      | true ↦ do
        on_world (update (λ (e : SyncEngine). record e { guard = Guard.outbox_emptied e.guard }))
        pure true
      | false ↦ drain_rounds fuel
    ]

  -- `run_tick`: false where the loop is still running when the fuel ends.
  unfoldable pub run_tick : ℕ → Any (Counts × State W) Bool
  unfolding assert_active retry_failed_enqueues ensure_hydrated check_mass_push drain_rounds
      rebuild_pending_paths apply_remote_inbox
  run_tick fuel = do
    on_world (on_world (assert_active env))
    on_world (retry_failed_enqueues env)
    on_world (ensure_hydrated env)
    on_world (check_mass_push env)
    ended ← drain_rounds fuel
    if ended
        then (do
          on_world (rebuild_pending_paths env)
          applied ← on_world (apply_remote_inbox env)
          update (λ (c : Counts). record c { applied = applied })
          pure true)
        else pure false

  unfoldable pub save_manifest : Any (State W) (Unit {0})
  unfolding Tracker.save
  save_manifest = do
    revision ← on_world (current_revision env)
    on_tracker (Tracker.save env.fs env.manifest_codec revision)

  -- What `tick` makes of the run, the manifest saved whatever happened; none while the loop runs.
  unfoldable pub finish_tick : Result Error Bool × (Counts × State W) → Option TickResult × State W
  unfolding failure_of save_manifest
  finish_tick (ok false, (c, s)) = (none, s)
  finish_tick (ok true, (c, s)) =
      (some (record { failure = failure_of (ok tt) c; counts = c }), (save_manifest s).1)
  finish_tick (err e, (c, s)) =
      (some (record { failure = failure_of (err e) c; counts = c }), (save_manifest s).1)

  unfoldable pub tick : ℕ → State W → Option TickResult × State W
  unfolding run_tick finish_tick
  tick fuel s =
      finish_tick (run_tick fuel (record { pushed = 0; applied = 0; dead_lettered = 0 }, s))

-- ===== src/Engine/Suspended.antt =====
-- rust-client/src/engine.rs: a suspended engine is still.
use obsidian_sync_engine.Base.{
  ℕ, Text, ◌≡◌, refl, sym, ap, true, false, not, ◌&&◌, ◌==◌, List, [], ◌∷◌, Result, ok, err,
  Ensures, Ensures-on_world, subst, on_world, put_back,
}
use obsidian_sync_engine.Base.Tests.{nat_eq}
use obsidian_sync_engine.Base.Preserves.{
  Preserves, Preserves-pure, Preserves-bind, Preserves-lift, Preserves-if, Preserves-update,
}
use obsidian_sync_engine.Op.{OpKind, put, delete}
use obsidian_sync_engine.Error.{Error, io, suspended, Ensures-io}
use obsidian_sync_engine.Outbox.{OutboxOp}
use obsidian_sync_engine.Tracker
use obsidian_sync_engine.Tracker.{Tracker, write_manifest}
use obsidian_sync_engine.Engine.State.{Env, SyncEngine, State, assert_active, with_tracker}
use obsidian_sync_engine.Engine.Queue.{enqueue_durable}
use obsidian_sync_engine.Engine.Push.{Counts, push_op, push_put, push_delete}
use obsidian_sync_engine.Engine.Apply.{apply_remote_inbox}
use obsidian_sync_engine.Engine.Tick.{tick, run_tick, finish_tick, save_manifest}

-- What is asked of the engine: a tick, the queueing of a local change, a push, and the fetch of
-- remote changes with their application.
pub data Call : Type 0 where
  tick_call : (fuel : ℕ) → Call
  change : (path : Text) (kind : OpKind) → Call
  push : OutboxOp → Call
  fetch : Call

module _ {W : Type 0} (env : Env W) where
  module _ (e : SyncEngine) (w w' : W) (flag : env.suspended w ≡ (true, w')) where
    inactive : assert_active env w ≡ (err suspended, w')
    unfolding assert_active
    inactive = rw flag

    push_op_suspended : (op : OutboxOp) → push_op env op w ≡ (err suspended, w')
    unfolding push_op push_put push_delete
    push_op_suspended op = by_kind (op.op)
      where
        by_kind : (k : OpKind) → push_op env (record op { op = k }) w ≡ (err suspended, w')
        by_kind put = rw inactive
        by_kind delete = rw inactive

    run_tick_suspended :
        (fuel : ℕ) (c : Counts) → run_tick env fuel (c, (e, w)) ≡ (err suspended, (c, (e, w')))
    unfolding run_tick
    run_tick_suspended fuel c = rw inactive

    tick_suspended : (fuel : ℕ) → (tick env fuel (e, w)).1 ≡ (save_manifest env (e, w')).1
    unfolding tick finish_tick
    tick_suspended fuel =
        ap (λ r. (finish_tick env r).1)
          (run_tick_suspended fuel (record { pushed = 0; applied = 0; dead_lettered = 0 }))

    enqueue_durable_suspended :
        (path : Text) (kind : OpKind)
        → enqueue_durable env path kind (e, w) ≡ (err suspended, (e, w'))
    unfolding enqueue_durable
    enqueue_durable_suspended path kind = rw inactive

    apply_remote_inbox_suspended : apply_remote_inbox env (e, w) ≡ (err suspended, (e, w'))
    unfolding apply_remote_inbox
    apply_remote_inbox_suspended = rw inactive

  abbrev pub called : Call → State W → State W
  called (tick_call fuel) s = (tick env fuel s).1
  called (change path kind) s = (enqueue_durable env path kind s).1
  called (push op) (e, w) = (e, (push_op env op w).1)
  called fetch s = (apply_remote_inbox env s).1

  abbrev pub called_all : List Call → State W → State W
  called_all [] s = s
  called_all (call ∷ calls) s = called_all calls (called call s)

  -- In a world with `Inv` the flag is set, and reading it, and a write to the manifest's file,
  -- which may fail, keep `Inv`. Nothing is said of the server, the revision or any other file.
  pub record IsStill (Inv : W → Type 0) (manifest : Text) : Type 0 where
    pub on_flag : (w : W) → Inv w → ((env.suspended w).0 ≡ true) × Inv (env.suspended w).1
    pub on_write : (text : Text) → Preserves Inv (env.fs.write manifest text)

  -- The engine is as it was, but for what its tracker holds of the manifest's state.
  abbrev pub IsUnchanged : SyncEngine → SyncEngine → Type 0
  IsUnchanged e0 e =
      (with_tracker e e0.tracker ≡ e0)
      × (e.tracker.path ≡ e0.tracker.path)
      × (e.tracker.entries ≡ e0.tracker.entries)

  module _ (Inv : W → Type 0) (e0 : SyncEngine) (still : IsStill Inv e0.tracker.path) where
    abbrev Frozen : State W → Type 0
    Frozen (e, w) = IsUnchanged e0 e × Inv w

    abbrev Saved : Tracker × W → Type 0
    Saved (t, w) = ((t.path ≡ e0.tracker.path) × (t.entries ≡ e0.tracker.entries)) × Inv w

    written :
        (path text : Text) → path ≡ e0.tracker.path → Preserves Inv (io (env.fs.write path text))
    written path text at = record {
      preserved = λ w i.
          rw at (
            Ensures-io (env.fs.write e0.tracker.path text) w ((still.on_write text).preserved w i));
    }

    write_manifest-Inv :
        (revision : ℕ) (t : Tracker)
        → t.path ≡ e0.tracker.path
        → Preserves Inv (write_manifest env.fs env.manifest_codec revision t)
    write_manifest-Inv revision t at =
        Preserves-bind (Preserves-lift (env.manifest_codec.to_string _))
          λ text. written t.path text at

    write_manifest-Saved :
        (revision : ℕ) (t : Tracker)
        → t.path ≡ e0.tracker.path
        → Preserves Saved (on_world (write_manifest env.fs env.manifest_codec revision t))
    write_manifest-Saved revision t at = record {
      preserved = λ (t', w) (p, i).
          Ensures-on_world t' (write_manifest env.fs env.manifest_codec revision t) w
            ((write_manifest-Inv revision t at).preserved w i) (λ _ w' j. (p, j))
            (λ _ w' j. (p, j));
    }

    save-Saved : (revision : ℕ) → Preserves Saved (Tracker.save env.fs env.manifest_codec revision)
    unfolding Tracker.save
    save-Saved revision = record {
      preserved = λ (t, w) i.
          (Preserves-if (not t.dirty && t.revision == revision) (Preserves-pure tt) (
              Preserves-bind (write_manifest-Saved revision t i.0.0) λ _.
                Preserves-update (λ t. record t { revision = revision; dirty = false })
                  (λ _ _ k. k))).preserved
            (t, w) i;
    }

    zoomed-Frozen :
        (e : SyncEngine)
        → IsUnchanged e0 e
        → (r : Result Error (Unit {0}) × (Tracker × W))
        → Ensures (λ _ s. Saved s) (λ _ s. Saved s) r
        → Frozen (put_back (λ (e : SyncEngine). e.tracker) with_tracker e r).1
    zoomed-Frozen e u (ok _, (t, w)) h = ((u.0, h.post.0.0, h.post.0.1), h.post.1)
    zoomed-Frozen e u (err _, (t, w)) h = ((u.0, h.post.0.0, h.post.0.1), h.post.1)

    save_manifest-Frozen : (s : State W) → Frozen s → Frozen (save_manifest env s).1
    unfolding save_manifest
    save_manifest-Frozen (e, w) (u, i) =
        zoomed-Frozen e u
          (Tracker.save env.fs env.manifest_codec (env.revision.get w) (e.tracker, w))
          ((save-Saved (env.revision.get w)).preserved (e.tracker, w) ((u.1, u.2), i))

    flag_set : (w : W) → Inv w → env.suspended w ≡ (true, (env.suspended w).1)
    flag_set w i = ap (λ b. (b, (env.suspended w).1)) (still.on_flag w i).0

    called-Frozen : (call : Call) (s : State W) → Frozen s → Frozen (called call s)
    called-Frozen (tick_call fuel) (e, w) (u, i) =
        rw (tick_suspended e w (env.suspended w).1 (flag_set w i) fuel)
          (save_manifest-Frozen (e, (env.suspended w).1) (u, (still.on_flag w i).1))
    called-Frozen (change path kind) (e, w) (u, i) =
        subst Frozen
          (sym (
            ap (λ r. r.1)
              (enqueue_durable_suspended e w (env.suspended w).1 (flag_set w i) path kind)))
          (u, (still.on_flag w i).1)
    called-Frozen (push op) (e, w) (u, i) =
        subst Frozen
          (sym (ap (λ r. (e, r.1)) (push_op_suspended e w (env.suspended w).1 (flag_set w i) op)))
          (u, (still.on_flag w i).1)
    called-Frozen fetch (e, w) (u, i) =
        subst Frozen
          (sym
            (ap (λ r. r.1) (apply_remote_inbox_suspended e w (env.suspended w).1 (flag_set w i))))
          (u, (still.on_flag w i).1)

    pub suspended_does_nothing :
        (calls : List Call) (w : W)
        → Inv w
        → IsUnchanged e0 (called_all calls (e0, w)).0 × Inv (called_all calls (e0, w)).1
    suspended_does_nothing calls w i = all calls (e0, w) ((refl, refl, refl), i)
      where
        all : (calls : List Call) (s : State W) → Frozen s → Frozen (called_all calls s)
        all [] s f = f
        all (call ∷ calls) s f = all calls (called call s) (called-Frozen call s f)

-- ===== src/Engine/Rounds.antt =====
-- rust-client/src/engine.rs: the `loop` of `run_tick` ends after one round.
use obsidian_sync_engine.Base.{
  ℕ, ◌+◌, Text, Bytes, ◌≡◌, refl, ◌≢◌, Option, [], TextSet, Result, ok, err, ◌>>=◌, Ensures-weaken,
  on_world, gets, ◌==◌, ◌&&◌, not,
}
use obsidian_sync_engine.Base.Tests.{nat_eq, list_eq}
use obsidian_sync_engine.Base.Set
use obsidian_sync_engine.Guard
use obsidian_sync_engine.Op.{OpKind, put, delete, op_eq}
use obsidian_sync_engine.Error.{Error, suspended, Any, is_permanent_remote}
use obsidian_sync_engine.Fs.Contents.{HasContents}
use obsidian_sync_engine.Jsonl.{read_or_empty}
use obsidian_sync_engine.Outbox.{OutboxOp}
use obsidian_sync_engine.Engine.State.{
  Env, State, SyncEngine, JournalPaths, DeadLetterNote, reading, assert_active,
}
use obsidian_sync_engine.Engine.Push.{
  Counts, push_put, push_delete, push_op, note_of, write_note, dead_letter, settle_push, handle_op,
  is_file,
}
use obsidian_sync_engine.Engine.Keeps.{
  Keeps, Keeps-pure, Keeps-fail, Keeps-bind, Keeps-if, Keeps-catch, Keeps-io, Keeps-on_world,
  Keeps-update,
}

module _ {W : Type 0} (env : Env W) (content : W → Text → Option Text) (outbox : Text) where
  abbrev pub text_of : W → Option Text
  text_of w = content w outbox

  abbrev pub Always : Option Text → Type 0
  Always t = Unit

  abbrev pub Leaves : {E A : Type 0} → (W → Result E A × W) → Type 0
  Leaves m = Keeps text_of Always m

  -- What a round relies on: reading a vault file, the clocks, the flag and the server leave the
  -- text of the outbox as it is, whether they fail or not.
  pub record IsQuiet : Type 0 where
    pub stat : (p : Text) → Leaves (env.fs.stat p)
    pub read_binary : (p : Text) → Leaves (env.fs.read_binary p)
    pub upload : (p : Text) (body : Bytes) → Leaves (env.transport.upload p body)
    pub delete_remote : (p : Text) (base : Option ℕ) → Leaves (env.transport.delete_remote p base)
    pub suspended : (w : W) → text_of (env.suspended w).1 ≡ text_of w
    pub now : (w : W) → text_of (env.now w).1 ≡ text_of w
    pub now_ms : (w : W) → text_of (env.now_ms w).1 ≡ text_of w

  pub Leaves-reading :
      {A : Type 0} {f : W → A × W}
      → ((w : W) → text_of (f w).1 ≡ text_of w)
      → Leaves {E = Error} (reading f)
  Leaves-reading same = record { kept = λ w inv. record { post = same w } }

  module _ (Q : IsQuiet) where
    pub Leaves-assert_active : Leaves (assert_active env)
    unfolding assert_active
    Leaves-assert_active =
        Keeps-bind (Leaves-reading Q.suspended)
          λ stopped. Keeps-if stopped (Keeps-fail suspended) (Keeps-pure tt)

    Leaves-push_put : (p : Text) → Leaves (push_put env p)
    unfolding push_put
    Leaves-push_put p = Keeps-bind Leaves-assert_active λ _.
        Keeps-bind (Keeps-io (Q.read_binary p))
          λ body. Keeps-bind Leaves-assert_active λ _. Q.upload p body

    Leaves-push_op : (op : OutboxOp) → Leaves (push_op env op)
    unfolding push_op push_delete
    Leaves-push_op op = by_kind op.op
      where
        by_kind : (k : OpKind) → Leaves (push_op env (record op { op = k }))
        by_kind put = Leaves-push_put op.path
        by_kind delete =
            Keeps-bind Leaves-assert_active λ _. Q.delete_remote op.path op.base_revision

  -- The outbox's text and the engine's paths.
  abbrev pub view : State W → Option Text × JournalPaths
  view (e, w) = (text_of w, e.paths)

  abbrev pub Apart : Option Text × JournalPaths → Type 0
  Apart (t, paths) = paths.dead_letter ≢ outbox

  abbrev pub of_state : TextSet × (Counts × State W) → Option Text × JournalPaths
  of_state (t, (c, s)) = view s

  abbrev of_counts : Counts × State W → Option Text × JournalPaths
  of_counts (c, s) = view s

  abbrev LeavesAll : {A : Type 0} → Any (TextSet × (Counts × State W)) A → Type 0
  LeavesAll m = Keeps of_state Apart m

  at_state : {E A : Type 0} {m : W → Result E A × W} → Leaves m → Keeps view Apart (on_world m)
  at_state h = Keeps-on_world (λ e w w' q i. (q i, e.paths)) (λ e w inv. tt) h

  at_counts :
      {E A : Type 0} {m : State W → Result E A × State W}
      → Keeps view Apart m
      → Keeps of_counts Apart (on_world m)
  at_counts h = Keeps-on_world (λ c s s' q. q) (λ c s inv. inv) h

  at_all :
      {E A : Type 0} {m : Counts × State W → Result E A × (Counts × State W)}
      → Keeps of_counts Apart m
      → Keeps of_state Apart (on_world m)
  at_all h = Keeps-on_world (λ t s s' q. q) (λ t s inv. inv) h

  module _ {G : Type 0} {rest : W → G} (H : HasContents content rest env.fs) where
    pub Leaves-exists : (p : Text) → Leaves (env.fs.exists p)
    Leaves-exists p = record {
      kept = λ w inv.
          Ensures-weaken (env.fs.exists p w) (H.on_exists p w) (λ _ w' q. q.1.files outbox)
            (λ _ w' q. q.files outbox);
    }

    Leaves-read : (p : Text) → Leaves (env.fs.read p)
    Leaves-read p = record {
      kept = λ w inv.
          Ensures-weaken (env.fs.read p w) (H.on_read p w) (λ _ w' q. q.1.files outbox)
            (λ _ w' q. q.files outbox);
    }

    Leaves-write : (p t : Text) → p ≢ outbox → Leaves (env.fs.write p t)
    Leaves-write p t apart = record {
      kept = λ w inv.
          Ensures-weaken (env.fs.write p t w) (H.on_write p t w) (λ _ w' q. q.1.files outbox apart)
            (λ _ w' q. q.1.files outbox apart);
    }

    Leaves-read_or_empty : (p : Text) → Leaves (read_or_empty env.fs p)
    unfolding read_or_empty
    Leaves-read_or_empty p =
        Keeps-bind (Keeps-io (Leaves-exists p))
          λ present. Keeps-if present (Keeps-io (Leaves-read p)) (Keeps-pure [])

    module _ (Q : IsQuiet) where
      Keeps-write_note :
          (note : DeadLetterNote) (path : Text)
          → path ≢ outbox
          → Keeps view Apart (write_note env note path)
      unfolding write_note
      Keeps-write_note note path apart =
          Keeps-bind (at_state (Leaves-read_or_empty path))
            λ existing. at_state (Keeps-io (Leaves-write path _ apart))

      -- The file of the engine's paths.
      Keeps-note_of_engine :
          (note : DeadLetterNote)
          → Keeps view Apart (
              gets (λ (e : SyncEngine). e.paths) >>= λ paths. write_note env note paths.dead_letter)
      Keeps-note_of_engine note = record {
        kept = λ s inv. (Keeps-write_note note s.0.paths.dead_letter inv).kept s inv;
      }

      Keeps-dead_letter :
          (op : OutboxOp) (error : Error) → Keeps view Apart (dead_letter env op error)
      unfolding dead_letter
      Keeps-dead_letter op error =
          Keeps-bind (at_state (Leaves-reading {A = ℕ} {f = env.now_ms} Q.now_ms))
            λ ts. Keeps-note_of_engine (note_of op error ts)

      Keeps-settle_push :
          (op : OutboxOp) (r : Result Error ℕ) → Keeps of_state Apart (settle_push env op r)
      unfolding settle_push
      Keeps-settle_push op (ok revision) =
          Keeps-bind (Keeps-update of_state Apart (Set.insert op.path) (λ t s. refl)) λ _.
            Keeps-bind
              (at_all (
                Keeps-update of_counts Apart (λ c. record c { pushed = c.pushed + 1 })
                  (λ c s. refl)))
              λ _.
                Keeps-bind
                  (at_all (at_counts (at_state (Leaves-reading {A = ℕ} {f = env.now} Q.now))))
                  λ now. at_all (
                    at_counts (
                      Keeps-update view Apart
                        (λ e. record e { guard = Guard.record_pushed e.guard op.op now })
                        (λ e w. refl)))
      Keeps-settle_push op (err error) =
          Keeps-if (is_permanent_remote error)
            (Keeps-bind (at_all (at_counts (Keeps-dead_letter op error))) λ _.
              Keeps-bind
                (at_all (
                  Keeps-update of_counts Apart
                    (λ c. record c { dead_lettered = c.dead_lettered + 1 }) (λ c s. refl)))
                λ _. Keeps-update of_state Apart (Set.insert op.path) (λ t s. refl))
            (Keeps-fail error)

      pub Keeps-handle_op : (op : OutboxOp) → Keeps of_state Apart (handle_op env op)
      unfolding handle_op
      Keeps-handle_op op =
          Keeps-bind (at_all (at_counts (at_state (Keeps-catch (Q.stat op.path))))) λ found.
            Keeps-if (op.op == put && not (is_file found))
              (Keeps-update of_state Apart (Set.insert op.path) (λ t s. refl))
              (Keeps-bind (at_all (at_counts (at_state (Keeps-catch (Leaves-push_op Q op)))))
                λ pushed. Keeps-settle_push op pushed)

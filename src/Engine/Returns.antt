-- ===== src/Engine/Returns.antt =====
-- rust-client/src/engine.rs: `tick` returns.
use obsidian_sync_engine.Base.{
  ℕ, suc, Text, ◌≡◌, refl, sym, subst, ◌≢◌, Bool, true, false, Option, none, some, List, [], All,
  ok, err, ◌>>◌, pure, fail, on_world, Result, is_empty, length, TextMap, filter, ◌-◌, Ensures,
  Ensures-continue, Ensures-weaken, Ensures-on_world,
}
use obsidian_sync_engine.Base.Map.{is_some}
use obsidian_sync_engine.Error.{Error, Any, mass_push_halted}
use obsidian_sync_engine.Guard
use obsidian_sync_engine.Base.Preserves.{anything}
use obsidian_sync_engine.Fs.Contents.{or_empty, HasContents}
use obsidian_sync_engine.Jsonl.{read_lines}
use obsidian_sync_engine.Jsonl.Journal.{IsLawful, Holds, journal_text, read_lines-Holds}
use obsidian_sync_engine.Outbox.{OutboxOp, list_ops}
use obsidian_sync_engine.Engine.State.{Env, State, SyncEngine, JournalPaths}
use obsidian_sync_engine.Engine.Queue.{
  pending_of, outbox_list, hydrate, ensure_hydrated, retry_failed_enqueues, retry_each,
}
use obsidian_sync_engine.Engine.Push.{
  Counts, is_delete, consume_approval, check_guard, check_mass_push, rebuild_pending_paths,
}
use obsidian_sync_engine.Engine.Apply.{apply_remote_inbox}
use obsidian_sync_engine.Engine.Tick.{run_tick, tick, finish_tick, drain_rounds}
use obsidian_sync_engine.Engine.Keeps.{
  Keeps, Keeps-pure, Keeps-fail, Keeps-bind, Keeps-if, Keeps-io, Keeps-on_world, Keeps-update,
}
use obsidian_sync_engine.Engine.Rounds.{
  IsQuiet, Leaves, Leaves-reading, Leaves-assert_active, Leaves-exists,
}
use obsidian_sync_engine.Engine.Ending.{drain_rounds_end}

module _ {W : Type 0} (env : Env W) {P : OutboxOp → Type 0} {render : OutboxOp → Text}
    (L : IsLawful env.outbox_codec P render) {content : W → Text → Option Text} {G : Type 0}
    {rest : W → G} (H : HasContents content rest env.fs) (paths : JournalPaths)
    (Q : IsQuiet env content paths.outbox) (ops : List OutboxOp) (printable : All P ops) where
  -- The outbox's text, the engine's paths and the changes whose enqueue failed.
  abbrev Seen : Type 0
  Seen = Option Text × (JournalPaths × TextMap OutboxOp)

  abbrev seen : State W → Seen
  seen (e, w) = (content w paths.outbox, (e.paths, e.failed_enqueues))

  -- The outbox holds `ops`, the engine's paths are these, and no enqueue has failed.
  abbrev Ready : Seen → Type 0
  Ready (t, (p, failed)) = (or_empty t ≡ journal_text render ops) × (p ≡ paths) × (failed ≡ [])

  at_state :
      {E A : Type 0} {m : W → Result E A × W}
      → Leaves env content paths.outbox m
      → Keeps seen Ready (on_world m)
  at_state h = Keeps-on_world (λ e w w' q i. (q i, (e.paths, e.failed_enqueues))) (λ e w inv. tt) h

  list_ops-kept :
      (w : W)
      → or_empty (content w paths.outbox) ≡ journal_text render ops
      → Ensures
          (λ _ w'. content w' paths.outbox ≡ content w paths.outbox)
          (λ _ w'. content w' paths.outbox ≡ content w paths.outbox)
          (list_ops env.fs env.outbox_codec paths.outbox w)
  unfolding list_ops
  list_ops-kept w h =
      Ensures-continue (read_lines env.fs env.outbox_codec paths.outbox w) _
        (Ensures-weaken (read_lines env.fs env.outbox_codec paths.outbox w)
          (read_lines-Holds L env.fs paths.outbox H ops w printable h)
          (λ r w1 q. q.1.files paths.outbox) (λ _ w1 q. q.files paths.outbox))
        λ r w1 q. record { post = q }

  Keeps-outbox_list : Keeps seen Ready (outbox_list env)
  unfolding outbox_list
  Keeps-outbox_list = record {
    kept = λ s inv.
        Ensures-on_world (s.0) (list_ops env.fs env.outbox_codec s.0.paths.outbox) (s.1)
          (subst
            (λ (p : JournalPaths).
              Ensures (λ _ w'. content w' paths.outbox ≡ content s.1 paths.outbox)
                (λ _ w'. content w' paths.outbox ≡ content s.1 paths.outbox)
                (list_ops env.fs env.outbox_codec p.outbox s.1))
            (sym inv.1) (list_ops-kept s.1 inv.0))
          (λ _ w' q i. (q i, (s.0.paths, s.0.failed_enqueues)))
          (λ _ w' q i. (q i, (s.0.paths, s.0.failed_enqueues)));
  }

  Keeps-ensure_hydrated : Keeps seen Ready (ensure_hydrated env)
  unfolding ensure_hydrated hydrate
  Keeps-ensure_hydrated = record {
    kept = λ s inv.
        (Keeps-if s.0.hydrated (Keeps-pure tt) (
            Keeps-bind Keeps-outbox_list λ found.
              Keeps-update seen Ready (λ e. record (pending_of found e) { hydrated = true })
                (λ e w. refl))).kept
          s inv;
  }

  Keeps-consume_approval :
      Leaves env content paths.outbox (env.fs.remove paths.approval)
      → Keeps seen Ready (consume_approval env)
  unfolding consume_approval
  Keeps-consume_approval removes = record {
    kept = λ s inv.
        (Keeps-bind
            (at_state (Keeps-io (Leaves-exists env content paths.outbox H s.0.paths.approval)))
            λ asked.
              Keeps-if asked
                (Keeps-bind
                  (at_state (
                    Keeps-io (
                      subst
                        (λ (p : JournalPaths).
                          Leaves env content paths.outbox (env.fs.remove p.approval))
                        (sym inv.1) removes)))
                  λ _.
                    Keeps-update seen Ready (λ e. record e { guard = Guard.approve e.guard })
                      (λ e w. refl))
                (Keeps-pure tt)).kept
          s inv;
  }

  Keeps-check_guard : (deletes puts : ℕ) → Keeps seen Ready (check_guard env deletes puts)
  unfolding check_guard
  Keeps-check_guard deletes puts =
      Keeps-bind (at_state (Leaves-reading env content paths.outbox {A = ℕ} {f = env.now} Q.now))
        λ now. record {
          kept = λ s inv.
              (Keeps-bind
                  (Keeps-update seen Ready
                    (λ e. record e { guard = (Guard.check e.guard deletes puts now).1 })
                    (λ e w. refl))
                  λ _. verdict_of (Guard.check s.0.guard deletes puts now).0).kept
                s inv;
        }
    where
      verdict_of :
          (tripped : Option Guard.Tripped)
          → Keeps seen Ready {E = Error} {A = Unit {0}}
              (elim tripped as (λ _. Any (State W) (Unit {0})) [
                | none ↦ pure tt
                | some t ↦ fail (mass_push_halted t)
              ])
      verdict_of none = Keeps-pure tt
      verdict_of (some t) = Keeps-fail (mass_push_halted t)

  module _ (removes : Leaves env content paths.outbox (env.fs.remove paths.approval)) where
    Keeps-check_mass_push : Keeps seen Ready (check_mass_push env)
    unfolding check_mass_push
    Keeps-check_mass_push = Keeps-bind Keeps-outbox_list λ found.
        Keeps-if (is_empty found) (Keeps-pure tt) (
          Keeps-bind (Keeps-consume_approval removes) λ _.
            Keeps-check_guard (length (filter is_delete found))
              (length found - length (filter is_delete found)))

    Keeps-retry : Keeps seen Ready (retry_failed_enqueues env)
    unfolding retry_failed_enqueues retry_each
    Keeps-retry = record {
      kept = λ s inv.
          subst
            (λ failed.
              Ensures (λ _ s'. seen s' ≡ seen s) (λ _ s'. seen s' ≡ seen s)
                (retry_each env failed s))
            (sym inv.2) (record { post = refl });
    }

    abbrev beside_counts : Counts × State W → Seen
    beside_counts (c, s) = seen s

    at_counts :
        {E A : Type 0} {m : State W → Result E A × State W}
        → Keeps seen Ready m
        → Keeps beside_counts Ready (on_world m)
    at_counts h = Keeps-on_world (λ c s s' q. q) (λ c s inv. inv) h

    -- A step in front of the loop.
    before :
        {A : Type 0} (m : Any (Counts × State W) (Unit {0})) (f : Any (Counts × State W) A)
        {R : A → Counts × State W → Type 0}
        → Keeps beside_counts Ready m
        → ((s : Counts × State W) → Ready (beside_counts s) → Ensures R (λ _ _. Unit {0}) (f s))
        → (s : Counts × State W) → Ready (beside_counts s)
        → Ensures R (λ _ _. Unit {0}) ((m >> f) s)
    before m f h k s inv =
        Ensures-continue (m s) _ (Ensures-weaken (m s) (h.kept s inv) (λ _ s1 q. q) (λ _ s1 q. tt))
          λ _ s1 q. k s1 (subst Ready (sym q) inv)

    rounds :
        (fuel : ℕ) (s : Counts × State W)
        → paths.dead_letter ≢ paths.outbox
        → Ready (beside_counts s)
        → Ensures (λ ended _. ended ≡ true) (λ _ _. Unit {0}) (drain_rounds env (suc fuel) s)
    rounds fuel (c, (e, w)) apart (holds, here, none_failed) =
        Ensures-weaken (drain_rounds env (suc fuel) (c, (e, w)))
          (drain_rounds_end env L H ops c e w fuel
            (subst (λ (p : JournalPaths). p.dead_letter ≢ p.outbox) (sym here) apart)
            (subst (λ (p : JournalPaths). IsQuiet env content p.outbox) (sym here) Q) printable
            (subst (λ (p : JournalPaths). or_empty (content w p.outbox) ≡ journal_text render ops)
              (sym here) holds))
          (λ ended s' q. q.0) (λ _ s' q. tt)

    run_tick-ended :
        (fuel : ℕ) (s : Counts × State W)
        → paths.dead_letter ≢ paths.outbox
        → Ready (beside_counts s)
        → Ensures (λ ended _. ended ≡ true) (λ _ _. Unit {0}) (run_tick env (suc fuel) s)
    unfolding run_tick
    run_tick-ended fuel s apart ready =
        before _ _ (at_counts (at_state (Leaves-assert_active env content paths.outbox Q)))
          (before _ _ (at_counts Keeps-retry) (
            before _ _ (at_counts Keeps-ensure_hydrated) (
              before _ _ (at_counts Keeps-check_mass_push) λ s1 ready1.
                Ensures-continue (drain_rounds env (suc fuel) s1) _ (rounds fuel s1 apart ready1)
                  λ ended s2 q. rw q (
                    Ensures-continue (on_world (rebuild_pending_paths env) s2) _
                      (anything (on_world (rebuild_pending_paths env) s2))
                      λ _ s3 _.
                        Ensures-continue (on_world (apply_remote_inbox env) s3) _
                          (anything (on_world (apply_remote_inbox env) s3))
                          λ applied s4 _. record { post = refl }))))
          s ready

finish_tick-is_some :
    {W : Type 0} (env : Env W) (r : Result Error Bool × (Counts × State W))
    → Ensures (λ ended _. ended ≡ true) (λ _ _. Unit {0}) r
    → is_some (finish_tick env r).0 ≡ true
unfolding finish_tick
finish_tick-is_some env (ok true, (c, s)) h = refl
finish_tick-is_some env (ok false, (c, s)) h = h.post
finish_tick-is_some env (err e, (c, s)) h = refl

-- A tick returns a result with one round of fuel, from an engine without failed enqueues whose
-- outbox is readable, where the vault, the clocks, the server and the removal of the
-- approval file leave the outbox alone.
pub tick_returns :
    {W : Type 0} (env : Env W) {P : OutboxOp → Type 0} {render : OutboxOp → Text}
    → IsLawful env.outbox_codec P render
    → {content : W → Text → Option Text} {G : Type 0} {rest : W → G}
    → HasContents content rest env.fs
    → (ops : List OutboxOp) (e : SyncEngine) (w : W) (fuel : ℕ) → IsQuiet env content e.paths.outbox
    → Leaves env content e.paths.outbox (env.fs.remove e.paths.approval)
    → e.paths.dead_letter ≢ e.paths.outbox
    → e.failed_enqueues ≡ []
    → All P ops
    → Holds render content e.paths.outbox w ops
    → is_some (tick env (suc fuel) (e, w)).0 ≡ true
unfolding tick
tick_returns env L H ops e w fuel Q removes apart none_failed printable holds =
    finish_tick-is_some env _ (
      run_tick-ended env L H e.paths Q ops printable removes fuel
        (record { pushed = 0; applied = 0; dead_lettered = 0 }, (e, w)) apart
        (holds, refl, none_failed))

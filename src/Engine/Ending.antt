-- ===== src/Engine/Ending.antt =====
-- rust-client/src/engine.rs: the `loop` of `run_tick` ends after one round.
use obsidian_sync_engine.Base.{
  ℕ, suc, Text, ◌≡◌, refl, sym, ap, ◌∙◌, subst, ◌≢◌, true, false, Option, List, [], ◌∷◌, All,
  TextSet, Result, ok, err, ◌>>=◌, ◌>>◌, Ensures, Ensures-continue, Ensures-weaken,
  Ensures-on_world, on_world, update, pure, for_each, is_empty, continue,
}
use obsidian_sync_engine.Base.Tests.{nat_eq, list_eq}
use obsidian_sync_engine.Error.{Error}
use obsidian_sync_engine.Fs.Contents.{or_empty, HasContents}
use obsidian_sync_engine.Guard
use obsidian_sync_engine.Jsonl.{read_lines}
use obsidian_sync_engine.Jsonl.Journal.{IsLawful, Holds, read_lines-Holds}
use obsidian_sync_engine.Outbox
use obsidian_sync_engine.Outbox.{OutboxOp, list_ops, coalesce}
use obsidian_sync_engine.Outbox.Drain.{drain_empties}
use obsidian_sync_engine.Engine.State.{Env, State, SyncEngine, JournalPaths, beside_fs}
use obsidian_sync_engine.Engine.Queue.{outbox_list}
use obsidian_sync_engine.Engine.Push.{
  Counts, take_local, with_local, handle_op, drain_with, refresh_pending, drain_outbox_once,
}
use obsidian_sync_engine.Engine.Tick.{drain_rounds}
use obsidian_sync_engine.Engine.Keeps.{HasContents-beside}
use obsidian_sync_engine.Engine.Rounds.{IsQuiet, Keeps-handle_op}

module _ {W : Type 0} (env : Env W) {P : OutboxOp → Type 0} {render : OutboxOp → Text}
    (L : IsLawful env.outbox_codec P render) {content : W → Text → Option Text} {G : Type 0}
    {rest : W → G} (H : HasContents content rest env.fs) (paths : JournalPaths)
    (apart : paths.dead_letter ≢ paths.outbox) (Q : IsQuiet env content paths.outbox) where
  -- The outbox is empty, and the engine's paths are these.
  abbrev Emptied : State W → Type 0
  Emptied (e, w) = (or_empty (content w paths.outbox) ≡ []) × (e.paths ≡ paths)

  abbrev Local : Type 0
  Local = TextSet × (Counts × State W)

  abbrev paths_of : Local → JournalPaths
  paths_of (t, (c, (e, w))) = e.paths

  abbrev all_content : Local → Text → Option Text
  all_content (t, (c, (e, w))) = content w

  all_files : HasContents all_content paths_of (beside_fs (beside_fs (beside_fs env.fs)))
  all_files =
      HasContents-beside (λ t s s' q. q)
        (HasContents-beside {seen = λ (s : Counts × State W). s.1.0.paths} (λ c s s' q. q)
          (HasContents-beside {seen = λ (s : State W). s.0.paths} (λ e w w' q. refl) H))

  drain_with-Emptied :
      (ops : List OutboxOp) (s : Local)
      → paths_of s ≡ paths
      → All P ops
      → Holds render all_content paths.outbox s ops
      → Ensures (λ _ s'. Emptied s'.1.1) (λ _ _. Unit {0}) (drain_with env paths.outbox s)
  unfolding drain_with
  drain_with-Emptied ops s here h holds =
      Ensures-weaken (drain_with env paths.outbox s)
        (drain_empties L _ paths.outbox all_files (λ p op. p) (λ p. p.dead_letter ≢ paths.outbox)
          (handle_op env)
          (λ op left s1 inv queue.
            Ensures-weaken (handle_op env op s1)
              ((Keeps-handle_op env content paths.outbox H Q op).kept s1 inv)
              (λ _ s2 q. (
                (queue.0, ap (λ (v : Option Text × JournalPaths). or_empty v.0) q ∙ queue.1),
                ap (λ (v : Option Text × JournalPaths). v.1) q,
              ))
              (λ _ s2 q. tt))
          ops s (subst (λ (p : JournalPaths). p.dead_letter ≢ paths.outbox) (sym here) apart)
          (h, holds))
        (λ _ s' q. (q.0.1, q.1 ∙ here)) (λ _ s' q. tt)

  list_ops-Emptied :
      (w : W)
      → or_empty (content w paths.outbox) ≡ []
      → Ensures
          (λ ops w'. (ops ≡ []) × (or_empty (content w' paths.outbox) ≡ []))
          (λ _ _. Unit {0})
          (list_ops env.fs env.outbox_codec paths.outbox w)
  unfolding list_ops coalesce Outbox.coalesce_onto
  list_ops-Emptied w h =
      Ensures-continue (read_lines env.fs env.outbox_codec paths.outbox w) _
        (Ensures-weaken (read_lines env.fs env.outbox_codec paths.outbox w)
          (read_lines-Holds L env.fs paths.outbox H [] w tt h) (λ r w1 q. q) (λ _ w1 q. tt))
        λ r w1 q. record { post = (rw (q.0) refl, ap or_empty (q.1.files paths.outbox) ∙ h) }

  outbox_list-Emptied :
      (s : State W)
      → Emptied s
      → Ensures (λ ops s'. (ops ≡ []) × Emptied s') (λ _ _. Unit {0}) (outbox_list env s)
  unfolding outbox_list
  outbox_list-Emptied (e, w) (h, here) =
      Ensures-on_world e (list_ops env.fs env.outbox_codec e.paths.outbox) w
        (subst
          (λ (p : JournalPaths).
            Ensures (λ ops w'. (ops ≡ []) × (or_empty (content w' paths.outbox) ≡ []))
              (λ _ _. Unit {0}) (list_ops env.fs env.outbox_codec p.outbox w))
          (sym here) (list_ops-Emptied w h))
        (λ ops w' q. (q.0, (q.1, here))) (λ _ w' q. tt)

  refresh_pending-Emptied :
      (path : Text) (s : State W)
      → Emptied s
      → Ensures (λ _ s'. Emptied s') (λ _ _. Unit {0}) (refresh_pending env path s)
  unfolding refresh_pending
  refresh_pending-Emptied path s h =
      Ensures-continue (outbox_list env s) _ (outbox_list-Emptied s h)
        λ ops s1 q. record { post = q.1 }

  for_each-Emptied :
      (paths' : List Text) (s : Counts × State W)
      → Emptied s.1
      → Ensures
          (λ _ s'. Emptied s'.1)
          (λ _ _. Unit {0})
          (for_each paths' (λ path. on_world (refresh_pending env path)) s)
  unfolding for_each
  for_each-Emptied [] s h = record { post = h }
  for_each-Emptied (path ∷ paths') (c, s) h =
      Ensures-continue (on_world (refresh_pending env path) (c, s)) _
        (Ensures-on_world c (refresh_pending env path) s (refresh_pending-Emptied path s h)
          (λ _ s1 q. q) (λ _ s1 q. tt))
        λ _ s1 q. for_each-Emptied paths' s1 q

  take_local-Emptied :
      (r : Result Error (Unit {0}) × Local)
      → Ensures (λ _ s'. Emptied s'.1.1) (λ _ _. Unit {0}) r
      → Ensures (λ _ s'. Emptied s'.1) (λ _ _. Unit {0}) (take_local r)
  take_local-Emptied (ok _, (t, s)) h = record { post = h.post }
  take_local-Emptied (err e, (t, s)) h = record { post = tt }

  listed-Emptied :
      (s : Counts × State W)
      → Emptied s.1
      → Ensures
          (λ ops s'. (ops ≡ []) × Emptied s'.1)
          (λ _ _. Unit {0})
          (on_world (outbox_list env) s)
  listed-Emptied (c, s) h =
      Ensures-on_world c (outbox_list env) s (outbox_list-Emptied s h) (λ ops s1 p. p)
        (λ _ s1 p. tt)

  -- The loop ends in its first round, from an engine of these paths.
  ends_at_once :
      (ops : List OutboxOp) (c : Counts) (s : State W) (fuel : ℕ)
      → s.0.paths ≡ paths
      → All P ops
      → Holds render content paths.outbox s.1 ops
      → Ensures
          (λ ended s'. (ended ≡ true) × (or_empty (content s'.1.1 paths.outbox) ≡ []))
          (λ _ _. Unit {0})
          (continue
            (continue
              (with_local env [] (drain_with env paths.outbox) (c, s))
              (λ processed. for_each processed (λ path. on_world (refresh_pending env path))))
            (λ _. on_world (outbox_list env) >>= λ ops'. elim (is_empty ops') [
              | true ↦ do
                on_world
                    (update (λ (e : SyncEngine). record e { guard = Guard.outbox_emptied e.guard }))
                pure true
              | false ↦ drain_rounds env fuel
            ]))
  ends_at_once ops c s fuel here h holds =
      Ensures-continue _ _
        (Ensures-continue (with_local env [] (drain_with env paths.outbox) (c, s)) _
          (take_local-Emptied (drain_with env paths.outbox ([], (c, s)))
            (drain_with-Emptied ops ([], (c, s)) here h holds))
          λ processed s1 q. for_each-Emptied processed s1 q)
        λ _ s1 q.
          Ensures-continue (on_world (outbox_list env) s1) _ (listed-Emptied s1 q)
            λ ops' s2 p. rw (p.0) (record { post = (refl, p.1.0) })

-- With a lawful codec and a readable outbox, apart from the dead letters, where reading the
-- vault, the clocks and the server leave the outbox alone, one round of fuel is enough for the
-- drain loop of a tick: it fails, or it returns with an empty outbox.
pub drain_rounds_end :
    {W : Type 0} (env : Env W) {P : OutboxOp → Type 0} {render : OutboxOp → Text}
    → IsLawful env.outbox_codec P render
    → {content : W → Text → Option Text} {G : Type 0} {rest : W → G}
    → HasContents content rest env.fs
    → (ops : List OutboxOp) (c : Counts) (e : SyncEngine) (w : W) (fuel : ℕ)
    → e.paths.dead_letter ≢ e.paths.outbox
    → IsQuiet env content e.paths.outbox
    → All P ops
    → Holds render content e.paths.outbox w ops
    → Ensures
        (λ ended s'. (ended ≡ true) × (or_empty (content s'.1.1 e.paths.outbox) ≡ []))
        (λ _ _. Unit {0})
        (drain_rounds env (suc fuel) (c, (e, w)))
unfolding drain_rounds drain_outbox_once
drain_rounds_end env L H ops c e w fuel apart Q h holds =
    ends_at_once env L H e.paths apart Q ops c (e, w) fuel refl h holds

-- ===== src/Engine/Pending.antt =====
-- rust-client/src/engine.rs: a local change is never overwritten from the server before it is
-- pushed.
use obsidian_sync_engine.Base.{
  ℕ, Text, ◌≡◌, ap, Bool, true, false, [], ◌∷◌, any, TextSet, Result, ok, err, arith, Ensures,
}
use obsidian_sync_engine.Base.Tests.{nat_eq, list_eq, text_eq_iff, text_eq_refl}
use obsidian_sync_engine.Base.Map
use obsidian_sync_engine.Base.Set
use obsidian_sync_engine.Op.{OpKind, InboxOp}
use obsidian_sync_engine.Error.{Error}
use obsidian_sync_engine.Paths.{canonicalize_sync_path, paths_structurally_conflict}
use obsidian_sync_engine.Outbox.{OutboxOp}
use obsidian_sync_engine.Engine.State.{Env, State, SyncEngine, assert_active}
use obsidian_sync_engine.Engine.Queue.{enqueue_durable, after_enqueue}
use obsidian_sync_engine.Engine.Apply.{should_defer_apply}

any_of_contains :
    (p : Text → Bool) (path : Text) (s : TextSet)
    → Set.contains path s ≡ true
    → p path ≡ true
    → any p s ≡ true
unfolding Set.contains
any_of_contains p path [] h k = cc
any_of_contains p path (q ∷ s) h k = ground (arith, text_eq_iff q path, any_of_contains p path s)

module _ {W : Type 0} (env : Env W) (n : ℕ) (line : InboxOp) where
  -- The inbox line is deferred, and nothing else happens.
  pub Defers : State W → Type 0
  Defers s = should_defer_apply env line (n, s) ≡ (ok true, (n, s))

module _ {W : Type 0} (env : Env W) (path : Text) (n : ℕ) (line : InboxOp)
    (conflicting : paths_structurally_conflict path line.path ≡ true) where
  Defers-of_pending :
      (e : SyncEngine) (w : W)
      → Set.contains path e.pending_outbox_paths ≡ true
      → Defers env n line (e, w)
  unfolding Defers should_defer_apply
  Defers-of_pending e w h = rw (
      any_of_contains (λ p. paths_structurally_conflict p line.path) path e.pending_outbox_paths h
        conflicting)

  removed : (m : Map.TextMap OutboxOp) → Map.contains_key path (Map.remove path m) ≡ false
  removed m = rw (Map.get-remove path path m, text_eq_refl path)

  after_enqueue_lem :
      (intent : OutboxOp) (e : SyncEngine) (r : Result Error (Unit {0})) (w : W)
      → Set.contains path e.pending_outbox_paths ≡ true
      → Ensures
          (λ _ s'. Defers env n line s' × (Map.contains_key path s'.0.failed_enqueues ≡ false))
          (λ _ s'. Defers env n line s' × (Map.contains_key path s'.0.failed_enqueues ≡ true))
          (after_enqueue env path intent r (e, w))
  unfolding after_enqueue
  after_enqueue_lem intent e (ok _) w h = record {
    post = (Defers-of_pending _ w h, removed e.failed_enqueues);
  }
  after_enqueue_lem intent e (err error) w h = record {
    post = (
      Defers-of_pending _ w h,
      ap Map.is_some (Map.get-insert_self path intent e.failed_enqueues),
    );
  }

  -- Once a local change to a canonical path is queued by an active engine, an inbox line on a path
  -- that is the same, above or below is deferred, also when the outbox could not be written: then
  -- the change is kept in memory, and after a written outbox it is no longer kept there.
  pub enqueue_durable-Defers :
      (kind : OpKind) (e : SyncEngine) (w w1 : W)
      → env.suspended w ≡ (false, w1)
      → canonicalize_sync_path path ≡ ok path
      → Ensures
          (λ _ s'. Defers env n line s' × (Map.contains_key path s'.0.failed_enqueues ≡ false))
          (λ _ s'. Defers env n line s' × (Map.contains_key path s'.0.failed_enqueues ≡ true))
          (enqueue_durable env path kind (e, w))
  unfolding enqueue_durable assert_active
  enqueue_durable-Defers kind e w w1 flag canonical =
      rw (flag, canonical) (after_enqueue_lem _ _ _ _ (queued e.pending_outbox_paths))
    where
      queued : (s : TextSet) → Set.contains path (Set.insert path s) ≡ true
      queued s = rw (Set.contains-insert path path s, text_eq_refl path)

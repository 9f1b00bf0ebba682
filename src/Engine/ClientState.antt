-- ===== src/Engine/ClientState.antt =====
-- rust-client/src/engine.rs: the inbox cannot touch this client's credentials and journals.
use obsidian_sync_engine.Base.{Text, ◌≡◌, true, inl, inr}
use obsidian_sync_engine.Base.Tests.{Bool-cases}
use obsidian_sync_engine.Paths.{
  is_canonical_sync_path, canonicalize_sync_path, is_sync_excluded_path, contains_client_state,
}
use obsidian_sync_engine.Paths.Segments.{is_at_or_below}
use obsidian_sync_engine.Paths.ClientState.{contains_client_state_complete}
use obsidian_sync_engine.Engine.State.{Env, State}
use obsidian_sync_engine.Engine.Apply.{apply_remote_put, apply_remote_delete}

module _ {W : Type 0} (env : Env W) (s : State W) where
  skipped_put :
      (path : Text) → is_sync_excluded_path path ≡ true → (apply_remote_put env path s).1 ≡ s
  unfolding apply_remote_put canonicalize_sync_path
  skipped_put path h = elim (Bool-cases (is_canonical_sync_path path)) [
    | inl e ↦ rw (e, h)
    | inr e ↦ rw e
  ]

  skipped_delete :
      (path : Text) → contains_client_state path ≡ true → (apply_remote_delete env path s).1 ≡ s
  unfolding apply_remote_delete canonicalize_sync_path
  skipped_delete path h = elim (Bool-cases (is_canonical_sync_path path)) [
    | inl e ↦ rw (e, h)
    | inr e ↦ rw e
  ]

  -- For any path of this client's own state, a put of it from the server, and a delete of it or of
  -- a path above it, leave the engine and the world as they are: nothing is downloaded, written or
  -- removed.
  pub client_state_untouched :
      (held path : Text)
      → is_sync_excluded_path held ≡ true
      → is_at_or_below path held ≡ true
      → ((apply_remote_put env held s).1 ≡ s) × ((apply_remote_delete env path s).1 ≡ s)
  client_state_untouched held path h below =
      (skipped_put held h, skipped_delete path (contains_client_state_complete path held h below))

-- ===== src/Daemon/Exclusive.antt =====
-- rust-client/src/daemon.rs: of two clients on one vault, the second does nothing.
use obsidian_sync_engine.Base.{
  ℕ, Text, ◌≡◌, ◌∙◌, false, Bool-cases, inl, inr, Ensures, Ensures-continue, Ensures-weaken,
}
use obsidian_sync_engine.Base.Preserves.{Preserves}
use obsidian_sync_engine.Error.{io, Ensures-io}
use obsidian_sync_engine.Settings
use obsidian_sync_engine.Settings.Loading.{Preserves-load}
use obsidian_sync_engine.Engine.State.{JournalPaths, for_identity}
use obsidian_sync_engine.Daemon.Host.{Host}
use obsidian_sync_engine.Daemon.Run.{RunOptions, Process, run}

-- Another process holds the lock, and what a view shows is neither `data.json` nor the folder of
-- the lock.
pub record IsLocked {W V : Type 0} (host : Host W) (process : Process W) (view : W → V)
    : Type 0 where
  pub held :
      (lock : Text) (w : W)
      → Ensures
          (λ taken w'. (taken ≡ false) × (view w' ≡ view w))
          (λ _ w'. view w' ≡ view w)
          (process.try_lock lock w)
  pub on_has_data_json : (w : W) → view (process.has_data_json w).1 ≡ view w
  pub on_create_dir_all :
      (folder : Text) (v : V) → Preserves (λ w. view w ≡ v) (process.create_dir_all folder)
  pub on_read : (v : V) → Preserves (λ w. view w ≡ v) host.files.read
  pub on_replace : (t : Text) (v : V) → Preserves (λ w. view w ≡ v) (host.files.replace t)

-- Where another process holds the lock, `run` fails: it starts no engine, no thread and no
-- connection, and changes nothing beside `data.json` and the folder of the lock.
pub run_locked_out :
    {W V : Type 0} (host : Host W) (process : Process W) (view : W → V)
    → IsLocked host process view
    → (fuel : ℕ) (options : RunOptions) (w : W)
    → Ensures (λ _ _. ⊥) (λ _ w'. view w' ≡ view w) (run host process fuel options w)
unfolding run
run_locked_out {W} host process view L fuel options w =
    elim (Bool-cases (process.has_data_json w).0) [
      | inl present ↦ rw present (
          Ensures-continue (Settings.load host.files host.object_codec (process.has_data_json w).1)
            _
            ((Preserves-load host.files host.object_codec (L.on_read (view w))
                (λ t. L.on_replace t (view w))).preserved
              (process.has_data_json w).1 (L.on_has_data_json w))
            λ settings w1 q1.
              let paths : JournalPaths = for_identity settings.server_identity in
              Ensures-continue (io (process.create_dir_all paths.state_dir) w1) _
                (Ensures-io (process.create_dir_all paths.state_dir) w1
                  ((L.on_create_dir_all paths.state_dir (view w)).preserved w1 q1))
                λ _ w2 q2.
                  Ensures-continue {Q = λ taken w3. (taken ≡ false) × (view w3 ≡ view w)}
                    {R = λ _ w3. view w3 ≡ view w} (io (process.try_lock paths.lock) w2) _
                    (Ensures-io (process.try_lock paths.lock) w2 (
                      Ensures-weaken (process.try_lock paths.lock w2) (L.held paths.lock w2)
                        (λ taken w3 q. (q.0, q.1 ∙ q2)) (λ _ w3 q. q ∙ q2)))
                    λ taken w3 q3. rw (q3.0) (record { post = q3.1 }))
      | inr absent ↦ rw absent (record { post = L.on_has_data_json w })
    ]

-- ===== src/Daemon/Host.antt =====
-- rust-client/src/daemon.rs: what the service is given, over an unknown world `W`: the disk, the
-- server, the clocks, the process's threads and signals. The engine's world has the settings
-- beside it, which its `RevisionStore` holds.
use obsidian_sync_engine.Base.{ℕ, Text, Bytes, Bool, List, ok, on_world, Result}
use obsidian_sync_engine.Error.{Error, Any}
use obsidian_sync_engine.Fs.{SyncFs}
use obsidian_sync_engine.Jsonl.{Codec}
use obsidian_sync_engine.Op.{InboxOp}
use obsidian_sync_engine.Outbox.{OutboxOp}
use obsidian_sync_engine.Tracker.{ManifestFile}
use obsidian_sync_engine.Settings.{Settings, Files, Object, save_revision}
use obsidian_sync_engine.Http
use obsidian_sync_engine.Http.{HttpTransport, Wire}
use obsidian_sync_engine.Watcher.{FsEvent}
use obsidian_sync_engine.Engine.State.{Env, RevisionStore, Transport, DeadLetterNote, beside_fs}

-- `Result<FsEvent, RecvTimeoutError>`
pub data Received : Type 0 where
  event : FsEvent → Received
  timeout disconnected : Received

pub record Host (W : Type 0) : Type 0 where
  pub fs : SyncFs W
  pub files : Files W
  pub object_codec : Codec Object
  pub wire : Wire W
  pub shutdown : W → Bool × W
  pub obsidian : W → Bool × W
  pub suspended : W → Bool × W
  pub now : W → ℕ × W
  pub now_ms : W → ℕ × W
  pub sleep : ℕ → W → W
  pub recv_timeout : ℕ → W → Received × W
  pub try_iter : W → List FsEvent × W
  pub outbox_codec : Codec OutboxOp
  pub inbox_codec : Codec InboxOp
  pub manifest_codec : Codec ManifestFile
  pub note_text : DeadLetterNote → Text
  pub digest : Bytes → Bytes

-- The settings beside the world.
abbrev pub World : Type 0 → Type 0
World W = Settings × W

module _ {W : Type 0} where
  abbrev beside_reading : {A T : Type 0} → (W → A × W) → T × W → A × (T × W)
  beside_reading f (t, w) = let (a, w') = f w in (a, (t, w'))

  abbrev put_settings : Settings → Result Error Settings × W → Result Error (Unit {0}) × World W
  put_settings old (Result.ok settings, w) = (ok tt, (settings, w))
  put_settings old (Result.err e, w) = (Result.err e, (old, w))

  abbrev beside_transport : Transport W → Transport (World W)
  beside_transport transport = record {
    upload = λ p b. on_world (transport.upload p b);
    delete_remote = λ p r. on_world (transport.delete_remote p r);
    download = λ p. on_world (transport.download p);
    fetch_inbox = λ r. on_world (transport.fetch_inbox r);
  }

module _ {W : Type 0} (host : Host W) where
  unfoldable pub set_revision : ℕ → Any (World W) (Unit {0})
  unfolding save_revision
  set_revision revision (settings, w) =
      put_settings settings (save_revision host.files host.object_codec revision settings w)

  -- `impl RevisionStore for SettingsRevision`
  abbrev pub settings_revision : RevisionStore (World W)
  settings_revision = record { get = λ s. s.0.revision; set = set_revision }

  -- What `run` gives the engine.
  abbrev pub env_of : HttpTransport → Env (World W)
  env_of http = record {
    fs = beside_fs host.fs;
    transport = beside_transport (Http.transport host.wire http);
    revision = settings_revision;
    suspended = beside_reading host.suspended;
    now_ms = beside_reading host.now_ms;
    now = beside_reading host.now;
    outbox_codec = host.outbox_codec;
    inbox_codec = host.inbox_codec;
    manifest_codec = host.manifest_codec;
    note_text = host.note_text;
    digest = host.digest;
  }

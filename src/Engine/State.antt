-- ===== src/Engine/State.antt =====
-- rust-client/src/engine.rs: the engine's state and the world that it acts on. The world `W` is
-- unknown: files, server, clocks and the flag that another thread sets.
use obsidian_sync_engine.Base.{
  ℕ, Text, Bytes, codes, Bool, false, Option, List, [], if◌then◌else◌, ok, TextMap, TextSet, pure,
  fail, ◌>>=◌, on_world, zoom,
}
use obsidian_sync_engine.Op.{InboxOp}
use obsidian_sync_engine.Error.{suspended, Any}
use obsidian_sync_engine.Guard.{MassPushGuard}
use obsidian_sync_engine.Fs.{SyncFs}
use obsidian_sync_engine.Jsonl.{Codec}
use obsidian_sync_engine.Paths.{join, state_root}
use obsidian_sync_engine.Outbox.{OutboxOp}
use obsidian_sync_engine.Tracker
use obsidian_sync_engine.Tracker.{Tracker, ManifestFile}

pub record JournalPaths : Type 0 where
  pub state_dir : Text
  pub outbox : Text
  pub inbox : Text
  pub dead_letter : Text
  pub manifest : Text
  pub approval : Text
  pub conflicts : Text
  pub temp : Text
  pub lock : Text

unfoldable pub for_identity : Text → JournalPaths
for_identity identity =
    let state_dir = join state_root identity in
    record {
      state_dir = state_dir;
      outbox = join state_dir (codes "outbox.jsonl");
      inbox = join state_dir (codes "inbox.jsonl");
      dead_letter = join state_dir (codes "dead-letter.jsonl");
      manifest = join state_dir (codes "rust-client-manifest.json");
      approval = join state_dir (codes "approve-mass-push");
      conflicts = join state_dir (codes "conflicts");
      temp = join state_dir (codes "tmp");
      lock = join state_dir (codes "rust-client.lock");
    }

-- The trait `Transport` of rust-client/src/transport.rs.
pub record Transport (W : Type 0) : Type 0 where
  pub upload : Text → Bytes → Any W ℕ
  pub delete_remote : Text → Option ℕ → Any W ℕ
  pub download : Text → Any W Bytes
  pub fetch_inbox : ℕ → Any W (List InboxOp)

pub record RevisionStore (W : Type 0) : Type 0 where
  pub get : W → ℕ
  pub set : ℕ → Any W (Unit {0})

-- The fields of the `json!` value that `dead_letter` writes.
pub record DeadLetterNote : Type 0 where
  pub op : Text
  pub path : Text
  pub original_ts : ℕ
  pub error : Text
  pub status : Option ℕ
  pub ts : ℕ

-- What the engine is given: the traits' objects, the clocks, the flag `suspended`, which reads as
-- the world decides, and the crates `serde_json` and `sha2`.
pub record Env (W : Type 0) : Type 0 where
  pub fs : SyncFs W
  pub transport : Transport W
  pub revision : RevisionStore W
  pub suspended : W → Bool × W
  pub now_ms : W → ℕ × W
  pub now : W → ℕ × W
  pub outbox_codec : Codec OutboxOp
  pub inbox_codec : Codec InboxOp
  pub manifest_codec : Codec ManifestFile
  pub note_text : DeadLetterNote → Text
  pub digest : Bytes → Bytes

pub record SyncEngine : Type 0 where
  pub paths : JournalPaths
  pub guard : MassPushGuard
  pub tracker : Tracker
  pub pending_outbox_paths : TextSet
  pub failed_enqueues : TextMap OutboxOp
  pub hydrated : Bool

unfoldable pub new : JournalPaths → MassPushGuard → SyncEngine
unfolding Tracker.empty
new paths guard = record {
  paths = paths;
  guard = guard;
  tracker = Tracker.empty paths.manifest;
  pending_outbox_paths = [];
  failed_enqueues = [];
  hydrated = false;
}

-- `&mut self` beside the world.
abbrev pub State : Type 0 → Type 0
State W = SyncEngine × W

abbrev pub with_tracker : SyncEngine → Tracker → SyncEngine
with_tracker e t = record e { tracker = t }

module _ {W A : Type 0} where
  -- A method of the tracker, as the engine calls it.
  abbrev pub on_tracker : Any (Tracker × W) A → Any (State W) A
  on_tracker = zoom (λ (e : SyncEngine). e.tracker) with_tracker

  -- A reading of a clock or a flag.
  abbrev pub reading : (W → A × W) → Any W A
  reading f w = let (a, w') = f w in (ok a, w')

-- The same files, beside an object.
module _ {T W : Type 0} where
  abbrev pub beside_fs : SyncFs W → SyncFs (T × W)
  beside_fs fs = record {
    read = λ p. on_world (fs.read p);
    write = λ p t. on_world (fs.write p t);
    append = λ p t. on_world (fs.append p t);
    exists = λ p. on_world (fs.exists p);
    stat = λ p. on_world (fs.stat p);
    read_binary = λ p. on_world (fs.read_binary p);
    hash_file = λ p. on_world (fs.hash_file p);
    write_binary = λ p b. on_world (fs.write_binary p b);
    remove = λ p. on_world (fs.remove p);
    prune_empty_parents = λ p. on_world (fs.prune_empty_parents p);
    list_files_under = λ p. on_world (fs.list_files_under p);
  }

module _ {W : Type 0} (env : Env W) where
  -- `assert_active`
  unfoldable pub assert_active : Any W (Unit {0})
  assert_active = do stopped ← reading env.suspended; if stopped then fail suspended else pure tt

  -- `self.revision.get()`
  abbrev pub current_revision : Any W ℕ
  current_revision w = (ok (env.revision.get w), w)

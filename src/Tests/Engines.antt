-- ===== src/Tests/Engines.antt =====
-- Runs of the engine of rust-client in a world of files in memory and a server that takes
-- everything.
use obsidian_sync_engine.Base.{
  ℕ, suc, Text, codes, ◌≡◌, refl, ap, ◌∙◌, List, Bool, true, false, none, [], ok, Ensures, ◌≢◌,
  ◌==◌, ◌∷◌, Ensures-weaken,
}
use obsidian_sync_engine.Base.Tests.{nat_eq, list_eq, text_eq_iff}
use obsidian_sync_engine.Base.Map
use obsidian_sync_engine.Base.Map.{get}
use obsidian_sync_engine.Op.{put, delete, InboxOp}
use obsidian_sync_engine.Error.{Any}
use obsidian_sync_engine.Guard
use obsidian_sync_engine.Paths
use obsidian_sync_engine.Outbox.{OutboxOp}
use obsidian_sync_engine.Engine.State
use obsidian_sync_engine.Engine.State.{Env, State, SyncEngine, Transport, RevisionStore}
use obsidian_sync_engine.Engine.Queue.{enqueue_durable}
use obsidian_sync_engine.Engine.Push.{Counts}
use obsidian_sync_engine.Engine.Apply.{apply_remote_put, apply_remote_delete}
use obsidian_sync_engine.Engine.Tick.{drain_rounds, tick}
use obsidian_sync_engine.Engine.Rounds.{IsQuiet, Leaves}
use obsidian_sync_engine.Engine.Ending.{drain_rounds_end}
use obsidian_sync_engine.Engine.Returns.{tick_returns}
use obsidian_sync_engine.Fs.Contents.{or_empty}
use obsidian_sync_engine.Jsonl.Journal.{journal_text}
use obsidian_sync_engine.Engine.ClientState.{client_state_untouched}
use obsidian_sync_engine.Engine.Suspended.{
  IsStill, IsUnchanged, Call, called_all, suspended_does_nothing,
}
use obsidian_sync_engine.Engine.Pending.{Defers, enqueue_durable-Defers}
use obsidian_sync_engine.Tests.Memory.{Disk, memory_fs, disk_content, memory_fs-HasContents}
use obsidian_sync_engine.Tests.Codecs.{
  inbox_codec, outbox_codec, manifest_codec, outbox_line, outbox_codec-IsLawful,
}

-- Beside the files: the client's revision, and the flag.
abbrev World : Type 0
World = Disk (ℕ × Bool)

abbrev next_revision : Any World ℕ
next_revision d = (ok (suc d.others.0), d)

abbrev env : Env World
env = record {
  fs = memory_fs;
  transport = record {
    upload = λ path body. next_revision;
    delete_remote = λ path base. next_revision;
    download = λ path d. (ok [], d);
    fetch_inbox = λ since d. (ok [], d);
  };
  revision = record {
    get = λ d. d.others.0;
    set = λ r d. (ok tt, record d { others = (r, d.others.1) });
  };
  suspended = λ d. (d.others.1, d);
  now_ms = λ d. (0, d);
  now = λ d. (0, d);
  outbox_codec = outbox_codec;
  inbox_codec = inbox_codec;
  manifest_codec = manifest_codec [];
  note_text = λ note. note.path;
  digest = λ bytes. bytes;
}

abbrev engine : SyncEngine
engine = State.new (State.for_identity (codes "laptop")) (Guard.new 50 300)

abbrev world : Bool → World
world flag = record { files = []; others = (7, flag) }

abbrev note : Text
note = codes "a/b.md"

client_state_untouched_example :
    ((apply_remote_put env Paths.client_data_path (engine, world false)).1 ≡ (engine, world false))
    × ((apply_remote_delete env Paths.config_dir (engine, world false)).1 ≡ (engine, world false))
unfolding Paths.is_sync_excluded_path list_eq
client_state_untouched_example =
    client_state_untouched env (engine, world false) Paths.client_data_path Paths.config_dir refl
      refl

abbrev no_counts : Counts
no_counts = record { pushed = 0; applied = 0; dead_lettered = 0 }

abbrev put_note : OutboxOp
put_note = record { op = put; path = note; ts = 1; base_revision = none }

-- The revision and the flag, and every file but the manifest's.
abbrev IsAtRest : World → Type 0
IsAtRest d = (d.others ≡ (7, true)) × ((p : Text) → engine.tracker.path ≢ p → get p d.files ≡ none)

env-IsStill : IsStill env IsAtRest engine.tracker.path
env-IsStill = record {
  on_flag = λ d i. (ap (λ (o : ℕ × Bool). o.1) i.0, i);
  on_write = λ text. record {
    preserved = λ d i. record {
      post = (i.0, λ p h. Map.get-insert_ne engine.tracker.path p text d.files h ∙ i.1 p h);
    };
  };
}

abbrev calls : List Call
calls =
    Call.change note put
    ∷ Call.tick_call 9
    ∷ Call.push put_note
    ∷ Call.fetch
    ∷ Call.tick_call 9
    ∷ []

suspended_does_nothing_example :
    IsUnchanged env engine (called_all env calls (engine, world true)).0
    × IsAtRest (called_all env calls (engine, world true)).1
unfolding get
suspended_does_nothing_example =
    suspended_does_nothing env IsAtRest engine env-IsStill calls (world true) (refl, λ p h. refl)

abbrev delete_folder : InboxOp
delete_folder = record { rev = 8; op = delete; path = codes "a" }

enqueue_durable-Defers_example :
    Ensures
      (λ _ s'. Defers env 1 delete_folder s' × (Map.contains_key note s'.0.failed_enqueues ≡ false))
      (λ _ s'. Defers env 1 delete_folder s' × (Map.contains_key note s'.0.failed_enqueues ≡ true))
      (enqueue_durable env note put (engine, world false))
unfolding Paths.paths_structurally_conflict Paths.canonicalize_sync_path
    Paths.is_canonical_sync_path list_eq
enqueue_durable-Defers_example =
    enqueue_durable-Defers env note 1 delete_folder refl put engine (world false) (world false) refl
      refl

abbrev outbox_path : Text
unfolding State.for_identity State.new
outbox_path = engine.paths.outbox

env-IsQuiet : IsQuiet env disk_content outbox_path
env-IsQuiet = record {
  stat = λ p. record { kept = λ d inv. record { post = refl } };
  read_binary = λ p. record {
    kept = λ d inv.
        Ensures-weaken (memory_fs.read p d) (memory_fs-HasContents.on_read p d)
          (λ _ d' q. q.1.files outbox_path) (λ _ d' q. q.files outbox_path);
  };
  upload = λ p body. record { kept = λ d inv. record { post = refl } };
  delete_remote = λ p base. record { kept = λ d inv. record { post = refl } };
  suspended = λ d. refl;
  now = λ d. refl;
  now_ms = λ d. refl;
}

abbrev queued : World
queued = record {
  files = (outbox_path, journal_text outbox_line (put_note ∷ [])) ∷ [];
  others = (7, false);
}

dead_letter_apart : engine.paths.dead_letter ≢ outbox_path
unfolding State.for_identity State.new list_eq
dead_letter_apart h =
    let e : (engine.paths.dead_letter == outbox_path) ≡ true = (text_eq_iff _ _).1 h in cc e

drain_rounds_end_example :
    Ensures
      (λ ended s'. (ended ≡ true) × (or_empty (disk_content s'.1.1 outbox_path) ≡ []))
      (λ _ _. Unit {0})
      (drain_rounds env 3 (no_counts, (engine, queued)))
unfolding State.for_identity State.new Map.get list_eq
drain_rounds_end_example =
    drain_rounds_end env outbox_codec-IsLawful memory_fs-HasContents (put_note ∷ []) no_counts
      engine queued 2 dead_letter_apart env-IsQuiet (refl, tt) refl

abbrev approval_path : Text
unfolding State.for_identity State.new
approval_path = engine.paths.approval

approval_apart : approval_path ≢ outbox_path
unfolding State.for_identity State.new list_eq
approval_apart h = let e : (approval_path == outbox_path) ≡ true = (text_eq_iff _ _).1 h in cc e

approval-Leaves : Leaves env disk_content outbox_path (memory_fs.remove approval_path)
approval-Leaves = record {
  kept =
      λ d inv. record { post = Map.get-remove_ne approval_path outbox_path d.files approval_apart };
}

tick_returns_example : Map.is_some (tick env 3 (engine, queued)).0 ≡ true
unfolding State.for_identity State.new Map.get list_eq
tick_returns_example =
    tick_returns env outbox_codec-IsLawful memory_fs-HasContents (put_note ∷ []) engine queued 2
      env-IsQuiet approval-Leaves dead_letter_apart refl (refl, tt) refl

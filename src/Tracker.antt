-- ===== src/Tracker.antt =====
-- rust-client/src/tracker.rs: the manifest of the last known state of each path. A method that
-- takes `&mut self` runs on the tracker beside the world, so that what it changes before an
-- error stays changed.
pub mod Manifest
use obsidian_sync_engine.Base.{
  ℕ, ℤ, ◌+◌, ◌-◌, Text, Bytes, codes, to_decimal, starts_with, Bool, true, false, not, ◌&&◌, ◌||◌,
  Option, none, some, List, [], ◌∷◌, ◌++◌, if◌then◌else◌, ◌==◌, filter, length, TextMap, TextSet,
  ok, err, pure, fail, lift, ◌>>=◌, ◌>>◌, on_world, gets, update,
}
use obsidian_sync_engine.Base.Tests.{nat_eq, list_eq}
use obsidian_sync_engine.Base.Int.{int_eq}
use obsidian_sync_engine.Base.Map
use obsidian_sync_engine.Base.Set
use obsidian_sync_engine.Error.{other, Any, io}
use obsidian_sync_engine.Fs.{SyncFs, PathStat, sha256_hex}
use obsidian_sync_engine.Jsonl.{Codec}
use obsidian_sync_engine.Paths.{join, is_watched_path}

abbrev pub manifest_version : ℕ
manifest_version = 1

pub record Entry : Type 0 where
  pub hash : Text
  pub size : ℕ
  pub mtime_ns : ℤ

pub record ManifestFile : Type 0 where
  pub version : ℕ
  pub revision : ℕ
  pub files : TextMap Entry

pub record ScanDiff : Type 0 where
  pub changed : List (Text × Text)
  pub missing : List Text

pub record Tracker : Type 0 where
  pub path : Text
  pub entries : TextMap Entry
  pub revision : ℕ
  pub dirty : Bool

unfoldable pub empty : Text → Tracker
empty path = record { path = path; entries = []; revision = 0; dirty = true }

-- `len`
abbrev pub count : Tracker → ℕ
count t = length t.entries

unfoldable pub contains : Tracker → Text → Bool
contains t path = Map.contains_key path t.entries

abbrev hash_in : Option Entry → Option Text
hash_in none = none
hash_in (some entry) = some entry.hash

unfoldable pub hash_of : Tracker → Text → Option Text
hash_of t path = hash_in (Map.get path t.entries)

unfoldable pub tracked_under : Tracker → Text → List Text
unfolding list_eq
tracked_under t path =
    filter (λ key. key == path || starts_with (join path []) key) (Map.keys t.entries)

-- `record`, a word that is reserved here.
unfoldable pub record_stat : Text → Text → PathStat → Tracker → Tracker
record_stat path hash (PathStat.file size mtime_ns) t = record t {
  entries = Map.insert path (record { hash = hash; size = size; mtime_ns = mtime_ns }) t.entries;
  dirty = true;
}
record_stat path hash PathStat.dir t = t
record_stat path hash PathStat.other t = t

unfoldable pub forget : Text → Tracker → Tracker
forget path t =
    if Map.contains_key path t.entries
    then record t { entries = Map.remove path t.entries; dirty = true }
    else t

-- `known.size == size && known.mtime_ns == mtime_ns`
abbrev pub same_stat : Entry → ℕ → ℤ → Bool
same_stat known size mtime_ns = known.size == size && known.mtime_ns == mtime_ns

module _ {S : Type 0} (fs : SyncFs S) where
  -- The hash that `rebaseline` takes for a file, and whether it is the known one.
  unfoldable pub baseline_hash : Text → ℕ → ℤ → Option Entry → Any S (Text × Bool)
  baseline_hash path size mtime_ns none = do hash ← io (fs.hash_file path); pure (hash, false)
  baseline_hash path size mtime_ns (some known) =
      if same_stat known size mtime_ns
      then pure (known.hash, true)
      else do hash ← io (fs.hash_file path); pure (hash, false)

  -- The loop of `rebaseline`: the new entries and the number of unchanged files.
  unfoldable pub baseline_files :
      TextMap Entry → TextMap Entry → ℕ → List Text → Any S (TextMap Entry × ℕ)
  unfolding baseline_hash is_watched_path
  baseline_files old entries unchanged [] = pure (entries, unchanged)
  baseline_files old entries unchanged (path ∷ paths) = elim (is_watched_path path) [
    | false ↦ baseline_files old entries unchanged paths
    | true ↦ do
      found ← io (fs.stat path)
      elim found [
        | some (PathStat.file size mtime_ns) ↦ do
          (hash, same) ← baseline_hash path size mtime_ns (Map.get path old)
          baseline_files old
              (Map.insert path (record { hash = hash; size = size; mtime_ns = mtime_ns }) entries)
              (if same then unchanged + 1 else unchanged) paths
        | _ ↦ baseline_files old entries unchanged paths
      ]
  ]

  -- The `match` of `scan` on one file: what goes to `diff.changed`.
  unfoldable pub scan_file : Text → ℕ → ℤ → Option Entry → Any (Tracker × S) (List (Text × Text))
  unfolding record_stat list_eq
  scan_file path size mtime_ns none = do
    hash ← on_world (io (fs.hash_file path))
    pure ((path, hash) ∷ [])
  scan_file path size mtime_ns (some known) = if same_stat known size mtime_ns then pure [] else do
    hash ← on_world (io (fs.hash_file path))
    if known.hash == hash
        then (do update (record_stat path hash (PathStat.file size mtime_ns)); pure [])
        else pure ((path, hash) ∷ [])

  -- The loop of `scan`: what has changed, and the files that are present.
  unfoldable pub scan_files :
      List (Text × Text) → TextSet → List Text → Any (Tracker × S) (List (Text × Text) × TextSet)
  unfolding scan_file is_watched_path
  scan_files changed present [] = pure (changed, present)
  scan_files changed present (path ∷ paths) = elim (is_watched_path path) [
    | false ↦ scan_files changed present paths
    | true ↦ do
      found ← on_world (io (fs.stat path))
      elim found [
        | some (PathStat.file size mtime_ns) ↦ do
          known ← gets (λ t. Map.get path t.entries)
          more ← scan_file path size mtime_ns known
          scan_files (changed ++ more) (Set.insert path present) paths
        | _ ↦ scan_files changed present paths
      ]
  ]

  unfoldable pub scan : Any (Tracker × S) ScanDiff
  unfolding scan_files
  scan = do
    paths ← on_world (io (fs.list_files_under []))
    (changed, present) ← scan_files [] [] paths
    known ← gets (λ t. Map.keys t.entries)
    pure (record {
      changed = changed;
      missing = filter (λ path. not (Set.contains path present)) known;
    })

  unfoldable pub matches_disk : Tracker → Text → Any S Bool
  unfolding hash_of list_eq
  matches_disk t path = do
    found ← io (fs.stat path)
    elim found [
      | some (PathStat.file size mtime_ns) ↦ elim (hash_of t path) [
        | none ↦ pure false
        | some known ↦ do hash ← io (fs.hash_file path); pure (hash == known)
      ]
      | _ ↦ elim (hash_of t path) [ none ↦ pure true | some known ↦ pure false ]
    ]

module _ {S : Type 0} (fs : SyncFs S) (digest : Bytes → Bytes) where
  unfoldable pub record_written : Text → Bytes → Any (Tracker × S) (Unit {0})
  unfolding record_stat is_watched_path sha256_hex
  record_written path bytes =
      if is_watched_path path
      then (do
        found ← on_world (io (fs.stat path))
        elim found [
          | none ↦ pure tt
          | some stat ↦ update (record_stat path (sha256_hex digest bytes) stat)
        ])
      else pure tt

module _ {S : Type 0} (fs : SyncFs S) (codec : Codec ManifestFile) where
  unfoldable pub load : Text → Any S (Option Tracker)
  unfolding to_decimal
  load path = do
    present ← io (fs.exists path)
    if not present then pure none else do
      raw ← io (fs.read path)
      elim (codec.from_str raw) [
        | err e ↦ pure none
        | ok manifest ↦
            if not (manifest.version == manifest_version)
            then fail (other (codes "unsupported manifest version " ++ to_decimal manifest.version))
            else pure (
                some (record {
                  path = path;
                  entries = manifest.files;
                  revision = manifest.revision;
                  dirty = false;
                }))
      ]

  -- The write that `save` makes.
  abbrev pub write_manifest : ℕ → Tracker → Any S (Unit {0})
  write_manifest revision t = do
    text ← lift (
        codec.to_string
          (record { version = manifest_version; revision = revision; files = t.entries }))
    io (fs.write t.path text)

  unfoldable pub save : ℕ → Any (Tracker × S) (Unit {0})
  save revision = do
    t ← gets (λ t. t)
    if not t.dirty && t.revision == revision then pure tt else do
      on_world (write_manifest revision t)
      update (λ t. record t { revision = revision; dirty = false })

  unfoldable pub rebaseline : ℕ → Any (Tracker × S) ℕ
  unfolding baseline_files save
  rebaseline revision = do
    old ← gets (λ t. t.entries)
    paths ← on_world (io (fs.list_files_under []))
    (entries, unchanged) ← on_world (baseline_files fs old [] 0 paths)
    update (λ t. record t { entries = entries; dirty = true })
    save revision
    pure (length entries - unchanged)

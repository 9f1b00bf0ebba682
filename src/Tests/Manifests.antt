-- ===== src/Tests/Manifests.antt =====
-- A run of the manifest of rust-client on files in memory.
use obsidian_sync_engine.Base.{
  codes, ◌≡◌, refl, true, some, [], ◌∷◌, pos, TextMap, on_world, ◌>>◌, Ensures,
}
use obsidian_sync_engine.Base.Tests.{list_eq}
use obsidian_sync_engine.Tracker.{Tracker, Entry, save, load}
use obsidian_sync_engine.Tracker.Manifest.{saved, load-save}
use obsidian_sync_engine.Tests.Memory.{Disk, memory_fs, memory_fs-HasContents}
use obsidian_sync_engine.Tests.Codecs.{manifest_codec, manifest_codec-IsLawful}

abbrev entries : TextMap Entry
entries = (codes "a.md", record { hash = codes "00"; size = 3; mtime_ns = pos 7 }) ∷ []

abbrev tracker : Tracker
tracker = record { path = codes "manifest.json"; entries = entries; revision = 4; dirty = true }

abbrev blank_disk : Disk (Unit {0})
blank_disk = record { files = []; others = tt }

load-save_example :
    Ensures
      (λ o _. o ≡ some (saved 5 tracker))
      (λ _ _. Unit {0})
      ((save memory_fs (manifest_codec entries) 5
          >> on_world (load memory_fs (manifest_codec entries) (codes "manifest.json")))
        (tracker, blank_disk))
load-save_example =
    load-save (manifest_codec entries) memory_fs memory_fs-HasContents
      (manifest_codec-IsLawful entries) 5 tracker blank_disk (λ h. cc h) refl

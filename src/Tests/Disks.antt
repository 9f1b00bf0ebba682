-- ===== src/Tests/Disks.antt =====
-- Runs of `LocalFs` of rust-client on a small disk whose calls fail now and then.
use obsidian_sync_engine.Base.{
  Text, Bytes, List, codes, to_bytes, ◌≡◌, ◌⊎◌, refl, true, none, some, [], ◌∷◌, ◌++◌, All, Ensures,
  pos,
}
use obsidian_sync_engine.Base.Tests.{nat_eq, list_eq}
use obsidian_sync_engine.Base.Map
use obsidian_sync_engine.Fs.Disk.{Disk, Node, file, folder, symlink, to_folder, Fault, node_at}
use obsidian_sync_engine.Fs.Local.{
  write, append, stat, read_binary, hash_file, remove, prune_empty_parents,
}
use obsidian_sync_engine.Fs.Inbound.{write_binary, Listing, list_entries, list_files_under}
use obsidian_sync_engine.Fs.Symlinks.{Refuses, symlink_refused}
use obsidian_sync_engine.Fs.Listing.{AllListed, OnTop, list_files_under-AllListed}
use obsidian_sync_engine.Fs.Effects.{or_nothing}
use obsidian_sync_engine.Fs.Recover.{journal_bytes, Elsewhere}
use obsidian_sync_engine.Fs.Atomic.{write_atomic}
use obsidian_sync_engine.Fs.Grows.{Part, append_grows}
use obsidian_sync_engine.Fs.Calls.{create, write_all, sync_all, rename, remove_file}
use obsidian_sync_engine.Fs.Disk.{symlink_metadata}
use obsidian_sync_engine.Fs.Local.{
  resolve, ensure_parent_dir, recover_journal, write_temporary, drop_backup, sync_parent,
  make_ancestors, no_symlink_in,
}
use obsidian_sync_engine.Paths.{ancestor_dirs}

abbrev fault : Fault
fault = record { written = 1; removed = λ path. true }

-- A folder with an interrupted write in it, and a symlink to another folder. The fifth call fails.
abbrev disk : Disk
disk = record {
  nodes =
      (codes "a", folder)
      ∷ (codes "a/log.bak", file (codes "old") 420 (pos 1))
      ∷ (codes "link", symlink to_folder)
      ∷ [];
  clock = pos 9;
  faults = none ∷ none ∷ none ∷ none ∷ some fault ∷ [];
}

abbrev linked : Text
linked = codes "link/x.md"

abbrev log : Text
log = codes "a/log"

abbrev line : Text
line = codes "new line"

abbrev no_digest : Bytes → Bytes
no_digest bytes = bytes

symlink_refused_example :
    Refuses (stat linked) disk
    × Refuses (read_binary linked) disk
    × Refuses (hash_file no_digest linked) disk
    × Refuses (list_files_under 9 linked) disk
    × Refuses (remove linked) disk
    × Refuses (prune_empty_parents linked) disk
    × Refuses (write linked line) disk
    × Refuses (append linked line) disk
    × Ensures
        (λ _ _. ⊥)
        (λ _ s. s.1.nodes ≡ disk.nodes)
        (write_binary (codes "tmp") 7 linked (codes "x") (0, disk))
unfolding ancestor_dirs Map.get list_eq
symlink_refused_example =
    symlink_refused linked [] (codes "link") [] to_folder disk 9 7 0 (codes "tmp") line (codes "x")
      no_digest refl tt refl

list_files_under-AllListed_example :
    Ensures (λ r _. AllListed (codes "a") r) (λ _ _. Unit {0}) (list_files_under 9 (codes "a") disk)
    × ((relative : Text) (entries : List (Text × Node)) (listing : Listing)
        → OnTop listing.stack (list_entries relative entries listing).stack)
list_files_under-AllListed_example = list_files_under-AllListed (codes "a") 9 disk

log_folders : All (λ d. node_at disk d ≡ some folder) (ancestor_dirs log)
unfolding ancestor_dirs Map.get list_eq
log_folders = (refl, tt)

write_atomic_example :
    Ensures
      (λ _ d. (journal_bytes log d ≡ some (to_bytes line)) × Elsewhere log disk d)
      (λ _ d.
        ((journal_bytes log d ≡ journal_bytes log disk)
          ⊎ (journal_bytes log d ≡ some (to_bytes line)))
        × Elsewhere log disk d)
      (write log line disk)
write_atomic_example = write_atomic log disk line log_folders

append_grows_example :
    Ensures
      (λ _ d.
        (journal_bytes log d ≡ some (or_nothing (journal_bytes log disk) ++ to_bytes line))
        × Elsewhere log disk d)
      (λ _ d.
        ((journal_bytes log d ≡ journal_bytes log disk)
          ⊎ ((a : Bytes) × Part a (to_bytes line)
              × (journal_bytes log d ≡ some (or_nothing (journal_bytes log disk) ++ a))))
        × Elsewhere log disk d)
      (append log line disk)
append_grows_example = append_grows log disk line log_folders

-- The write is cut off behind its first byte: the journal is what it was.
interrupted : journal_bytes log (write log line disk).1 ≡ some (codes "old")
unfolding write resolve ensure_parent_dir make_ancestors no_symlink_in symlink_metadata
    recover_journal write_temporary drop_backup sync_parent create write_all sync_all rename
    remove_file Map.get Map.insert Map.remove ancestor_dirs list_eq
interrupted = refl

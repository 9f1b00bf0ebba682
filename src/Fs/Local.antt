-- ===== src/Fs/Local.antt =====
-- rust-client/src/fs.rs: `LocalFs`, the files of the vault's folder. `root.join(path)` is the path
-- itself on the model's disk, which is relative to the root.
use obsidian_sync_engine.Base.{
  Text, Bytes, codes, to_bytes, starts_with, contains_char, split, Bool, ◌||◌, Option, none, some,
  List, [], ◌∷◌, ◌++◌, if◌then◌else◌, ◌==◌, any, is_empty, length, ok, err, pure, fail, catch,
  ◌>>=◌, ◌>>◌, Result,
}
use mathlib.Core.List.{reverse}
use obsidian_sync_engine.Base.Tests.{nat_eq, list_eq}
use obsidian_sync_engine.Base.Utf8.{from_utf8}
use obsidian_sync_engine.Fs.{PathStat, to_hex}
use obsidian_sync_engine.Fs.Disk.{
  Node, file, folder, symlink, Sys, Kind, not_found, not_a_directory, invalid_input, other_kind,
  IoError, refuse, symlink_metadata, exists, is_dir,
}
use obsidian_sync_engine.Fs.Calls.{
  create, open_append, write_all, sync_all, rename, remove_file, remove_dir, remove_dir_all,
  create_dir, read_bytes,
}
use obsidian_sync_engine.Paths.{ancestor_dirs}

abbrev pub is_unsafe_segment : Text → Bool
is_unsafe_segment segment = is_empty segment || segment == codes "." || segment == codes ".."

unfoldable pub resolve : Text → Sys Text
resolve path =
    if is_empty path
      || starts_with (b'/' ∷ []) path
      || contains_char 0 path
      || any is_unsafe_segment (split b'/' path)
    then refuse invalid_input (codes "refusing unsafe vault path " ++ path)
    else pure path

-- An error counts as an absent file, or is passed on.
module _ {A : Type 0} where
  abbrev pub unless_missing : Sys A → Kind → IoError → Sys A
  unless_missing absent not_found error = absent
  unless_missing absent _ error = fail error

  abbrev pub unless_absent : Sys A → Kind → IoError → Sys A
  unless_absent absent not_found error = absent
  unless_absent absent not_a_directory error = absent
  unless_absent absent _ error = fail error

-- The arms of the `match` of `assert_no_symlinked_ancestor` on one folder: `later` is the rest of
-- the loop.
abbrev pub after_ancestor : Text → Sys (Unit {0}) → Result IoError Node → Sys (Unit {0})
after_ancestor dir later (ok (symlink target)) =
    refuse invalid_input (codes "refusing to traverse symlink " ++ dir)
after_ancestor dir later (ok node) = later
after_ancestor dir later (err error) = unless_absent (pure tt) error.kind error

unfoldable pub no_symlink_in : List Text → Sys (Unit {0})
no_symlink_in [] = pure tt
no_symlink_in (dir ∷ dirs) = do
  found ← catch (symlink_metadata dir)
  after_ancestor dir (no_symlink_in dirs) found

unfoldable pub assert_no_symlinked_ancestor : Text → Sys (Unit {0})
unfolding no_symlink_in
assert_no_symlinked_ancestor path = no_symlink_in (ancestor_dirs path)

-- `create_dir`, whose error does not count where the folder is there.
abbrev created : Text → Result IoError (Unit {0}) → Sys (Unit {0})
created dir (ok _) = pure tt
created dir (err error) = do there ← is_dir dir; if there then pure tt else fail error

unfoldable pub make_dir : Text → Sys (Unit {0})
make_dir dir = do result ← catch (create_dir dir); created dir result

-- The arms of the `match` of `ensure_parent_dir`, and what follows it in the loop's body.
abbrev pub make_ancestor : Text → Result IoError Node → Sys (Unit {0})
make_ancestor dir (ok folder) = pure tt
make_ancestor dir (ok (file content mode mtime_ns)) = do remove_file dir; make_dir dir
make_ancestor dir (ok node) = refuse invalid_input (dir ++ codes " is not a directory")
make_ancestor dir (err error) = unless_missing (make_dir dir) error.kind error

unfoldable pub make_ancestors : List Text → Sys (Unit {0})
make_ancestors [] = pure tt
make_ancestors (dir ∷ dirs) = do
  found ← catch (symlink_metadata dir)
  make_ancestor dir found
  make_ancestors dirs

unfoldable pub ensure_parent_dir : Text → Sys (Unit {0})
unfolding assert_no_symlinked_ancestor make_ancestors
ensure_parent_dir path = do assert_no_symlinked_ancestor path; make_ancestors (ancestor_dirs path)

abbrev pub backup_path : Text → Text
backup_path full = full ++ codes ".bak"

abbrev pub temporary_path : Text → Text
temporary_path full = full ++ codes ".tmp"

unfoldable pub recover_journal : Text → Sys (Unit {0})
recover_journal full = do
  there ← exists full
  if there then pure tt else do
    saved ← exists (backup_path full)
    if saved then rename (backup_path full) full else pure tt

unfoldable pub sync_parent : Text → Sys (Unit {0})
sync_parent full = sync_all full

-- The scoped block of `write`.
unfoldable pub write_temporary : Text → Text → Sys (Unit {0})
write_temporary tmp text = do create tmp; write_all tmp (to_bytes text); sync_all tmp

unfoldable pub drop_backup : Text → Sys (Unit {0})
drop_backup full = do
  saved ← exists (backup_path full)
  if saved then remove_file (backup_path full) else pure tt

unfoldable pub write : Text → Text → Sys (Unit {0})
unfolding resolve ensure_parent_dir recover_journal write_temporary drop_backup sync_parent
write path text = do
  full ← resolve path
  ensure_parent_dir path
  recover_journal full
  write_temporary (temporary_path full) text
  rename (temporary_path full) full
  drop_backup full
  sync_parent full

unfoldable pub append : Text → Text → Sys (Unit {0})
unfolding resolve ensure_parent_dir recover_journal
append path text = do
  full ← resolve path
  ensure_parent_dir path
  recover_journal full
  open_append full
  write_all full (to_bytes text)
  sync_all full

unfoldable pub exists_journal : Text → Sys Bool
unfolding resolve
exists_journal path = do
  full ← resolve path
  there ← exists full
  saved ← exists (backup_path full)
  pure (there || saved)

-- The arms of the `match` of `stat`.
abbrev pub stat_of : Result IoError Node → Sys (Option PathStat)
stat_of (ok (file content mode mtime_ns)) = pure (some (PathStat.file (length content) mtime_ns))
stat_of (ok folder) = pure (some PathStat.dir)
stat_of (ok node) = pure (some PathStat.other)
stat_of (err error) = unless_absent (pure none) error.kind error

unfoldable pub stat : Text → Sys (Option PathStat)
unfolding resolve assert_no_symlinked_ancestor
stat path = do
  full ← resolve path
  assert_no_symlinked_ancestor path
  found ← catch (symlink_metadata full)
  stat_of found

unfoldable pub read_binary : Text → Sys Bytes
unfolding resolve assert_no_symlinked_ancestor
read_binary path = do assert_no_symlinked_ancestor path; full ← resolve path; read_bytes full

-- `read_to_string`, which refuses bytes that are not UTF-8.
abbrev decoded : Text → Option Text → Sys Text
decoded path none = refuse other_kind (codes "stream did not contain valid UTF-8")
decoded path (some text) = pure text

unfoldable pub read : Text → Sys Text
unfolding resolve recover_journal from_utf8
read path = do
  full ← resolve path
  recover_journal full
  bytes ← read_bytes full
  decoded full (from_utf8 bytes)

unfoldable pub hash_file : (Bytes → Bytes) → Text → Sys Text
unfolding resolve assert_no_symlinked_ancestor to_hex
hash_file digest path = do
  assert_no_symlinked_ancestor path
  full ← resolve path
  bytes ← read_bytes full
  pure (to_hex (digest bytes))

-- The arms of the `match` of `remove`.
abbrev pub remove_node : Text → Result IoError Node → Sys (Unit {0})
remove_node full (ok folder) = remove_dir_all full
remove_node full (ok node) = remove_file full
remove_node full (err error) = unless_absent (pure tt) error.kind error

unfoldable pub remove : Text → Sys (Unit {0})
unfolding resolve assert_no_symlinked_ancestor
remove path = do
  assert_no_symlinked_ancestor path
  full ← resolve path
  found ← catch (symlink_metadata full)
  remove_node full found

abbrev unless_in_use : Sys (Unit {0}) → Kind → Sys (Unit {0})
unless_in_use later not_found = later
unless_in_use later _ = pure tt

-- One round of the loop of `prune_empty_parents`: `later` is the rest of it.
abbrev pub after_prune : Sys (Unit {0}) → Result IoError (Unit {0}) → Sys (Unit {0})
after_prune later (ok _) = later
after_prune later (err error) = unless_in_use later error.kind

unfoldable pub prune_each : List Text → Sys (Unit {0})
unfolding resolve
prune_each [] = pure tt
prune_each (dir ∷ dirs) = do
  full ← resolve dir
  result ← catch (remove_dir full)
  after_prune (prune_each dirs) result

unfoldable pub prune_empty_parents : Text → Sys (Unit {0})
unfolding assert_no_symlinked_ancestor prune_each
prune_empty_parents path = do
  assert_no_symlinked_ancestor path
  prune_each (reverse (ancestor_dirs path))

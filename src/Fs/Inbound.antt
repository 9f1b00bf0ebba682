-- ===== src/Fs/Inbound.antt =====
-- rust-client/src/fs.rs: `LocalFs` on whole files of the vault: an inbound file takes its place in
-- one step, and the files of a folder are listed.
use obsidian_sync_engine.Base.{
  ℕ, zero, suc, ◌+◌, ◌%◌, ◌^◌, Text, Bytes, codes, to_decimal, text_ltb, Option, none, some, List,
  [], ◌∷◌, ◌++◌, if◌then◌else◌, ◌==◌, is_empty, ok, err, pure, fail, catch, ◌>>=◌, ◌>>◌, on_world,
  gets, update, Result, Exec,
}
use obsidian_sync_engine.Base.Tests.{nat_eq, list_eq}
use obsidian_sync_engine.Fs.Disk.{
  Disk, Node, file, folder, Sys, invalid_input, IoError, io_error, refuse, symlink_metadata,
}
use obsidian_sync_engine.Fs.Calls.{
  create, write_all, sync_all, set_permissions, rename, remove_file, remove_dir, create_dir_all,
  read_dir,
}
use obsidian_sync_engine.Fs.Local.{
  resolve, assert_no_symlinked_ancestor, ensure_parent_dir, sync_parent, unless_missing,
}
use obsidian_sync_engine.Paths.{client_data_path, join, is_sync_excluded_path}

-- `map_err` of the message.
abbrev relabelled : Text → Result IoError (Unit {0}) → Sys (Unit {0})
relabelled message (ok _) = pure tt
relabelled message (err error) = fail (io_error error.kind (message ++ error.message))

-- The `match` on what is at the path: the mode to keep.
abbrev pub make_way : Text → Text → Result IoError Node → Sys (Option ℕ)
make_way path full (ok folder) = do
  removed ← catch (remove_dir full)
  relabelled (codes "Cannot replace non-empty folder " ++ path) removed
  pure none
make_way path full (ok (file content mode mtime_ns)) = pure (some mode)
make_way path full (ok node) = pure none
make_way path full (err error) = pure none

-- 0o600
abbrev private_mode : ℕ
private_mode = 384

abbrev mode_or_private : Option ℕ → ℕ
mode_or_private none = private_mode
mode_or_private (some mode) = mode

-- The closure of `write_binary`.
unfoldable pub stage : Text → Text → Option ℕ → Bytes → Sys (Unit {0})
unfolding sync_parent
stage temp full mode bytes = do
  create temp
  write_all temp bytes
  set_permissions temp (mode_or_private mode)
  sync_all temp
  rename temp full
  sync_parent full

-- A failure takes the temporary file with it, if that can be removed.
abbrev pub clean_up : Text → Result IoError (Unit {0}) → Sys (Unit {0})
clean_up temp (ok _) = pure tt
clean_up temp (err error) = do ignored ← catch (remove_file temp); fail error

abbrev u64_mod : ℕ
u64_mod = 2 ^ 64

-- The counter of `LocalFs` stands beside the disk.
module _ (temp_dir : Text) (pid : ℕ) where
  abbrev pub temp_path : ℕ → Text
  unfolding to_decimal
  temp_path n = join temp_dir (codes "inbound-" ++ (to_decimal pid ++ (codes "-" ++ to_decimal n)))

  unfoldable pub write_binary : Text → Bytes → Exec IoError (ℕ × Disk) (Unit {0})
  unfolding resolve ensure_parent_dir stage to_decimal list_eq
  write_binary path bytes =
      if path == client_data_path
      then on_world (refuse invalid_input (codes "refusing to overwrite client credentials"))
      else do
        full ← on_world (resolve path)
        on_world (ensure_parent_dir path)
        found ← on_world (catch (symlink_metadata full))
        mode ← on_world (make_way path full found)
        on_world (create_dir_all temp_dir)
        n ← gets (λ (n : ℕ). n)
        update (λ n. (n + 1) % u64_mod)
        result ← on_world (catch (stage (temp_path n) full mode bytes))
        on_world (clean_up (temp_path n) result)

-- The stack of folders, its top first, and the files found.
pub record Listing : Type 0 where
  pub stack : List Text
  pub files : List Text

abbrev pub child_of : Text → Text → Text
child_of relative name = if is_empty relative then name else join relative name

abbrev pub listed_as : Text → Node → Listing → Listing
listed_as child folder listing = record listing { stack = child ∷ listing.stack }
listed_as child (file content mode mtime_ns) listing = record listing {
  files = listing.files ++ (child ∷ []);
}
listed_as child _ listing = listing

-- The loop over the entries of a folder.
unfoldable pub list_entries : Text → List (Text × Node) → Listing → Listing
unfolding is_sync_excluded_path
list_entries relative [] listing = listing
list_entries relative ((name, node) ∷ entries) listing =
    let child : Text = child_of relative name in
    list_entries relative entries
      (if is_sync_excluded_path child then listing else listed_as child node listing)

-- What `read_dir` returned: a folder that is gone has no entries.
abbrev pub entries_or_none : Result IoError (List (Text × Node)) → Sys (List (Text × Node))
entries_or_none (ok entries) = pure entries
entries_or_none (err error) = unless_missing (pure []) error.kind error

-- The `while let`, with fuel for its rounds; none where it is still running.
unfoldable pub list_stack : ℕ → List Text → List Text → Sys (Option (List Text))
unfolding list_entries
list_stack fuel [] files = pure (some files)
list_stack zero (relative ∷ stack) files = pure none
list_stack (suc fuel) (relative ∷ stack) files = do
  result ← catch (read_dir relative)
  entries ← entries_or_none result
  let listing : Listing = list_entries relative entries (record { stack = stack; files = files })
  list_stack fuel listing.stack listing.files

abbrev pub insert_sorted : Text → List Text → List Text
insert_sorted path [] = path ∷ []
insert_sorted path (q ∷ paths) =
    let later = insert_sorted path paths in if text_ltb q path then q ∷ later else path ∷ q ∷ paths

-- `files.sort()`
abbrev pub sort : List Text → List Text
sort [] = []
sort (path ∷ paths) = insert_sorted path (sort paths)

abbrev pub sorted_files : Option (List Text) → Option (List Text)
sorted_files none = none
sorted_files (some files) = some (sort files)

unfoldable pub check_prefix : Text → Sys (Unit {0})
unfolding resolve assert_no_symlinked_ancestor
check_prefix prefix =
    if is_empty prefix
    then pure tt
    else do assert_no_symlinked_ancestor prefix; resolve prefix; pure tt

unfoldable pub list_files_under : ℕ → Text → Sys (Option (List Text))
unfolding check_prefix list_stack
list_files_under fuel prefix = do
  check_prefix prefix
  files ← list_stack fuel (prefix ∷ []) []
  pure (sorted_files files)

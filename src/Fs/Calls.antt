-- ===== src/Fs/Calls.antt =====
-- What rust-client/src/fs.rs uses of `std::fs`: the calls that read and change the disk, each of
-- which can fail and change nothing, unless it is said here what it leaves.
use obsidian_sync_engine.Base.{
  ℕ, zero, suc, Text, Bytes, starts_with, contains_char, Bool, true, false, ◌&&◌, ◌||◌, Option,
  none, some, List, [], ◌∷◌, ◌++◌, if◌then◌else◌, ◌==◌, any, TextMap, ok, pure, ◌>>=◌, for_each,
}
use obsidian_sync_engine.Base.Tests.{nat_eq, list_eq}
use obsidian_sync_engine.Base.Map
use obsidian_sync_engine.Paths.{join, ancestor_dirs}
use obsidian_sync_engine.Fs.Disk.{
  Disk, Node, file, folder, symlink, nothing, to_file, Sys, not_a_directory, other_kind, node_at,
  bytes_of, put_node, drop_node, call, call_leaving, refuse, missing_kind, has_parent, is_dir,
}

-- The mode of a new file.
abbrev new_mode : ℕ
new_mode = 420

abbrev pub new_file : Disk → Node
new_file disk = file [] new_mode disk.clock

abbrev pub no_node : {A : Type 0} → Text → Sys A
no_node path disk = refuse (missing_kind disk path) path disk

-- What opening for writing makes of a node: `emptied` says whether the bytes go.
abbrev pub opened : Bool → Text → Option Node → Sys (Unit {0})
opened emptied path (some (file content mode mtime_ns)) disk =
    (ok tt, if emptied then put_node path (file [] mode disk.clock) disk else disk)
opened emptied path (some (symlink (to_file content))) disk =
    (ok tt, if emptied then put_node path (symlink (to_file [])) disk else disk)
opened emptied path (some (symlink nothing)) disk =
    (ok tt, put_node path (symlink (to_file [])) disk)
opened emptied path (some node) disk = refuse other_kind path disk
opened emptied path none disk =
    if has_parent disk path then (ok tt, put_node path (new_file disk) disk) else no_node path disk

-- `File::create`
unfoldable pub create : Text → Sys (Unit {0})
create path = call (λ disk. opened true path (node_at disk path) disk)

-- `OpenOptions::new().create(true).append(true).open`
unfoldable pub open_append : Text → Sys (Unit {0})
open_append path = call (λ disk. opened false path (node_at disk path) disk)

abbrev pub take : ℕ → Bytes → Bytes
take zero bytes = []
take (suc n) [] = []
take (suc n) (b ∷ bytes) = b ∷ take n bytes

-- The bytes go to the end of the open file.
abbrev pub extended : Text → Bytes → Option Node → Disk → Disk
extended path bytes (some (file content mode mtime_ns)) disk =
    put_node path (file (content ++ bytes) mode disk.clock) disk
extended path bytes (some (symlink (to_file content))) disk =
    put_node path (symlink (to_file (content ++ bytes))) disk
extended path bytes _ disk = disk

-- `write_all` on an open file: where it fails, a part of the bytes is written.
unfoldable pub write_all : Text → Bytes → Sys (Unit {0})
write_all path bytes =
    call_leaving (λ fault disk. extended path (take fault.written bytes) (node_at disk path) disk)
      (λ disk. (ok tt, extended path bytes (node_at disk path) disk))

-- `sync_all`, and the opening of a folder for it.
unfoldable pub sync_all : Text → Sys (Unit {0})
sync_all path = call (pure tt)

abbrev pub with_mode : Text → ℕ → Option Node → Disk → Disk
with_mode path mode (some (file content old mtime_ns)) disk =
    put_node path (file content mode mtime_ns) disk
with_mode path mode _ disk = disk

unfoldable pub set_permissions : Text → ℕ → Sys (Unit {0})
set_permissions path mode = call (λ disk. (ok tt, with_mode path mode (node_at disk path) disk))

abbrev pub is_folder : Option Node → Bool
is_folder (some folder) = true
is_folder _ = false

abbrev pub moved : Text → Text → Option Node → Sys (Unit {0})
moved from path none disk = no_node from disk
moved from path (some folder) disk = refuse other_kind from disk
moved from path (some node) disk =
    if is_folder (node_at disk path)
    then refuse other_kind path disk
    else if has_parent disk path
    then (ok tt, put_node path node (drop_node from disk))
    else no_node path disk

-- `fs::rename`, which replaces what is at the new path in one step.
unfoldable pub rename : Text → Text → Sys (Unit {0})
rename from path = call (λ disk. moved from path (node_at disk from) disk)

abbrev pub file_removed : Text → Option Node → Sys (Unit {0})
file_removed path none disk = no_node path disk
file_removed path (some folder) disk = refuse other_kind path disk
file_removed path (some node) disk = (ok tt, drop_node path disk)

unfoldable pub remove_file : Text → Sys (Unit {0})
remove_file path = call (λ disk. file_removed path (node_at disk path) disk)

abbrev is_below : Text → Text → Bool
is_below dir path = starts_with (join dir []) path

abbrev dir_removed : Text → Option Node → Sys (Unit {0})
dir_removed path none disk = no_node path disk
dir_removed path (some folder) disk =
    if any (is_below path) (Map.keys disk.nodes)
    then refuse other_kind path disk
    else (ok tt, drop_node path disk)
dir_removed path (some node) disk = refuse not_a_directory path disk

-- `fs::remove_dir`, which removes an empty folder.
unfoldable pub remove_dir : Text → Sys (Unit {0})
remove_dir path = call (λ disk. dir_removed path (node_at disk path) disk)

-- The nodes without those at or below a folder that the test picks.
abbrev without : Text → (Text → Bool) → TextMap Node → TextMap Node
without dir picked [] = []
without dir picked ((path, node) ∷ nodes) =
    let rest = without dir picked nodes in
    if (path == dir || is_below dir path) && picked path then rest else (path, node) ∷ rest

-- `fs::remove_dir_all`: where it fails, a part of the tree is removed.
unfoldable pub remove_dir_all : Text → Sys (Unit {0})
remove_dir_all path =
    call_leaving (λ fault disk. record disk { nodes = without path fault.removed disk.nodes })
      (λ disk. (ok tt, record disk { nodes = without path (λ _. true) disk.nodes }))

abbrev dir_created : Text → Option Node → Sys (Unit {0})
dir_created path (some node) disk = refuse other_kind path disk
dir_created path none disk =
    if has_parent disk path then (ok tt, put_node path folder disk) else no_node path disk

unfoldable pub create_dir : Text → Sys (Unit {0})
create_dir path = call (λ disk. dir_created path (node_at disk path) disk)

abbrev create_missing : Text → Sys (Unit {0})
unfolding create_dir
create_missing path = do there ← is_dir path; if there then pure tt else create_dir path

unfoldable pub create_dir_all : Text → Sys (Unit {0})
unfolding create_dir for_each
create_dir_all path = for_each (ancestor_dirs path ++ (path ∷ [])) create_missing

abbrev pub content_read : Text → Option Node → Option Bytes → Sys Bytes
content_read path _ (some bytes) disk = (ok bytes, disk)
content_read path none none disk = no_node path disk
content_read path (some node) none disk = refuse other_kind path disk

-- `fs::read`, and an open file read to its end.
unfoldable pub read_bytes : Text → Sys Bytes
read_bytes path =
    call (λ disk. content_read path (node_at disk path) (bytes_of (node_at disk path)) disk)

-- The name of an entry of a folder: a path below it with no folder between.
abbrev entry_name : Text → Text → Option Text
entry_name [] [] = none
entry_name [] (c ∷ cs) = if contains_char b'/' (c ∷ cs) then none else some (c ∷ cs)
entry_name (d ∷ dir) [] = none
entry_name (d ∷ dir) (c ∷ path) = let rest = entry_name dir path in if d == c then rest else none

abbrev prefix_of : Text → Text
prefix_of [] = []
prefix_of (c ∷ dir) = join (c ∷ dir) []

abbrev listed : Option Text → Node → List (Text × Node) → List (Text × Node)
listed none node entries = entries
listed (some name) node entries = (name, node) ∷ entries

abbrev entries_of : Text → TextMap Node → List (Text × Node)
entries_of dir [] = []
entries_of dir ((path, node) ∷ nodes) =
    listed (entry_name (prefix_of dir) path) node (entries_of dir nodes)

abbrev dir_read : Text → Option Node → Sys (List (Text × Node))
dir_read [] _ disk = (ok (entries_of [] disk.nodes), disk)
dir_read (c ∷ dir) (some folder) disk = (ok (entries_of (c ∷ dir) disk.nodes), disk)
dir_read (c ∷ dir) none disk = no_node (c ∷ dir) disk
dir_read (c ∷ dir) (some node) disk = refuse not_a_directory (c ∷ dir) disk

-- `fs::read_dir`: the entries with their types.
unfoldable pub read_dir : Text → Sys (List (Text × Node))
read_dir dir = call (λ disk. dir_read dir (node_at disk dir) disk)

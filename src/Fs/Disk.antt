-- ===== src/Fs/Disk.antt =====
-- What rust-client/src/fs.rs uses of `std::fs`, on the vault's disk. A path is relative to the
-- vault's root, which is a folder. Names that are not UTF-8, and what lies behind a symlink to a
-- folder, are not on this disk. Any call but a test for existence can fail, as `faults` says: a
-- write then leaves a part of its bytes, and a recursive removal a part of the tree. A folder is
-- not renamed: only files are, here.
use obsidian_sync_engine.Base.{
  ℕ, ℤ, Text, Bytes, codes, Bool, true, false, Option, none, some, List, [], ◌∷◌, if◌then◌else◌,
  any, TextMap, ok, err, fail, Exec,
}
use obsidian_sync_engine.Base.Tests.{nat_eq, list_eq}
use obsidian_sync_engine.Base.Map
use obsidian_sync_engine.Paths.{ancestor_dirs}

-- What a symlink leads to.
pub data Target : Type 0 where
  nothing to_folder : Target
  to_file : Bytes → Target

pub data Node : Type 0 where
  file : (content : Bytes) (mode : ℕ) (mtime_ns : ℤ) → Node
  folder special : Node
  symlink : Target → Node

-- How a call fails: the bytes that a write leaves, and what a recursive removal takes.
pub record Fault : Type 0 where
  pub written : ℕ
  pub removed : Text → Bool

pub record Disk : Type 0 where
  pub nodes : TextMap Node
  pub clock : ℤ
  pub faults : List (Option Fault)

-- `io::ErrorKind`, as far as it is looked at.
pub data Kind : Type 0 where
  not_found not_a_directory invalid_input other_kind : Kind

pub record IoError : Type 0 where
  pub kind : Kind
  pub message : Text

abbrev pub Sys : Type 0 → Type 0
Sys A = Exec IoError Disk A

abbrev pub io_error : Kind → Text → IoError
io_error kind message = record { kind = kind; message = message }

abbrev pub node_at : Disk → Text → Option Node
node_at disk path = Map.get path disk.nodes

-- The bytes that are read at a path.
abbrev pub bytes_of : Option Node → Option Bytes
bytes_of (some (file content mode mtime_ns)) = some content
bytes_of (some (symlink (to_file content))) = some content
bytes_of _ = none

abbrev pub put_node : Text → Node → Disk → Disk
put_node path node disk = record disk { nodes = Map.insert path node disk.nodes }

abbrev pub drop_node : Text → Disk → Disk
drop_node path disk = record disk { nodes = Map.remove path disk.nodes }

-- The next fault is used up.
abbrev pub rest_of : List (Option Fault) → List (Option Fault)
rest_of [] = []
rest_of (fault ∷ faults) = faults

abbrev pub next_of : List (Option Fault) → Option Fault
next_of [] = none
next_of (fault ∷ faults) = fault

abbrev pub ticked : Disk → Disk
ticked disk = record disk { faults = rest_of disk.faults }

module _ {A : Type 0} where
  abbrev pub failing : Option Fault → (Fault → Disk → Disk) → Sys A → Sys A
  failing none left action disk = action disk
  failing (some fault) left action disk =
      (err (io_error other_kind (codes "input/output error")), left fault disk)

  -- A system call: what it does, and what it leaves where it fails.
  abbrev pub call_leaving : (Fault → Disk → Disk) → Sys A → Sys A
  call_leaving left action disk = failing (next_of disk.faults) left action (ticked disk)

  abbrev pub call : Sys A → Sys A
  call = call_leaving (λ fault disk. disk)

  abbrev pub refuse : Kind → Text → Sys A
  refuse kind message = fail (io_error kind message)

abbrev pub is_in_the_way : Option Node → Bool
is_in_the_way (some (file content mode mtime_ns)) = true
is_in_the_way (some special) = true
is_in_the_way _ = false

-- The error for a path without a node.
abbrev pub missing_kind : Disk → Text → Kind
missing_kind disk path =
    if any (λ dir. is_in_the_way (node_at disk dir)) (ancestor_dirs path)
    then not_a_directory
    else not_found

abbrev pub found : Text → Option Node → Sys Node
found path (some node) disk = (ok node, disk)
found path none disk = refuse (missing_kind disk path) path disk

-- `fs::symlink_metadata`
unfoldable pub symlink_metadata : Text → Sys Node
symlink_metadata path = call (λ disk. found path (node_at disk path) disk)

-- `Path::exists`, which follows a symlink.
abbrev pub is_there : Option Node → Bool
is_there none = false
is_there (some (symlink nothing)) = false
is_there (some node) = true

abbrev pub exists : Text → Sys Bool
exists path disk = (ok (is_there (node_at disk path)), disk)

-- `Path::is_dir`, which follows a symlink.
abbrev leads_to_folder : Option Node → Bool
leads_to_folder (some folder) = true
leads_to_folder (some (symlink to_folder)) = true
leads_to_folder _ = false

abbrev pub is_dir : Text → Sys Bool
is_dir path disk = (ok (leads_to_folder (node_at disk path)), disk)

abbrev last_ancestor : List Text → Option Text
last_ancestor [] = none
last_ancestor (dir ∷ []) = some dir
last_ancestor (dir ∷ next ∷ dirs) = last_ancestor (next ∷ dirs)

-- A node can be made at the path: its parent is a folder.
abbrev in_folder : Disk → Option Text → Bool
in_folder disk none = true
in_folder disk (some dir) = leads_to_folder (node_at disk dir)

abbrev pub has_parent : Disk → Text → Bool
has_parent disk path = in_folder disk (last_ancestor (ancestor_dirs path))

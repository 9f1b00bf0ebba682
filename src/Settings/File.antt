-- ===== src/Settings/File.antt =====
-- rust-client/src/settings.rs: `data.json` on the vault's disk, as it is read and replaced by
-- `std::fs`. The disk keeps no mode of a folder or behind a symlink, which is taken to be 0o600, and
-- the mode that a new temporary file has until its mode is set is that of `create`.
use obsidian_sync_engine.Base.{
  ℕ, ◌%◌, Text, codes, to_bytes, Option, none, some, [], ◌++◌, Result, ok, err, pure, catch, ◌>>=◌,
  ◌>>◌,
}
use obsidian_sync_engine.Base.Utf8.{from_utf8}
use obsidian_sync_engine.Error.{Error, Any, other}
use obsidian_sync_engine.Fs.Disk.{
  Disk, Node, file, IoError, Sys, refuse, other_kind, symlink_metadata,
}
use obsidian_sync_engine.Fs.Calls.{create, write_all, set_permissions, sync_all, rename, read_bytes}
use obsidian_sync_engine.Fs.Local.{sync_parent}
use obsidian_sync_engine.Paths.{join, client_data_path}
use obsidian_sync_engine.Settings.{Files}

module _ {A : Type 0} where
  abbrev pub labelled : Text → Result IoError A × Disk → Result Error A × Disk
  labelled label (ok a, d) = (ok a, d)
  labelled label (err e, d) = (err (other (label ++ e.message)), d)

  -- `?`, with the label that a context puts in front of the error.
  abbrev pub sys : Text → Sys A → Any Disk A
  sys label m d = labelled label (m d)

abbrev pub temporary : Text
temporary = client_data_path ++ codes ".rust-tmp"

-- `m.permissions().mode() & 0o777`, or 0o600.
abbrev pub mode_kept : Result IoError Node → ℕ
mode_kept (ok (file content mode mtime_ns)) = mode % 512
mode_kept _ = 384

abbrev pub text_of : Option Text → Sys Text
text_of none = refuse other_kind (codes "stream did not contain valid UTF-8")
text_of (some text) = pure text

module _ (vault : Text) where
  abbrev pub context : Text → Text → Text
  context action path = action ++ (join vault path ++ codes ": ")

  -- `fs::read_to_string`, with its context.
  unfoldable pub read_data : Any Disk Text
  unfolding from_utf8
  read_data = do
    bytes ← sys (context (codes "reading ") client_data_path) (read_bytes client_data_path)
    sys (context (codes "reading ") client_data_path) (text_of (from_utf8 bytes))

  -- `write_object` from the mode on.
  unfoldable pub replace_data : Text → Any Disk (Unit {0})
  unfolding sync_parent
  replace_data body = do
    found ← catch (symlink_metadata client_data_path)
    sys (context (codes "writing ") temporary) (create temporary)
    sys [] (write_all temporary (to_bytes body))
    sys [] (set_permissions temporary (mode_kept found))
    sys [] (sync_all temporary)
    sys (context (codes "replacing ") client_data_path) (rename temporary client_data_path)
    sys [] (sync_parent client_data_path)

  abbrev pub data_files : Files Disk
  data_files = record { read = read_data; replace = replace_data }

-- ===== src/Cli/Verify.antt =====
-- rust-client/src/cli.rs: `verify`, over a disk and a server that are given. What is printed goes
-- through the parameter `println`.
use obsidian_sync_engine.Base.{
  ℕ, zero, suc, Text, Bytes, codes, to_decimal, Bool, true, false, not, ◌&&◌, Option, none, some,
  List, [], ◌∷◌, ◌++◌, ◌-◌, ltb, if◌then◌else◌, ◌==◌, Result, ok, err, pure, fail, ◌>>=◌, ◌>>◌,
  catch, TextMap, length, filter, is_empty, for_each,
}
use obsidian_sync_engine.Base.Tests.{nat_eq, list_eq}
use obsidian_sync_engine.Base.Map
use obsidian_sync_engine.Base.Map.{insert, contains_key}
use obsidian_sync_engine.Error.{Error, Any, io, other, is_remote_file_not_found}
use obsidian_sync_engine.Fs.{SyncFs, PathStat, sha256_hex}
use obsidian_sync_engine.Op.{OpKind, InboxOp, as_str, op_eq}
use obsidian_sync_engine.Paths.{is_watched_path}
use obsidian_sync_engine.Engine.State.{Transport}

-- The local variables of `verify_all` that its loop fills.
pub record Compared : Type 0 where
  pub missing : List Text
  pub different : List Text

abbrev pub nothing_found : Compared
nothing_found = record { missing = []; different = [] }

abbrev pub is_put : InboxOp → Bool
is_put op = op.op == OpKind.put

abbrev pub add_live : TextMap ℕ → InboxOp → TextMap ℕ
add_live m op = if is_put op then insert op.path op.rev m else m

unfoldable pub live_from : TextMap ℕ → List InboxOp → TextMap ℕ
unfolding insert
live_from m [] = m
live_from m (op ∷ ops) = live_from (add_live m op) ops

-- `last().map_or(...)`
abbrev pub tip_of : ℕ → List InboxOp → ℕ
tip_of revision [] = revision
tip_of revision (op ∷ ops) = tip_of op.rev ops

-- `take(40)`
abbrev pub first_of {ℓ} : {A : Type ℓ} → ℕ → List A → List A
first_of zero items = []
first_of (suc n) [] = []
first_of (suc n) (item ∷ items) = item ∷ first_of n items

-- The watched files of the disk that the server does not list.
unfoldable pub only_local : TextMap ℕ → List Text → List Text
only_local live = filter (λ path. is_watched_path path && not (contains_key path live))

abbrev pub path_op : Text → List InboxOp → Option InboxOp
path_op path [] = none
path_op path (op ∷ ops) = let later = path_op path ops in if op.path == path then some op else later

abbrev line_text : Option InboxOp → Text
line_text (some op) =
    codes "server line:     " ++ (as_str op.op ++ (codes " at revision " ++ to_decimal op.rev))
line_text none = codes "server line:     none"

abbrev local_text : Option Text → Text
local_text (some hash) = codes "local copy:      sha256 " ++ hash
local_text none = codes "local copy:      absent"

abbrev pub bool_text : Bool → Text
bool_text true = codes "true"
bool_text false = codes "false"

abbrev pub differs : Compared → Text → Compared
differs c path = record c { different = c.different ++ (path ∷ []) }

abbrev pub lacks : Compared → Text → Compared
lacks c path = record c { missing = c.missing ++ (path ∷ []) }

abbrev remote_text : (Bytes → Bytes) → Option Bytes → Text
remote_text digest (some bytes) =
    codes "server copy:     "
    ++ (to_decimal (length bytes) ++ (codes " bytes, sha256 " ++ sha256_hex digest bytes))
remote_text digest none = codes "server copy:     absent"

-- `local == remote.as_deref().map(sha256_hex)`
abbrev pub same : (Bytes → Bytes) → Option Text → Option Bytes → Bool
same digest none none = true
same digest (some hash) (some bytes) = hash == sha256_hex digest bytes
same digest _ _ = false

module _ {W : Type 0} (println : Text → W → W) where
  abbrev pub say : Text → Any W (Unit {0})
  say text w = (ok tt, println text w)

  abbrev pub say_number : Text → ℕ → Any W (Unit {0})
  say_number label n = say (label ++ to_decimal n)

  abbrev pub more_than : ℕ → Any W (Unit {0})
  more_than n =
      if ltb 40 n
      then say (codes "  ... and " ++ (to_decimal (n - 40) ++ codes " more"))
      else pure tt

  -- The closure `report`.
  unfoldable pub report : Text → List Text → Any W (Unit {0})
  unfolding for_each to_decimal
  report label paths = do
    say_number (label ++ (b' ' ∷ [])) (length paths)
    for_each (first_of 40 paths) (λ path. say (codes "  " ++ path))
    more_than (length paths)

  -- What is printed, and the result.
  unfoldable pub conclude : List InboxOp → TextMap ℕ → Compared → List Text → Any W (Unit {0})
  unfolding report to_decimal
  conclude ops live c extra = do
    say_number (codes "server tip:      ") (tip_of 0 ops)
    say_number (codes "server files:    ") (length live)
    say_number (codes "tombstones:      ") (length ops - length live)
    say_number (codes "byte-identical:  ") (length live - length c.missing - length c.different)
    report (codes "missing on disk:") c.missing
    report (codes "differ on disk: ") c.different
    report (codes "only on disk:   ") extra
    if is_empty c.missing && is_empty c.different
        then pure tt
        else fail (other (codes "disk and server differ"))

module _ {W : Type 0} (digest : Bytes → Bytes) (fs : SyncFs W) (transport : Transport W) where
  abbrev pub described : Text → Option PathStat → Any W (Option Text)
  described path (some (PathStat.file size mtime_ns)) = do
    hash ← io (fs.hash_file path)
    pure (some hash)
  described path _ = pure none

  unfoldable pub describe_local : Text → Any W (Option Text)
  describe_local path = do stat ← io (fs.stat path); described path stat

  abbrev optional : Result Error Bytes → Any W (Option Bytes)
  optional (ok bytes) = pure (some bytes)
  optional (err e) = if is_remote_file_not_found e then pure none else fail e

  -- The `match` on the download of a path whose file has this hash.
  unfoldable pub compare_download : Compared → Text → Text → Result Error Bytes → Any W Compared
  unfolding sha256_hex
  compare_download c path hash (ok bytes) =
      if sha256_hex digest bytes == hash then pure c else pure (differs c path)
  compare_download c path hash (err e) =
      if is_remote_file_not_found e
      then pure (differs c (path ++ codes " (deleted on server since listing)"))
      else fail e

  unfoldable pub compare_local : Compared → Text → Option Text → Any W Compared
  unfolding compare_download
  compare_local c path none = pure (lacks c path)
  compare_local c path (some hash) = do
    download ← catch (transport.download path)
    compare_download c path hash download

  -- The loop of `verify_all`.
  unfoldable pub compare_each : Compared → List Text → Any W Compared
  unfolding describe_local compare_local
  compare_each c [] = pure c
  compare_each c (path ∷ paths) = do
    local ← describe_local path
    c' ← compare_local c path local
    compare_each c' paths

  module _ (println : Text → W → W) where
    unfoldable pub verify_one : Text → Any W (Unit {0})
    unfolding describe_local to_decimal sha256_hex
    verify_one path = do
      local ← describe_local path
      download ← catch (transport.download path)
      remote ← optional download
      ops ← transport.fetch_inbox 0
      say println (codes "path:            " ++ path)
      say println (line_text (path_op path ops))
      say println (remote_text digest remote)
      say println (local_text local)
      say println (codes "in sync:         " ++ bool_text (same digest local remote))
      if same digest local remote
          then pure tt
          else fail (other (path ++ codes " differs between disk and server"))

    -- `verify_all` from the operations of the log on.
    unfoldable pub verify_ops : List InboxOp → Any W (Unit {0})
    unfolding live_from compare_each only_local conclude
    verify_ops ops = do
      let live : TextMap ℕ = live_from [] ops
      c ← compare_each nothing_found (Map.keys live)
      paths ← io (fs.list_files_under [])
      conclude println ops live c (only_local live paths)

    unfoldable pub verify_all : Any W (Unit {0})
    unfolding verify_ops
    verify_all = do ops ← transport.fetch_inbox 0; verify_ops ops

    unfoldable pub verify_path : Option Text → Any W (Unit {0})
    unfolding verify_one verify_all
    verify_path (some path) = verify_one path
    verify_path none = verify_all

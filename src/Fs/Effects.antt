-- ===== src/Fs/Effects.antt =====
-- What the calls of `std::fs` that rust-client/src/fs.rs makes leave at each path of the disk.
use mathlib.Core.List.{[]}
use obsidian_sync_engine.Base.{
  ℕ, Text, Bytes, ◌≡◌, ◌≢◌, refl, ap, ◌∙◌, Bool, true, false, ◌++◌, Option, none, some,
  if◌then◌else◌, ◌==◌, Bool-cases, inl, inr, ok, Ensures,
}
use obsidian_sync_engine.Base.Tests.{nat_eq, list_eq}
use obsidian_sync_engine.Base.Map
use obsidian_sync_engine.Fs.Disk.{
  Disk, Node, file, folder, special, symlink, nothing, to_folder, to_file, IoError, node_at,
  bytes_of, put_node, drop_node, ticked, has_parent, refuse, other_kind,
}
use obsidian_sync_engine.Fs.Calls.{
  create, open_append, write_all, sync_all, rename, remove_file, moved, opened, file_removed,
  new_file, no_node, extended, take, is_folder,
}
use obsidian_sync_engine.Fs.Symlinks.{Ensures-call}

-- Beside one path, the disk is as it was.
abbrev pub SameBeside : Text → Disk → Disk → Type 0
SameBeside path disk disk' = (q : Text) → path ≢ q → node_at disk' q ≡ node_at disk q

put-SameBeside :
    (path : Text) (node : Node) (disk : Disk) → SameBeside path disk (put_node path node disk)
put-SameBeside path node disk q h = Map.get-insert_ne path q node disk.nodes h

drop-SameBeside : (path : Text) (disk : Disk) → SameBeside path disk (drop_node path disk)
drop-SameBeside path disk q h = Map.get-remove_ne path q disk.nodes h

abbrev pub or_nothing : Option Bytes → Bytes
or_nothing none = []
or_nothing (some b) = b

-- The bytes that opening leaves.
abbrev left_by : Bool → Option Bytes → Bytes
left_by true b = []
left_by false b = or_nothing b

nothing_left : (emptied : Bool) → ◌≡◌ {A = Option Bytes} (some []) (some (left_by emptied none))
nothing_left true = refl
nothing_left false = refl

some_injective : {a b : Bytes} → ◌≡◌ {A = Option Bytes} (some a) (some b) → a ≡ b
some_injective h = cc

put_lem :
    (path : Text) (disk : Disk) (Q : Disk → Type 0) (node : Node)
    → ((disk' : Disk) → node_at disk' path ≡ some node → SameBeside path disk disk' → Q disk')
    → Q (put_node path node (ticked disk))
put_lem path disk Q node h =
    h (put_node path node (ticked disk)) (Map.get-insert_self path node disk.nodes)
      (put-SameBeside path node (ticked disk))

module _ (path : Text) (disk : Disk) {Q : Unit {0} → Disk → Type 0} {R : IoError → Disk → Type 0}
    (fails : (e : IoError) → R e (ticked disk)) where
  pub sync_all_lem : Q tt (ticked disk) → Ensures Q R (sync_all path disk)
  unfolding sync_all
  sync_all_lem h = Ensures-call _ _ disk (record { post = h }) (λ message fault. fails _)

  -- What is opened for writing can be read, and keeps its bytes unless they are to go.
  module _ (emptied : Bool) where
    opened_lem :
        (o : Option Node)
        → node_at disk path ≡ o
        → ((disk' : Disk)
            → bytes_of (node_at disk' path) ≡ some (left_by emptied (bytes_of o))
            → SameBeside path disk disk'
            → Q tt disk')
        → Ensures Q R (opened emptied path o (ticked disk))
    opened_lem none e h = elim (Bool-cases (has_parent (ticked disk) path)) [
      | inl p ↦ rw p (record {
        post =
            put_lem path disk (Q tt) (new_file disk)
              (λ d q s. h d (ap bytes_of q ∙ nothing_left emptied) s);
      })
      | inr p ↦ rw p (record { post = fails _ })
    ]
    opened_lem (some folder) e h = record { post = fails _ }
    opened_lem (some special) e h = record { post = fails _ }
    opened_lem (some (symlink to_folder)) e h = record { post = fails _ }
    opened_lem (some (symlink nothing)) e h = record {
      post =
          put_lem path disk (Q tt) (symlink (to_file []))
            (λ d q s. h d (ap bytes_of q ∙ nothing_left emptied) s);
    }
    opened_lem (some (symlink (to_file content))) e h = by_flag emptied h
      where
        by_flag :
            (b : Bool)
            → ((disk' : Disk)
                → bytes_of (node_at disk' path) ≡ some (left_by b (some content))
                → SameBeside path disk disk'
                → Q tt disk')
            → Ensures Q R (opened b path (some (symlink (to_file content))) (ticked disk))
        by_flag true h = record {
          post = put_lem path disk (Q tt) (symlink (to_file [])) (λ d q s. h d (ap bytes_of q) s);
        }
        by_flag false h = record { post = h (ticked disk) (ap bytes_of e) (λ q d. refl) }
    opened_lem (some (file content mode mtime_ns)) e h = by_flag emptied h
      where
        by_flag :
            (b : Bool)
            → ((disk' : Disk)
                → bytes_of (node_at disk' path) ≡ some (left_by b (some content))
                → SameBeside path disk disk'
                → Q tt disk')
            → Ensures Q R (opened b path (some (file content mode mtime_ns)) (ticked disk))
        by_flag true h = record {
          post =
              put_lem path disk (Q tt) (file [] mode disk.clock) (λ d q s. h d (ap bytes_of q) s);
        }
        by_flag false h = record { post = h (ticked disk) (ap bytes_of e) (λ q d. refl) }

  pub create_lem :
      ((disk' : Disk)
        → bytes_of (node_at disk' path) ≡ some []
        → SameBeside path disk disk'
        → Q tt disk')
      → Ensures Q R (create path disk)
  unfolding create
  create_lem h =
      Ensures-call _ _ disk (opened_lem true (node_at disk path) refl h) (λ message fault. fails _)

  pub open_append_lem :
      ((disk' : Disk)
        → bytes_of (node_at disk' path) ≡ some (or_nothing (bytes_of (node_at disk path)))
        → SameBeside path disk disk'
        → Q tt disk')
      → Ensures Q R (open_append path disk)
  unfolding open_append
  open_append_lem h =
      Ensures-call _ _ disk (opened_lem false (node_at disk path) refl h) (λ message fault. fails _)

  file_removed_lem :
      (o : Option Node)
      → ((disk' : Disk) → SameBeside path disk disk' → Q tt disk')
      → Ensures Q R (file_removed path o (ticked disk))
  file_removed_lem none h = record { post = fails _ }
  file_removed_lem (some folder) h = record { post = fails _ }
  file_removed_lem (some special) h = record { post = h _ (drop-SameBeside path (ticked disk)) }
  file_removed_lem (some (symlink target)) h = record {
    post = h _ (drop-SameBeside path (ticked disk));
  }
  file_removed_lem (some (file content mode mtime_ns)) h = record {
    post = h _ (drop-SameBeside path (ticked disk));
  }

  pub remove_file_lem :
      ((disk' : Disk) → SameBeside path disk disk' → Q tt disk')
      → Ensures Q R (remove_file path disk)
  unfolding remove_file
  remove_file_lem h =
      Ensures-call _ _ disk (file_removed_lem (node_at disk path) h) (λ message fault. fails _)

-- A file that can be read is extended.
extended_lem :
    (path : Text) (bytes : Bytes) (disk : Disk) (o : Option Node) (b : Bytes)
    → bytes_of o ≡ some b
    → (bytes_of (node_at (extended path bytes o disk) path) ≡ some (b ++ bytes))
      × SameBeside path disk (extended path bytes o disk)
extended_lem path bytes disk none b h = cc
extended_lem path bytes disk (some folder) b h = cc
extended_lem path bytes disk (some special) b h = cc
extended_lem path bytes disk (some (symlink nothing)) b h = cc
extended_lem path bytes disk (some (symlink to_folder)) b h = cc
extended_lem path bytes disk (some (symlink (to_file content))) b h = (
  ap bytes_of (Map.get-insert_self path (symlink (to_file (content ++ bytes))) disk.nodes)
      ∙ ap (λ c. some (c ++ bytes)) (some_injective h),
  put-SameBeside path (symlink (to_file (content ++ bytes))) disk,
)
extended_lem path bytes disk (some (file content mode mtime_ns)) b h = (
  ap bytes_of (Map.get-insert_self path (file (content ++ bytes) mode disk.clock) disk.nodes)
      ∙ ap (λ c. some (c ++ bytes)) (some_injective h),
  put-SameBeside path (file (content ++ bytes) mode disk.clock) disk,
)

-- All the bytes are written, or where the call fails a part of them.
pub write_all_lem :
    (path : Text) (bytes : Bytes) (disk : Disk) (b : Bytes) {Q : Unit {0} → Disk → Type 0}
    {R : IoError → Disk → Type 0}
    → bytes_of (node_at disk path) ≡ some b
    → ((disk' : Disk)
        → bytes_of (node_at disk' path) ≡ some (b ++ bytes)
        → SameBeside path disk disk'
        → Q tt disk')
    → ((e : IoError) (n : ℕ) (disk' : Disk)
        → bytes_of (node_at disk' path) ≡ some (b ++ take n bytes)
        → SameBeside path disk disk'
        → R e disk')
    → Ensures Q R (write_all path bytes disk)
unfolding write_all
write_all_lem path bytes disk b h all some_of =
    let whole = extended_lem path bytes (ticked disk) (node_at disk path) b h in
    Ensures-call _ _ disk (record { post = all _ whole.0 whole.1 })
      (λ message fault.
        let part =
          extended_lem path (take fault.written bytes) (ticked disk) (node_at disk path) b h in
        some_of _ fault.written _ part.0 part.1)

renamed :
    (from path : Text) (disk : Disk) (node : Node) (q : Text)
    → node_at (put_node path node (drop_node from (ticked disk))) q
      ≡ (if path == q then some node else if from == q then none else node_at disk q)
renamed from path disk node q =
    Map.get-insert path q node (Map.remove from disk.nodes)
    ∙ ap (λ o. if path == q then some node else o) (Map.get-remove from q disk.nodes)

-- A file takes the new path in one step, and its old path is free; or nothing has changed.
module _ (from path : Text) (disk : Disk) {Q : Unit {0} → Disk → Type 0}
    {R : IoError → Disk → Type 0} where
  placed :
      (node : Node)
      → ((e : IoError) → R e (ticked disk))
      → ((n : Node) (disk' : Disk)
          → some node ≡ some n
          → ((q : Text)
              → node_at disk' q
                ≡ (if path == q then some n else if from == q then none else node_at disk q))
          → Q tt disk')
      → Ensures Q R (
          if is_folder (node_at (ticked disk) path)
          then refuse other_kind path (ticked disk)
          else if has_parent (ticked disk) path
          then (ok tt, put_node path node (drop_node from (ticked disk)))
          else no_node path (ticked disk))
  placed node fails h = elim (Bool-cases (is_folder (node_at (ticked disk) path))) [
    | inl f ↦ rw f (record { post = fails _ })
    | inr f ↦ rw f (elim (Bool-cases (has_parent (ticked disk) path)) [
      | inl p ↦ rw p (record { post = h node _ refl (renamed from path disk node) })
      | inr p ↦ rw p (record { post = fails _ })
    ])
  ]

  moved_lem :
      (o : Option Node)
      → ((e : IoError) → R e (ticked disk))
      → ((node : Node) (disk' : Disk)
          → o ≡ some node
          → ((q : Text)
              → node_at disk' q
                ≡ (if path == q then some node else if from == q then none else node_at disk q))
          → Q tt disk')
      → Ensures Q R (moved from path o (ticked disk))
  moved_lem none fails h = record { post = fails _ }
  moved_lem (some folder) fails h = record { post = fails _ }
  moved_lem (some special) fails h = placed special fails h
  moved_lem (some (symlink target)) fails h = placed (symlink target) fails h
  moved_lem (some (file content mode mtime_ns)) fails h =
      placed (file content mode mtime_ns) fails h

  pub rename_lem :
      ((e : IoError) → R e (ticked disk))
      → ((node : Node) (disk' : Disk)
          → node_at disk from ≡ some node
          → ((q : Text)
              → node_at disk' q
                ≡ (if path == q then some node else if from == q then none else node_at disk q))
          → Q tt disk')
      → Ensures Q R (rename from path disk)
  unfolding rename
  rename_lem fails h =
      Ensures-call _ _ disk (moved_lem (node_at disk from) fails h) (λ message fault. fails _)

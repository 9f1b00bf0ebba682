-- ===== src/Fs/Symlinks.antt =====
-- rust-client/src/fs.rs: `LocalFs` does not follow a symlinked folder out of the vault.
use obsidian_sync_engine.Base.{
  ℕ, Text, Bytes, ◌≡◌, refl, ap, ◌∙◌, false, Option, none, some, List, [], ◌∷◌, ◌++◌, ◌==◌, TextMap,
  All, Bool-cases, inl, inr, ok, err, Result, catch, Ensures, Ensures-continue, Ensures-catch,
  is_empty,
}
use obsidian_sync_engine.Base.Tests.{nat_eq, list_eq}
use obsidian_sync_engine.Base.Map
use obsidian_sync_engine.Base.Preserves.{
  Preserves, Preserves-pure, Preserves-fail, Preserves-if, Preserves-beside, Fails, Fails-first,
  Fails-after, Fails-beside,
}
use obsidian_sync_engine.Fs.Disk.{
  Disk, Node, folder, symlink, Target, Fault, Sys, other_kind, IoError, io_error, node_at, ticked,
  next_of, call_leaving, failing, symlink_metadata,
}
use obsidian_sync_engine.Fs.Local.{
  resolve, after_ancestor, no_symlink_in, assert_no_symlinked_ancestor, ensure_parent_dir, write,
  append, stat, read_binary, hash_file, remove, prune_empty_parents,
}
use obsidian_sync_engine.Fs.Inbound.{write_binary, check_prefix, list_files_under}
use obsidian_sync_engine.Paths.{ancestor_dirs, client_data_path}

module _ {A : Type 0} {Q : A → Disk → Type 0} {R : IoError → Disk → Type 0} where
  -- A call does its action, or fails and leaves what it says.
  pub Ensures-call :
      (left : Fault → Disk → Disk) (action : Sys A) (disk : Disk)
      → Ensures Q R (action (ticked disk))
      → ((message : Text) (fault : Fault)
          → R (io_error other_kind message) (left fault (ticked disk)))
      → Ensures Q R (call_leaving left action disk)
  Ensures-call left action disk h k = by_fault (next_of disk.faults)
    where
      by_fault : (fault : Option Fault) → Ensures Q R (failing fault left action (ticked disk))
      by_fault none = h
      by_fault (some fault) = record { post = k _ fault }

module _ (nodes : TextMap Node) where
  -- The disk has these nodes.
  abbrev pub Has : Disk → Type 0
  Has disk = disk.nodes ≡ nodes

  -- What a call for metadata returned, of a path where this node stands.
  abbrev pub Shown : Node → Result IoError Node → Disk → Type 0
  Shown node (ok n) disk = (n ≡ node) × Has disk
  Shown node (err e) disk = (e.kind ≡ other_kind) × Has disk

  pub symlink_metadata_lem :
      (path : Text) (node : Node) (disk : Disk)
      → Map.get path nodes ≡ some node
      → Has disk
      → Ensures {E = IoError}
          (λ r d. Shown node r d)
          (λ _ d. Has d)
          (catch (symlink_metadata path) disk)
  unfolding symlink_metadata
  symlink_metadata_lem path node disk h i =
      Ensures-catch (symlink_metadata path) disk
        (Ensures-call _ _ disk
          (let e : Map.get path disk.nodes ≡ some node = ap (Map.get path) i ∙ h in
            rw e (record { post = (refl, i) }))
          (λ message fault. (refl, i)))
        (λ n d q. q) (λ e d q. q)

  pub resolve-kept : (p : Text) → Preserves Has (resolve p)
  unfolding resolve
  resolve-kept p = Preserves-if _ (Preserves-fail _) (Preserves-pure p)

  -- A symlink on the way, with folders above it.
  module _ (before : List Text) (dir : Text) (after : List Text) (target : Target)
      (folders : All (λ d. Map.get d nodes ≡ some folder) before)
      (link : Map.get dir nodes ≡ some (symlink target)) where
    at_link :
        (r : Result IoError Node) (disk : Disk)
        → Shown (symlink target) r disk
        → Ensures (λ _ _. ⊥) (λ _ d. Has d) (after_ancestor dir (no_symlink_in after) r disk)
    at_link (ok n) disk q = rw (q.0) (record { post = q.1 })
    at_link (err e) disk q = rw (q.0) (record { post = q.1 })

    at_folder :
        (d : Text) (later : Sys (Unit {0})) (r : Result IoError Node) (disk : Disk)
        → Shown folder r disk
        → Fails Has later
        → Ensures (λ _ _. ⊥) (λ _ d. Has d) (after_ancestor d later r disk)
    at_folder d later (ok n) disk q h = rw (q.0) (h.fails disk q.1)
    at_folder d later (err e) disk q h = rw (q.0) (record { post = q.1 })

    no_symlink_in-Fails :
        (before : List Text)
        → All (λ d. Map.get d nodes ≡ some folder) before
        → Fails Has (no_symlink_in (before ++ (dir ∷ after)))
    unfolding no_symlink_in
    no_symlink_in-Fails [] h = record {
      fails = λ disk i.
          Ensures-continue (catch (symlink_metadata dir) disk) _
            (symlink_metadata_lem dir (symlink target) disk link i) λ r d q. at_link r d q;
    }
    no_symlink_in-Fails (d ∷ before) (h, rest) = record {
      fails = λ disk i.
          Ensures-continue (catch (symlink_metadata d) disk) _
            (symlink_metadata_lem d folder disk h i)
            λ r d' q. at_folder d _ r d' q (no_symlink_in-Fails before rest);
    }

    module _ (path : Text) (way : ancestor_dirs path ≡ before ++ (dir ∷ after)) where
      assert-Fails : Fails Has (assert_no_symlinked_ancestor path)
      unfolding assert_no_symlinked_ancestor
      assert-Fails = rw way (no_symlink_in-Fails before folders)

      ensure-Fails : Fails Has (ensure_parent_dir path)
      unfolding ensure_parent_dir
      ensure-Fails = Fails-first _ assert-Fails

      read_binary-Fails : Fails Has (read_binary path)
      unfolding read_binary
      read_binary-Fails = Fails-first _ assert-Fails

      hash_file-Fails : (digest : Bytes → Bytes) → Fails Has (hash_file digest path)
      unfolding hash_file
      hash_file-Fails digest = Fails-first _ assert-Fails

      remove-Fails : Fails Has (remove path)
      unfolding remove
      remove-Fails = Fails-first _ assert-Fails

      prune-Fails : Fails Has (prune_empty_parents path)
      unfolding prune_empty_parents
      prune-Fails = Fails-first _ assert-Fails

      stat-Fails : Fails Has (stat path)
      unfolding stat
      stat-Fails = Fails-after (resolve-kept path) λ full. Fails-first _ assert-Fails

      write-Fails : (text : Text) → Fails Has (write path text)
      unfolding write
      write-Fails text = Fails-after (resolve-kept path) λ full. Fails-first _ ensure-Fails

      append-Fails : (text : Text) → Fails Has (append path text)
      unfolding append
      append-Fails text = Fails-after (resolve-kept path) λ full. Fails-first _ ensure-Fails

      check_prefix-Fails : is_empty path ≡ false → Fails Has (check_prefix path)
      unfolding check_prefix
      check_prefix-Fails nonempty = rw nonempty (Fails-first _ assert-Fails)

      list-Fails : (fuel : ℕ) → is_empty path ≡ false → Fails Has (list_files_under fuel path)
      unfolding list_files_under
      list-Fails fuel nonempty = Fails-first _ (check_prefix-Fails nonempty)

      write_binary-Fails :
          (temp_dir : Text) (pid : ℕ) (bytes : Bytes)
          → Fails (λ (s : ℕ × Disk). Has s.1) (write_binary temp_dir pid path bytes)
      unfolding write_binary
      write_binary-Fails temp_dir pid bytes = elim (Bool-cases (path == client_data_path)) [
        | inl e ↦ rw e (record { fails = λ s i. record { post = i } })
        | inr e ↦ rw e (
            Fails-after (Preserves-beside (resolve-kept path))
              λ full. Fails-first _ (Fails-beside ensure-Fails))
      ]

-- The call fails, and the disk has the nodes that it had.
abbrev pub Refuses : {A : Type 0} → Sys A → Disk → Type 0
Refuses m disk = Ensures (λ _ _. ⊥) (λ _ d. d.nodes ≡ disk.nodes) (m disk)

has_ancestor :
    (path : Text) (before : List Text) (dir : Text) (after : List Text)
    → ancestor_dirs path ≡ before ++ (dir ∷ after)
    → is_empty path ≡ false
unfolding ancestor_dirs
has_ancestor [] [] dir after h = cc
has_ancestor [] (d ∷ before) dir after h = cc
has_ancestor (c ∷ path) before dir after h = refl

-- Where a folder on the way to a path is a symlink, every operation of `LocalFs` on the vault's
-- files at the path fails and changes no file, and so do the writes of a journal: the vault is not
-- left through the symlink.
pub symlink_refused :
    (path : Text) (before : List Text) (dir : Text) (after : List Text) (target : Target)
    (disk : Disk) (fuel pid counter : ℕ) (temp_dir text : Text) (bytes : Bytes)
    (digest : Bytes → Bytes)
    → ancestor_dirs path ≡ before ++ (dir ∷ after)
    → All (λ d. node_at disk d ≡ some folder) before
    → node_at disk dir ≡ some (symlink target)
    → Refuses (stat path) disk
      × Refuses (read_binary path) disk
      × Refuses (hash_file digest path) disk
      × Refuses (list_files_under fuel path) disk
      × Refuses (remove path) disk
      × Refuses (prune_empty_parents path) disk
      × Refuses (write path text) disk
      × Refuses (append path text) disk
      × Ensures
          (λ _ _. ⊥)
          (λ _ s. s.1.nodes ≡ disk.nodes)
          (write_binary temp_dir pid path bytes (counter, disk))
symlink_refused path before dir after target disk fuel pid counter temp_dir text bytes digest way
      folders link =
    let n : TextMap Node = disk.nodes in
    (
      (stat-Fails n before dir after target folders link path way).fails disk refl,
      (read_binary-Fails n before dir after target folders link path way).fails disk refl,
      (hash_file-Fails n before dir after target folders link path way digest).fails disk refl,
      (list-Fails n before dir after target folders link path way fuel
            (has_ancestor path before dir after way)).fails
          disk refl,
      (remove-Fails n before dir after target folders link path way).fails disk refl,
      (prune-Fails n before dir after target folders link path way).fails disk refl,
      (write-Fails n before dir after target folders link path way text).fails disk refl,
      (append-Fails n before dir after target folders link path way text).fails disk refl,
      (write_binary-Fails n before dir after target folders link path way temp_dir pid bytes).fails
          (counter, disk) refl,
    )

-- ===== src/Fs/Ancestors.antt =====
-- rust-client/src/fs.rs: where the folders on the way to a path are there, making them changes
-- nothing.
use obsidian_sync_engine.Base.{
  Text, ◌≡◌, some, List, [], ◌∷◌, All, TextMap, ok, err, Result, catch, Ensures, Ensures-continue,
}
use obsidian_sync_engine.Base.Tests.{nat_eq, list_eq}
use obsidian_sync_engine.Base.Map
use obsidian_sync_engine.Base.Preserves.{Preserves, Preserves-pure, Preserves-bind}
use obsidian_sync_engine.Fs.Disk.{Disk, Node, folder, IoError, symlink_metadata}
use obsidian_sync_engine.Fs.Local.{
  no_symlink_in, assert_no_symlinked_ancestor, after_ancestor, make_ancestor, make_ancestors,
  ensure_parent_dir,
}
use obsidian_sync_engine.Fs.Symlinks.{Has, Shown, symlink_metadata_lem}
use obsidian_sync_engine.Paths.{ancestor_dirs}

-- The folders on the way are there: making them changes nothing.
module _ (nodes : TextMap Node) where
  no_symlink_in-kept :
      (dirs : List Text)
      → All (λ d. Map.get d nodes ≡ some folder) dirs
      → Preserves (Has nodes) (no_symlink_in dirs)
  unfolding no_symlink_in
  no_symlink_in-kept [] h = Preserves-pure tt
  no_symlink_in-kept (dir ∷ dirs) (h, rest) = record {
    preserved = λ disk i.
        Ensures-continue (catch (symlink_metadata dir) disk) _
          (symlink_metadata_lem nodes dir folder disk h i)
          λ r d q. next r d q (no_symlink_in-kept dirs rest);
  }
    where
      next :
          (r : Result IoError Node) (d : Disk)
          → Shown nodes folder r d
          → Preserves (Has nodes) (no_symlink_in dirs)
          → Ensures
              (λ _ d. Has nodes d)
              (λ _ d. Has nodes d)
              (after_ancestor dir (no_symlink_in dirs) r d)
      next (ok n) d q later = rw (q.0) (later.preserved d q.1)
      next (err e) d q later = rw (q.0) (record { post = q.1 })

  make_ancestors-kept :
      (dirs : List Text)
      → All (λ d. Map.get d nodes ≡ some folder) dirs
      → Preserves (Has nodes) (make_ancestors dirs)
  unfolding make_ancestors
  make_ancestors-kept [] h = Preserves-pure tt
  make_ancestors-kept (dir ∷ dirs) (h, rest) = record {
    preserved = λ disk i.
        Ensures-continue (catch (symlink_metadata dir) disk) _
          (symlink_metadata_lem nodes dir folder disk h i)
          λ r d q.
            Ensures-continue (make_ancestor dir r d) _ (next r d q)
              λ _ d' j. (make_ancestors-kept dirs rest).preserved d' j;
  }
    where
      next :
          (r : Result IoError Node) (d : Disk)
          → Shown nodes folder r d
          → Ensures (λ _ d. Has nodes d) (λ _ d. Has nodes d) (make_ancestor dir r d)
      next (ok n) d q = rw (q.0) (record { post = q.1 })
      next (err e) d q = rw (q.0) (record { post = q.1 })

  pub ensure_parent_dir-kept :
      (path : Text)
      → All (λ d. Map.get d nodes ≡ some folder) (ancestor_dirs path)
      → Preserves (Has nodes) (ensure_parent_dir path)
  unfolding ensure_parent_dir assert_no_symlinked_ancestor
  ensure_parent_dir-kept path h =
      Preserves-bind (no_symlink_in-kept (ancestor_dirs path) h)
        λ _. make_ancestors-kept (ancestor_dirs path) h

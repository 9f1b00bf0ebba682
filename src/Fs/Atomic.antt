-- ===== src/Fs/Atomic.antt =====
-- rust-client/src/fs.rs: a journal is replaced as a whole by `LocalFs::write`, whatever call of the
-- operating system fails.
use obsidian_sync_engine.Base.{
  Text, to_bytes, ◌≡◌, ◌⊎◌, refl, sym, ap, ◌∙◌, some, [], All, inl, inr, Ensures, Ensures-continue,
  Ensures-weaken,
}
use obsidian_sync_engine.Base.Tests.{nat_eq, list_eq, text_eq_refl, text_ne_false}
use obsidian_sync_engine.Base.Preserves.{Preserves, Preserves-pure, Preserves-if}
use obsidian_sync_engine.Fs.Disk.{Disk, folder, node_at, bytes_of, is_there}
use obsidian_sync_engine.Fs.Calls.{create, write_all, rename}
use obsidian_sync_engine.Fs.Local.{
  backup_path, temporary_path, sync_parent, write_temporary, drop_backup, write,
}
use obsidian_sync_engine.Fs.Effects.{
  SameBeside, create_lem, remove_file_lem, write_all_lem, rename_lem, sync_all_lem,
}
use obsidian_sync_engine.Paths.{ancestor_dirs}
use obsidian_sync_engine.Fs.Recover.{
  journal_bytes, journal_present, readable_there, path-ne-bak, Elsewhere, Old, beside-Old, prepared,
}

module _ (path : Text) (start : Disk) where
  module _ (text : Text) where
    -- The journal holds the text.
    abbrev New : Disk → Type 0
    New d = (bytes_of (node_at d path) ≡ some (to_bytes text)) × Elsewhere path start d

    -- The temporary file holds the text, and the journal is as it was.
    abbrev Staged : Disk → Type 0
    Staged d =
        Old path start d × (bytes_of (node_at d (temporary_path path)) ≡ some (to_bytes text))

    write_temporary-Staged :
        (d : Disk)
        → Old path start d
        → Ensures
            (λ _ d'. Staged d')
            (λ _ d'. Old path start d')
            (write_temporary (temporary_path path) text d)
    unfolding write_temporary
    write_temporary-Staged d i =
        Ensures-continue
          {Q = λ _ d1. Old path start d1 × (bytes_of (node_at d1 (temporary_path path)) ≡ some [])}
          (create (temporary_path path) d) _
          (create_lem (temporary_path path) d (λ _. i)
            (λ d1 e same. (beside-Old path start d d1 i same, e)))
          λ _ d1 q1.
            Ensures-continue {Q = λ _ d2. Staged d2}
              (write_all (temporary_path path) (to_bytes text) d1) _
              (write_all_lem (temporary_path path) (to_bytes text) d1 [] (q1.1)
                (λ d2 e same. (beside-Old path start d1 d2 q1.0 same, e))
                (λ _ n d2 e same. beside-Old path start d1 d2 q1.0 same))
              λ _ d2 q2. sync_all_lem (temporary_path path) d2 (λ _. q2.0) q2

    rename-New :
        (d : Disk)
        → Staged d
        → Ensures (λ _ d'. New d') (λ _ d'. Old path start d') (rename (temporary_path path) path d)
    rename-New d ((j, elsewhere), staged) =
        rename_lem (temporary_path path) path d (λ _. (j, elsewhere))
          λ node d' e law.
            let here : node_at d' path ≡ some node = law path ∙ rw (text_eq_refl path) refl in
            (
              ap bytes_of here ∙ sym (ap bytes_of e) ∙ staged,
              λ q a b c.
                  law q
                  ∙ rw (text_ne_false path q a, text_ne_false (temporary_path path) q b)
                      (elsewhere q a b c),
            )

    New-journal : (d : Disk) → New d → journal_bytes path d ≡ some (to_bytes text)
    New-journal d n =
        journal_present (node_at d path) (node_at d (backup_path path))
          (readable_there (node_at d path) _ n.0)
        ∙ n.0

    beside-New : (d d' : Disk) → New d → SameBeside (backup_path path) d d' → New d'
    beside-New d d' (h, elsewhere) same = (
      ap bytes_of (same path (path-ne-bak path start)) ∙ h,
      λ q a b c. same q c ∙ elsewhere q a b c,
    )

    drop_backup-New : Preserves New (drop_backup path)
    unfolding drop_backup
    drop_backup-New = record {
      preserved = λ d i.
          (Preserves-if (is_there (node_at d (backup_path path)))
              (record {
                preserved = λ d1 i1.
                    remove_file_lem (backup_path path) d1 (λ _. i1)
                      (λ d2 same. beside-New d1 d2 i1 same);
              })
              (Preserves-pure tt)).preserved
            d i;
    }

    sync-New : Preserves New (sync_parent path)
    unfolding sync_parent
    sync-New = record { preserved = λ d i. sync_all_lem path d (λ _. i) i }

  -- Where the folders on the way are there, `write` replaces a journal as a whole: if it returns,
  -- the journal holds the text, and if any call fails, the journal holds what it held or the text,
  -- never a part of it. Beside the journal, its temporary file and its backup, nothing changes.
  pub write_atomic :
      (text : Text)
      → All (λ d. node_at start d ≡ some folder) (ancestor_dirs path)
      → Ensures
          (λ _ d. (journal_bytes path d ≡ some (to_bytes text)) × Elsewhere path start d)
          (λ _ d.
            ((journal_bytes path d ≡ journal_bytes path start)
              ⊎ (journal_bytes path d ≡ some (to_bytes text)))
            × Elsewhere path start d)
          (write path text start)
  unfolding write
  write_atomic text folders =
      prepared path start _ folders (λ e d i. (inl i.0, i.1))
        λ d i _.
          Ensures-continue (write_temporary (temporary_path path) text d) _
            (Ensures-weaken (write_temporary (temporary_path path) text d)
              (write_temporary-Staged text d i) (λ _ d1 s. s) (λ _ d1 o. (inl o.0, o.1)))
            λ _ d1 s.
              Ensures-continue (rename (temporary_path path) path d1) _
                (Ensures-weaken (rename (temporary_path path) path d1) (rename-New text d1 s)
                  (λ _ d2 n. n) (λ _ d2 o. (inl o.0, o.1)))
                λ _ d2 n.
                  Ensures-continue (drop_backup path d2) _
                    (Ensures-weaken (drop_backup path d2) ((drop_backup-New text).preserved d2 n)
                      (λ _ d3 n3. n3) (λ _ d3 n3. (inr (New-journal text d3 n3), n3.1)))
                    λ _ d3 n3.
                      Ensures-weaken (sync_parent path d3) ((sync-New text).preserved d3 n3)
                        (λ _ d4 n4. (New-journal text d4 n4, n4.1))
                        (λ _ d4 n4. (inr (New-journal text d4 n4), n4.1))

-- ===== src/Fs/Grows.antt =====
-- rust-client/src/fs.rs: a journal grows by `LocalFs::append`, whatever call of the operating system
-- fails.
use obsidian_sync_engine.Base.{
  ℕ, Text, Bytes, to_bytes, ◌≡◌, ◌⊎◌, refl, sym, ap, ◌∙◌, some, [], ◌∷◌, ◌++◌, append-nil, All, inl,
  inr, zero, suc, Ensures, Ensures-continue,
}
use obsidian_sync_engine.Base.Tests.{nat_eq, list_eq}
use obsidian_sync_engine.Fs.Disk.{Disk, folder, node_at, bytes_of}
use obsidian_sync_engine.Fs.Calls.{open_append, write_all, take}
use obsidian_sync_engine.Fs.Local.{backup_path, append}
use obsidian_sync_engine.Fs.Effects.{open_append_lem, write_all_lem, sync_all_lem, or_nothing}
use obsidian_sync_engine.Paths.{ancestor_dirs}
use obsidian_sync_engine.Fs.Recover.{
  journal_bytes, journal_present, readable_there, Elsewhere, prepared,
}

-- A part of the text, and what follows it.
abbrev pub Part : Bytes → Bytes → Type 0
Part a bytes = (b : Bytes) × (bytes ≡ a ++ b)

take-Part : (n : ℕ) (bytes : Bytes) → Part (take n bytes) bytes
take-Part zero bytes = (bytes, refl)
take-Part (suc n) [] = ([], refl)
take-Part (suc n) (b ∷ bytes) = let (rest, e) = take-Part n bytes in (rest, ap (λ t. b ∷ t) e)

module _ (path : Text) (start : Disk) where
  -- The journal's file holds what the journal held and these bytes.
  abbrev Grown : Bytes → Disk → Type 0
  Grown bytes d =
      (bytes_of (node_at d path) ≡ some (or_nothing (journal_bytes path start) ++ bytes))
      × Elsewhere path start d

  -- The journal's file is there, with what the journal held.
  abbrev Opened : Disk → Type 0
  Opened d =
      (bytes_of (node_at d path) ≡ some (or_nothing (journal_bytes path start)))
      × Elsewhere path start d

  readable_journal :
      (d : Disk) {b : Bytes} → bytes_of (node_at d path) ≡ some b → journal_bytes path d ≡ some b
  readable_journal d {b} h =
      journal_present (node_at d path) (node_at d (backup_path path))
        (readable_there (node_at d path) b h)
      ∙ h

  -- Where the folders on the way are there, `append` adds the text to what the journal holds, a
  -- journal that is missing being empty; and if any call fails, the journal is as it was, or a
  -- beginning of the text is added. Beside the journal, its temporary file and its backup, nothing
  -- changes.
  pub append_grows :
      (text : Text)
      → All (λ d. node_at start d ≡ some folder) (ancestor_dirs path)
      → Ensures
          (λ _ d.
            (journal_bytes path d ≡ some (or_nothing (journal_bytes path start) ++ to_bytes text))
            × Elsewhere path start d)
          (λ _ d.
            ((journal_bytes path d ≡ journal_bytes path start)
              ⊎ ((a : Bytes) × Part a (to_bytes text)
                  × (journal_bytes path d ≡ some (or_nothing (journal_bytes path start) ++ a))))
            × Elsewhere path start d)
          (append path text start)
  unfolding append
  append_grows text folders =
      prepared path start _ folders (λ e d i. (inl i.0, i.1))
        λ d i direct.
          Ensures-continue {Q = λ _ d1. Opened d1} (open_append path d) _
            (open_append_lem path d (λ _. (inl i.0, i.1))
              (λ d1 e same.
                (e ∙ ap (λ o. some (or_nothing o)) direct, λ q a b c. same q a ∙ i.1 q a b c)))
            λ _ d1 o.
              Ensures-continue {Q = λ _ d2. Grown (to_bytes text) d2}
                (write_all path (to_bytes text) d1) _
                (write_all_lem path (to_bytes text) d1 (or_nothing (journal_bytes path start)) (o.0)
                  (λ d2 e same. (e, λ q a b c. same q a ∙ o.1 q a b c))
                  (λ _ n d2 e same. (
                    inr (
                      take n (to_bytes text),
                      take-Part n (to_bytes text),
                      readable_journal d2 e,
                    ),
                    λ q a b c. same q a ∙ o.1 q a b c,
                  )))
                λ _ d2 g.
                  sync_all_lem path d2
                    (λ _. (
                      inr (
                        to_bytes text,
                        ([], sym (append-nil (to_bytes text))),
                        readable_journal d2 g.0,
                      ),
                      g.1,
                    ))
                    (readable_journal d2 g.0, g.1)

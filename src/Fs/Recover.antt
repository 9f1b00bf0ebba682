-- ===== src/Fs/Recover.antt =====
-- rust-client/src/fs.rs: a journal of `LocalFs` and its backup, and how `write` and `append` start.
use obsidian_sync_engine.Base.{
  Text, Bytes, codes, ◌≡◌, ◌≢◌, refl, sym, ap, ◌∙◌, Bool, true, false, Option, none, some, [], ◌∷◌,
  ◌++◌, append-nil, if◌then◌else◌, ◌==◌, All, Bool-cases, inl, inr, ◌||◌, is_empty, starts_with,
  contains_char, any, split, pure, ◌>>=◌, ◌>>◌, Ensures, Ensures-continue, Ensures-weaken,
}
use obsidian_sync_engine.Base.Tests.{nat_eq, list_eq, text_eq_iff, text_eq_refl, text_ne_false}
use obsidian_sync_engine.Base.Map
use obsidian_sync_engine.Fs.Disk.{
  Disk, Node, Target, folder, Sys, IoError, node_at, bytes_of, is_there, exists,
}
use obsidian_sync_engine.Fs.Calls.{rename}
use obsidian_sync_engine.Fs.Local.{
  resolve, is_unsafe_segment, ensure_parent_dir, backup_path, temporary_path, recover_journal,
}
use obsidian_sync_engine.Fs.Effects.{SameBeside, rename_lem}
use obsidian_sync_engine.Fs.Symlinks.{Has}
use obsidian_sync_engine.Paths.{ancestor_dirs}
use obsidian_sync_engine.Fs.Ancestors.{ensure_parent_dir-kept}

append_cancel : (p x y : Text) → p ++ x ≡ p ++ y → x ≡ y
append_cancel [] x y h = h
append_cancel (c ∷ p) x y h = append_cancel p x y (cc)

abbrev journal_of : Option Node → Option Node → Option Bytes
journal_of full saved = if is_there full then bytes_of full else bytes_of saved

-- The bytes of a journal: its file's, or its backup's where an interrupted write has left no file.
abbrev pub journal_bytes : Text → Disk → Option Bytes
journal_bytes path disk = journal_of (node_at disk path) (node_at disk (backup_path path))

pub journal_present :
    (full saved : Option Node) → is_there full ≡ true → journal_of full saved ≡ bytes_of full
journal_present full saved h = rw h refl

journal_absent :
    (full saved : Option Node) → is_there full ≡ false → journal_of full saved ≡ bytes_of saved
journal_absent full saved h = rw h refl

unreadable : (o : Option Node) → is_there o ≡ false → bytes_of o ≡ none
unreadable none h = refl
unreadable (some folder) h = cc
unreadable (some Node.special) h = cc
unreadable (some (Node.symlink Target.nothing)) h = refl
unreadable (some (Node.symlink Target.to_folder)) h = cc
unreadable (some (Node.symlink (Target.to_file c))) h = cc
unreadable (some (Node.file c m s)) h = cc

pub readable_there : (o : Option Node) (b : Bytes) → bytes_of o ≡ some b → is_there o ≡ true
readable_there none b h = cc
readable_there (some folder) b h = refl
readable_there (some Node.special) b h = refl
readable_there (some (Node.symlink Target.nothing)) b h = cc
readable_there (some (Node.symlink Target.to_folder)) b h = refl
readable_there (some (Node.symlink (Target.to_file c))) b h = refl
readable_there (some (Node.file c m s)) b h = refl

module _ (path : Text) (start : Disk) where
  abbrev tmp : Text
  tmp = temporary_path path

  abbrev bak : Text
  bak = backup_path path

  -- Beside the journal, its temporary file and its backup, the disk is as it was.
  abbrev pub Elsewhere : Disk → Type 0
  Elsewhere disk = (q : Text) → path ≢ q → tmp ≢ q → bak ≢ q → node_at disk q ≡ node_at start q

  abbrev pub Old : Disk → Type 0
  Old disk = (journal_bytes path disk ≡ journal_bytes path start) × Elsewhere disk

  path-ne-tmp : tmp ≢ path
  path-ne-tmp h = absurd_of (append_cancel path (codes ".tmp") [] (h ∙ sym (append-nil path)))
    where
      absurd_of : codes ".tmp" ≡ [] → ⊥
      absurd_of e = cc

  pub path-ne-bak : bak ≢ path
  path-ne-bak h = absurd_of (append_cancel path (codes ".bak") [] (h ∙ sym (append-nil path)))
    where
      absurd_of : codes ".bak" ≡ [] → ⊥
      absurd_of e = cc

  tmp-ne-bak : tmp ≢ bak
  unfolding list_eq
  tmp-ne-bak h =
      let e : (codes ".tmp" == codes ".bak") ≡ true =
        (text_eq_iff _ _).1 (append_cancel path (codes ".tmp") (codes ".bak") h) in
      cc e

  pub beside-Old : (d d' : Disk) → Old d → SameBeside tmp d d' → Old d'
  beside-Old d d' (j, elsewhere) same = (
    (λ i. journal_of (same path path-ne-tmp i) (same bak tmp-ne-bak i)) ∙ j,
    λ q a b c. same q b ∙ elsewhere q a b c,
  )

  recovered :
      (d d' : Disk) (node : Node)
      → Old d
      → is_there (node_at d path) ≡ false
      → is_there (node_at d bak) ≡ true
      → node_at d bak ≡ some node
      → ((q : Text)
          → node_at d' q
            ≡ (if path == q then some node else if bak == q then none else node_at d q))
      → Old d'
  recovered d d' node (j, elsewhere) absent saved e law =
      let here : node_at d' path ≡ some node = law path ∙ rw (text_eq_refl path) refl in
      (
        journal_present (node_at d' path) (node_at d' bak)
              (ap is_there here ∙ sym (ap is_there e) ∙ saved)
            ∙ ap bytes_of here
            ∙ sym (ap bytes_of e)
            ∙ sym (journal_absent (node_at d path) (node_at d bak) absent)
            ∙ j,
        λ q a b c. law q ∙ rw (text_ne_false path q a, text_ne_false bak q c) (elsewhere q a b c),
      )

  -- The journal's own file holds what the journal held.
  abbrev pub Direct : Disk → Type 0
  Direct d = bytes_of (node_at d path) ≡ journal_bytes path start

  -- The two tests of `recover_journal`.
  recover_case :
      (d : Disk) (there saved : Bool)
      → Old d
      → is_there (node_at d path) ≡ there
      → is_there (node_at d bak) ≡ saved
      → Ensures
          (λ _ d'. Old d' × Direct d')
          (λ _ d'. Old d')
          ((if there then pure tt else (if saved then rename bak path else pure tt)) d)
  recover_case d true saved i e f = record {
    post = (i, sym (journal_present (node_at d path) (node_at d bak) e) ∙ i.0);
  }
  recover_case d false false i e f = record {
    post = (
      i,
      unreadable (node_at d path) e
          ∙ sym (unreadable (node_at d bak) f)
          ∙ sym (journal_absent (node_at d path) (node_at d bak) e)
          ∙ i.0,
    );
  }
  recover_case d false true i e f =
      rename_lem bak path d (λ _. i)
        λ node d' at law.
          let here : node_at d' path ≡ some node = law path ∙ rw (text_eq_refl path) refl in
          (
            recovered d d' node i e f at law,
            ap bytes_of here
                ∙ sym (ap bytes_of at)
                ∙ sym (journal_absent (node_at d path) (node_at d bak) e)
                ∙ i.0,
          )

  recover_lem :
      (d : Disk)
      → Old d
      → Ensures (λ _ d'. Old d' × Direct d') (λ _ d'. Old d') (recover_journal path d)
  unfolding recover_journal
  recover_lem d i = recover_split (is_there (node_at d path)) refl
    where
      recover_split :
          (there : Bool)
          → is_there (node_at d path) ≡ there
          → Ensures
              (λ _ d'. Old d' × Direct d')
              (λ _ d'. Old d')
              ((if there
                  then pure tt
                  else do saved ← exists bak; if saved then rename bak path else pure tt)
                d)
      recover_split true e = recover_case d true (is_there (node_at d bak)) i e refl
      recover_split false e = recover_case d false (is_there (node_at d bak)) i e refl

  resolve_lem :
      Ensures
        (λ full d. (full ≡ path) × Has start.nodes d)
        (λ _ d. Has start.nodes d)
        (resolve path start)
  unfolding resolve
  resolve_lem =
      elim (Bool-cases (
        is_empty path
        || starts_with (b'/' ∷ []) path
        || contains_char 0 path
        || any is_unsafe_segment (split b'/' path))) [
          | inl e ↦ rw e (record { post = refl })
          | inr e ↦ rw e (record { post = (refl, refl) })
        ]

  Old-of_Has : (d : Disk) → Has start.nodes d → Old d
  Old-of_Has d h =
      (λ i. journal_of (Map.get path (h i)) (Map.get bak (h i)), λ q a b c. ap (Map.get q) h)

  -- The start of `write` and `append`.
  pub prepared :
      {A : Type 0} {Q : A → Disk → Type 0} {R : IoError → Disk → Type 0} (rest : Text → Sys A)
      → All (λ d. node_at start d ≡ some folder) (ancestor_dirs path)
      → ((e : IoError) (d : Disk) → Old d → R e d)
      → ((d : Disk) → Old d → Direct d → Ensures Q R (rest path d))
      → Ensures Q R
          ((do full ← resolve path; ensure_parent_dir path; recover_journal full; rest full) start)
  prepared rest folders fails k =
      Ensures-continue (resolve path start) _
        (Ensures-weaken (resolve path start) resolve_lem (λ full d q. q)
          (λ e d q. fails e d (Old-of_Has d q)))
        λ full d q. rw (q.0) (
          Ensures-continue (ensure_parent_dir path d) _
            (Ensures-weaken (ensure_parent_dir path d)
              ((ensure_parent_dir-kept start.nodes path folders).preserved d q.1) (λ _ d1 h. h)
              (λ e d1 h. fails e d1 (Old-of_Has d1 h)))
            λ _ d1 h.
              Ensures-continue (recover_journal path d1) _
                (Ensures-weaken (recover_journal path d1) (recover_lem d1 (Old-of_Has d1 h))
                  (λ _ d2 i. i) (λ e d2 i. fails e d2 i))
                λ _ d2 i. k d2 i.0 i.1)

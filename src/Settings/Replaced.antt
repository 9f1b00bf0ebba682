-- ===== src/Settings/Replaced.antt =====
-- rust-client/src/settings.rs: `data.json` is replaced as a whole, whatever call of the operating
-- system fails, and a saved revision changes one field.
use obsidian_sync_engine.Base.{
  ◌>>=◌, Exec, ℕ, Text, Bytes, Option, true, Ensures-catch, to_bytes, codes, ◌≡◌, ◌≢◌, ◌⊎◌, inl,
  inr, refl, sym, ap, ◌∙◌, none, some, [], if◌then◌else◌, ◌==◌, Result, ok, err, catch, Ensures,
  Ensures-continue,
}
use obsidian_sync_engine.Base.Tests.{nat_eq, list_eq, text_eq_iff, text_eq_refl, text_ne_false}
use obsidian_sync_engine.Base.Utf8.{from_utf8}
use obsidian_sync_engine.Jsonl.{Codec}
use obsidian_sync_engine.Fs.Disk.{
  Disk, Node, file, folder, special, symlink, IoError, Sys, node_at, bytes_of, symlink_metadata,
  found, ticked,
}
use obsidian_sync_engine.Fs.Calls.{
  create, write_all, set_permissions, rename, read_bytes, with_mode, content_read,
}
use obsidian_sync_engine.Fs.Effects.{
  SameBeside, create_lem, write_all_lem, rename_lem, sync_all_lem,
}
use obsidian_sync_engine.Base.Map
use obsidian_sync_engine.Error.{Error}
use obsidian_sync_engine.Fs.Symlinks.{Ensures-call}
use obsidian_sync_engine.Fs.Local.{sync_parent}
use obsidian_sync_engine.Paths.{client_data_path}
use obsidian_sync_engine.Settings.{
  Object, Settings, unsigned, revision_key, find, put, patch, save_revision,
}
use obsidian_sync_engine.Settings.File.{
  context, labelled, sys, temporary, mode_kept, text_of, data_files, read_data, replace_data,
}
use obsidian_sync_engine.Settings.Patch.{find-put, IsPrinter, Replaces, patch_lem}

-- What an action on the disk ensures, with its error labelled.
Ensures-sys :
    {A : Type 0} {Q : A → Disk → Type 0} {R : Disk → Type 0} (label : Text) (m : Sys A) (d : Disk)
    → Ensures Q (λ _ d'. R d') (m d)
    → Ensures Q (λ _ d'. R d') (sys label m d)
Ensures-sys {A} {Q} {R} label m d h = by_result (m d) h
  where
    by_result :
        (r : Result IoError A × Disk)
        → Ensures Q (λ _ d'. R d') r
        → Ensures Q (λ _ d'. R d') (labelled label r)
    by_result (ok a, d') h = record { post = h.post }
    by_result (err e, d') h = record { post = h.post }

-- Runs that turn one property of the disk into another, or fail and leave a third.
record Steps (R P Q : Disk → Type 0) {E A : Type 0} (m : Exec E Disk A) : Type 0 where
  stepped : (d : Disk) → P d → Ensures (λ _ d'. Q d') (λ _ d'. R d') (m d)

module _ {R P Q Z : Disk → Type 0} where
  Steps-bind :
      {E A B : Type 0} {m : Exec E Disk A} {f : A → Exec E Disk B}
      → Steps R P Q m
      → ((a : A) → Steps R Q Z (f a))
      → Steps R P Z (m >>= f)
  Steps-bind {m} h k = record {
    stepped = λ d i. Ensures-continue (m d) _ (h.stepped d i) λ a d1 j. (k a).stepped d1 j;
  }

module _ {R P Q : Disk → Type 0} where
  Steps-sys :
      {A : Type 0} (label : Text) {m : Sys A}
      → ((d : Disk) → P d → Ensures (λ _ d'. Q d') (λ _ d'. R d') (m d))
      → Steps R P Q (sys label m)
  Steps-sys label {m} h = record { stepped = λ d i. Ensures-sys label m d (h d i) }

some_bytes : (a b : Bytes) → ◌≡◌ {A = Option Bytes} (some a) (some b) → a ≡ b
some_bytes a b h = cc

-- Setting a mode changes no bytes.
with_mode-bytes :
    (path : Text) (mode : ℕ) (o : Option Node) (d : Disk)
    → node_at d path ≡ o
    → (bytes_of (node_at (with_mode path mode o d) path) ≡ bytes_of o)
      × SameBeside path d (with_mode path mode o d)
with_mode-bytes path mode none d h = (ap bytes_of h, λ q _. refl)
with_mode-bytes path mode (some folder) d h = (ap bytes_of h, λ q _. refl)
with_mode-bytes path mode (some special) d h = (ap bytes_of h, λ q _. refl)
with_mode-bytes path mode (some (symlink target)) d h = (ap bytes_of h, λ q _. refl)
with_mode-bytes path mode (some (file content old mtime_ns)) d h = (
  ap bytes_of (Map.get-insert_self path (file content mode mtime_ns) d.nodes),
  λ q k. Map.get-insert_ne path q (file content mode mtime_ns) d.nodes k,
)

apart : temporary ≢ client_data_path
unfolding list_eq
apart h = let e : (temporary == client_data_path) ≡ true = (text_eq_iff _ _).1 h in cc e

module _ (start : Disk) where
  -- `data.json` holds the text, and beside it and its temporary file the disk is as at the start.
  abbrev pub Holds : Text → Disk → Type 0
  Holds t d =
      (bytes_of (node_at d client_data_path) ≡ some (to_bytes t))
      × ((q : Text) → client_data_path ≢ q → temporary ≢ q → node_at d q ≡ node_at start q)

  -- The temporary file holds the new text.
  abbrev Staged : Text → Text → Disk → Type 0
  Staged old new d = Holds old d × (bytes_of (node_at d temporary) ≡ some (to_bytes new))

  abbrev pub Either : Text → Text → Disk → Type 0
  Either old new d = Holds old d ⊎ Holds new d

  beside-Holds : (t : Text) (d d' : Disk) → Holds t d → SameBeside temporary d d' → Holds t d'
  beside-Holds t d d' h same =
      (ap bytes_of (same client_data_path apart) ∙ h.0, λ q a b. same q b ∙ h.1 q a b)

  module _ (old new : Text) where
    metadata-Holds :
        (d : Disk)
        → Holds old d
        → Ensures
            (λ _ d'. Holds old d')
            (λ _ d'. Either old new d')
            (catch {F = Error} (symlink_metadata client_data_path) d)
    unfolding symlink_metadata
    metadata-Holds d h =
        Ensures-catch {Q = λ _ d'. Holds old d'} {R = λ _ d'. Holds old d'}
          (symlink_metadata client_data_path) d
          (Ensures-call _ _ d (there (node_at d client_data_path)) (λ message fault. h))
          (λ _ _ k. k) (λ _ _ k. k)
      where
        there :
            (o : Option Node)
            → Ensures
                (λ _ d'. Holds old d')
                (λ _ d'. Holds old d')
                (found client_data_path o (ticked d))
        there none = record { post = h }
        there (some node) = record { post = h }

    create-Holds :
        (d : Disk)
        → Holds old d
        → Ensures
            (λ _ d'. Holds old d' × (bytes_of (node_at d' temporary) ≡ some []))
            (λ _ d'. Either old new d')
            (create temporary d)
    create-Holds d h =
        create_lem temporary d (λ _. inl h) (λ d1 e same. (beside-Holds old d d1 h same, e))

    write_all-Staged :
        (d : Disk)
        → Holds old d
        → bytes_of (node_at d temporary) ≡ some []
        → Ensures
            (λ _ d'. Staged old new d')
            (λ _ d'. Either old new d')
            (write_all temporary (to_bytes new) d)
    write_all-Staged d h empty =
        write_all_lem temporary (to_bytes new) d [] empty
          (λ d2 e same. (beside-Holds old d d2 h same, e))
          (λ _ n d2 e same. inl (beside-Holds old d d2 h same))

    set_permissions-Staged :
        (mode : ℕ) (d : Disk)
        → Staged old new d
        → Ensures
            (λ _ d'. Staged old new d')
            (λ _ d'. Either old new d')
            (set_permissions temporary mode d)
    unfolding set_permissions
    set_permissions-Staged mode d (h, e) =
        let (bytes, same) = with_mode-bytes temporary mode (node_at d temporary) (ticked d) refl in
        Ensures-call _ _ d
          (record {
            post = (
              beside-Holds old d (with_mode temporary mode (node_at d temporary) (ticked d)) h same,
              bytes ∙ e,
            );
          })
          (λ message fault. inl h)

    rename-Holds :
        (d : Disk)
        → Staged old new d
        → Ensures
            (λ _ d'. Holds new d')
            (λ _ d'. Either old new d')
            (rename temporary client_data_path d)
    rename-Holds d (h, staged) =
        rename_lem temporary client_data_path d (λ _. inl h)
          λ node d' e law.
            let here : node_at d' client_data_path ≡ some node =
              law client_data_path ∙ rw (text_eq_refl client_data_path) refl in
            (
              ap bytes_of here ∙ sym (ap bytes_of e) ∙ staged,
              λ q a b.
                  law q
                  ∙ rw (text_ne_false client_data_path q a, text_ne_false temporary q b)
                      (h.1 q a b),
            )

    sync-Holds :
        (d : Disk)
        → Holds new d
        → Ensures
            (λ _ d'. Holds new d')
            (λ _ d'. Either old new d')
            (sync_parent client_data_path d)
    unfolding sync_parent
    sync-Holds d h = sync_all_lem client_data_path d (λ _. inr h) h

    replaced :
        (vault : Text) → Steps (Either old new) (Holds old) (Holds new) (replace_data vault new)
    unfolding replace_data
    replaced vault =
        Steps-bind (record { stepped = metadata-Holds })
          λ mode.
            Steps-bind (Steps-sys (context vault (codes "writing ") temporary) create-Holds) λ _.
              Steps-bind (Steps-sys [] (λ d h. write_all-Staged d h.0 h.1)) λ _.
                Steps-bind (Steps-sys [] (set_permissions-Staged (mode_kept mode))) λ _.
                  Steps-bind (Steps-sys [] (λ d h. sync_all_lem temporary d (λ _. inl h.0) h)) λ _.
                    Steps-bind
                      (Steps-sys (context vault (codes "replacing ") client_data_path) rename-Holds)
                      λ _. Steps-sys [] sync-Holds

  read_bytes-Holds :
      (t : Text) (d : Disk)
      → Holds t d
      → Ensures
          (λ b d'. (b ≡ to_bytes t) × Holds t d')
          (λ _ d'. Holds t d')
          (read_bytes client_data_path d)
  unfolding read_bytes
  read_bytes-Holds t d h =
      Ensures-call _ _ d (by_bytes (bytes_of (node_at d client_data_path)) h.0) (λ message fault. h)
    where
      by_bytes :
          (o : Option Bytes)
          → o ≡ some (to_bytes t)
          → Ensures
              (λ b d'. (b ≡ to_bytes t) × Holds t d')
              (λ _ d'. Holds t d')
              (content_read client_data_path (node_at d client_data_path) o (ticked d))
      by_bytes none e = cc
      by_bytes (some b) e = record { post = (some_bytes b (to_bytes t) e, h) }

  -- What is read where the text is there and is UTF-8.
  read-Holds :
      (vault t : Text) (d : Disk)
      → from_utf8 (to_bytes t) ≡ some t
      → Holds t d
      → Ensures (λ t' d'. (t' ≡ t) × Holds t d') (λ _ d'. Holds t d') (read_data vault d)
  unfolding read_data
  read-Holds vault t d decodes h =
      let label : Text = context vault (codes "reading ") client_data_path in
      Ensures-continue (sys label (read_bytes client_data_path) d)
        (λ b. sys label (text_of (from_utf8 b)))
        (Ensures-sys label (read_bytes client_data_path) d (read_bytes-Holds t d h))
        λ b d1 (e, h1). rw (e, decodes) (record { post = (refl, h1) })

  module _ (vault : Text) (codec : Codec Object) (render : Object → Text) (P : Object → Type 0)
      (printer : IsPrinter codec render P) where
    data-Replaces :
        Replaces codec render P (data_files vault) Holds (λ t. from_utf8 (to_bytes t) ≡ some t)
    data-Replaces = record {
      on_read = λ t d decodes h. read-Holds vault t d decodes h;
      on_replace = λ old new d h. (replaced old new vault).stepped d h;
    }

    -- Whatever call of the operating system fails while a revision is saved, `data.json` holds the
    -- old object or the new one as a whole, and beside it and its temporary file nothing changes;
    -- where the method returns, the file and the settings have the revision. The new object has the
    -- revision, and at every other key what the old one had. The old text is assumed to be UTF-8
    -- that reads back.
    pub save_revision_lem :
        (object : Object) (revision : ℕ) (settings : Settings)
        → P object
        → P (put revision_key (unsigned revision) object)
        → from_utf8 (to_bytes (render object)) ≡ some (render object)
        → bytes_of (node_at start client_data_path) ≡ some (to_bytes (render object))
        → Ensures
            (λ settings' d'.
              (settings' ≡ record settings { revision = revision })
              × Holds (render (put revision_key (unsigned revision) object)) d')
            (λ _ d'.
              Either (render object) (render (put revision_key (unsigned revision) object)) d')
            (save_revision (data_files vault) codec revision settings start)
          × ((k : Text)
              → find k (put revision_key (unsigned revision) object)
                ≡ (if revision_key == k then some (unsigned revision) else find k object))
    unfolding save_revision
    save_revision_lem object revision settings old new decodes holds = (
      Ensures-continue (patch (data_files vault) codec revision_key (unsigned revision) start) _
          (patch_lem codec render P (data_files vault) Holds printer data-Replaces object old
            decodes revision_key (unsigned revision) start new (holds, λ q _ _. refl))
          (λ _ w1 q. record { post = (refl, q) }),
      λ k. find-put revision_key k (unsigned revision) object,
    )

-- ===== src/Tracker/Manifest.antt =====
-- rust-client/src/tracker.rs: the manifest survives a restart.
use obsidian_sync_engine.Base.{
  ℕ, Text, ◌≡◌, refl, ap, subst, ◌∙◌, sym, true, false, not, ◌&&◌, Option, some, ◌==◌, ok, arith,
  ◌>>◌, on_world, Ensures, Ensures-continue, Ensures-weaken, Ensures-on_world, inl, inr,
}
use obsidian_sync_engine.Base.Tests.{nat_eq, Bool-cases}
use obsidian_sync_engine.Base.Map.{is_some}
use obsidian_sync_engine.Error.{io, Ensures-io}
use obsidian_sync_engine.Fs.{SyncFs}
use obsidian_sync_engine.Fs.Contents.{HasContents}
use obsidian_sync_engine.Jsonl.{Codec}
use obsidian_sync_engine.Jsonl.Journal.{IsLawful}
use obsidian_sync_engine.Tracker
use obsidian_sync_engine.Tracker.{Tracker, ManifestFile, write_manifest, save, load}

-- What a tracker is saved as.
abbrev pub manifest_of : Tracker → ManifestFile
manifest_of t = record {
  version = Tracker.manifest_version;
  revision = t.revision;
  files = t.entries;
}

-- The tracker that `save` leaves.
abbrev pub saved : ℕ → Tracker → Tracker
saved revision t = record t { revision = revision; dirty = false }

module _ {S G : Type 0} (codec : Codec ManifestFile) (fs : SyncFs S)
    {content : S → Text → Option Text} {rest : S → G} (H : HasContents content rest fs) where
  -- The manifest on disk says what the tracker has.
  pub record IsOnDisk (t : Tracker) (s : S) : Type 0 where
    pub text : Text
    pub holds : content s t.path ≡ some text
    pub parses : codec.from_str text ≡ ok (manifest_of t)

  same_parse :
      (t : Tracker) (s s1 : S) (raw : Text) (d : IsOnDisk t s)
      → content s1 t.path ≡ some raw
      → content s1 t.path ≡ content s t.path
      → codec.from_str raw ≡ ok (manifest_of t)
  same_parse t s s1 raw d read same =
      let e : some raw ≡ some d.text = sym read ∙ same ∙ d.holds in
      let e' : raw ≡ d.text = cc e in ap codec.from_str e' ∙ d.parses

  load_lem :
      (t : Tracker) (s : S)
      → IsOnDisk t s
      → Ensures
          (λ o _. o ≡ some (record t { dirty = false }))
          (λ _ _. Unit {0})
          (load fs codec t.path s)
  unfolding load
  load_lem t s d =
      Ensures-continue (io (fs.exists t.path) s) _
        (Ensures-weaken (io (fs.exists t.path) s)
          (Ensures-io (fs.exists t.path) s (H.on_exists t.path s)) (λ b s1 q. q) (λ _ s1 q. tt))
        λ b s1 q. rw (q.0 ∙ ap is_some d.holds) (
          Ensures-continue (io (fs.read t.path) s1) _
            (Ensures-weaken (io (fs.read t.path) s1)
              (Ensures-io (fs.read t.path) s1 (H.on_read t.path s1)) (λ raw s2 r. r) (λ _ s2 r. tt))
            λ raw s2 r.
              rw (same_parse t s s1 raw d r.0 (q.1.files t.path)) (record { post = refl }))

  module _ {P : ManifestFile → Type 0} {render : ManifestFile → Text}
      (L : IsLawful codec P render) where
    write_manifest_lem :
        (revision : ℕ) (t : Tracker) (s : S)
        → P (manifest_of (saved revision t))
        → Ensures
            (λ _ s'. IsOnDisk (saved revision t) s')
            (λ _ _. Unit {0})
            (write_manifest fs codec revision t s)
    write_manifest_lem revision t s printable =
        let m = manifest_of (saved revision t) in
        rw (L.prints m printable) (
          Ensures-weaken (io (fs.write t.path (render m)) s)
            (Ensures-io (fs.write t.path (render m)) s (H.on_write t.path (render m) s))
            (λ _ s1 q. record { text = render m; holds = q.0; parses = L.parses m printable })
            (λ _ s1 q. tt))

    written :
        (revision : ℕ) (t : Tracker) (s : S)
        → P (manifest_of (saved revision t))
        → Ensures
            (λ _ s'. (s'.0 ≡ t) × IsOnDisk (saved revision t) s'.1)
            (λ _ _. Unit {0})
            (on_world (write_manifest fs codec revision t) (t, s))
    written revision t s printable =
        Ensures-on_world t (write_manifest fs codec revision t) s
          (write_manifest_lem revision t s printable) (λ _ s1 q. (refl, q)) (λ _ s1 q. tt)

    unchanged_lem :
        (revision : ℕ) (t : Tracker)
        → (not t.dirty && t.revision == revision) ≡ true
        → (t.dirty ≡ false) × (t ≡ saved revision t)
    unchanged_lem revision t h =
        let flag : t.dirty ≡ false = ground arith in
        let same : t.revision ≡ revision = ground arith in
        (flag, λ i. record t { revision = same i; dirty = flag i })

    IsOnDisk-save :
        (revision : ℕ) (t : Tracker) (s : S)
        → (t.dirty ≡ false → IsOnDisk t s)
        → P (manifest_of (saved revision t))
        → Ensures
            (λ _ s'. (s'.0 ≡ saved revision t) × IsOnDisk (saved revision t) s'.1)
            (λ _ _. Unit {0})
            (save fs codec revision (t, s))
    unfolding save
    IsOnDisk-save revision t s clean printable =
        elim (Bool-cases (not t.dirty && t.revision == revision)) [
          | inl unchanged ↦
              let (flag, same) = unchanged_lem revision t unchanged in
              rw unchanged (record { post = (same, subst (λ u. IsOnDisk u s) same (clean flag)) })
          | inr changed ↦ rw changed (
              Ensures-continue (on_world (write_manifest fs codec revision t) (t, s)) _
                (written revision t s printable)
                λ _ s1 q. record { post = (ap (saved revision) q.0, q.1) })
        ]

    pub load-save :
        (revision : ℕ) (t : Tracker) (s : S)
        → (t.dirty ≡ false → IsOnDisk t s)
        → P (manifest_of (saved revision t))
        → Ensures
            (λ o _. o ≡ some (saved revision t))
            (λ _ _. Unit {0})
            ((save fs codec revision >> on_world (load fs codec t.path)) (t, s))
    load-save revision t s clean printable =
        Ensures-continue (save fs codec revision (t, s)) _
          (IsOnDisk-save revision t s clean printable)
          λ _ s1 q.
            Ensures-on_world (s1.0) (load fs codec t.path) (s1.1)
              (load_lem (saved revision t) s1.1 q.1) (λ o s2 r. r) (λ _ s2 r. tt)

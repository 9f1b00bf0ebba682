-- ===== src/Cli/Compared.antt =====
-- rust-client/src/cli.rs: what `verify_all` finds out, where nothing else changes the disk or the
-- server's log while it runs.
use obsidian_sync_engine.Base.{
  ℕ, Text, Bytes, Bool, true, false, ◌≡◌, refl, sym, ap, ◌∙◌, ◌⊎◌, inl, inr, ◌≤◌, ◌+◌, Option, none,
  some, List, [], ◌∷◌, ◌==◌, Result, ok, err, catch, Ensures, Ensures-continue, Ensures-weaken,
  Ensures-catch, arith, length, length-append, All,
}
use obsidian_sync_engine.Base.Tests.{Bool-cases, text_eq_iff, nat_eq, list_eq}
use obsidian_sync_engine.Base.Map.{is_some}
use obsidian_sync_engine.Error.{is_remote_file_not_found, Error, io, Ensures-io}
use obsidian_sync_engine.Fs.{SyncFs, PathStat, sha256_hex}
use obsidian_sync_engine.Engine.State.{Transport}
use obsidian_sync_engine.Cli.Verify.{
  Compared, compare_each, compare_local, compare_download, described, describe_local, differs,
  lacks,
}

-- `Some(PathStat::File { .. })`
abbrev pub is_file : Option PathStat → Bool
is_file (some (PathStat.file size mtime_ns)) = true
is_file _ = false

abbrev pub count : Compared → ℕ
count c = length c.missing + length c.different

count-differs : (c : Compared) (path : Text) → count (differs c path) ≡ count c + 1
count-differs c path = rw (length-append c.different (path ∷ [])) (omega arith)

count-lacks : (c : Compared) (path : Text) → count (lacks c path) ≡ count c + 1
count-lacks c path = rw (length-append c.missing (path ∷ [])) (omega arith)

is_some-false : (o : Option Text) → is_some o ≡ false → o ≡ none
is_some-false none h = refl
is_some-false (some t) h = ground arith

module _ (digest : Bytes → Bytes) (local : Text → Option Text) (remote : Text → Option Bytes) where
  -- The file at the path has the hash of the server's copy.
  abbrev pub Agrees : Text → Type 0
  Agrees path =
      (bytes : Bytes) × (remote path ≡ some bytes) × (local path ≡ some (sha256_hex digest bytes))

  -- What the rounds for these paths make of the lists.
  pub record Finds (paths : List Text) (c c' : Compared) : Type 0 where
    pub bounded : count c' ≤ count c + length paths
    pub complete : count c' ≡ 0 → (count c ≡ 0) × All Agrees paths
    pub sound : All Agrees paths → c' ≡ c

  module _ {W : Type 0} (Inv : W → Type 0) where
    -- While the world satisfies `Inv`, `local` is the hash of each file and `remote` the server's
    -- copy; reading keeps it so.
    pub record Shows (fs : SyncFs W) (transport : Transport W) : Type 0 where
      pub on_stat :
          (p : Text) (w : W)
          → Inv w
          → Ensures
              (λ o w'. Inv w' × (is_file o ≡ is_some (local p)))
              (λ _ w'. Inv w')
              (fs.stat p w)
      pub on_hash_file :
          (p : Text) (w : W)
          → Inv w
          → Ensures (λ h w'. Inv w' × (local p ≡ some h)) (λ _ w'. Inv w') (fs.hash_file p w)
      pub on_download :
          (p : Text) (w : W)
          → Inv w
          → Ensures
              (λ b w'. Inv w' × (remote p ≡ some b))
              (λ e w'. Inv w' × ((is_remote_file_not_found e ≡ false) ⊎ (remote p ≡ none)))
              (transport.download p w)

    module _ (fs : SyncFs W) (transport : Transport W) (shows : Shows fs transport) where
      Found : Text → Result Error Bytes → Type 0
      Found p (ok b) = remote p ≡ some b
      Found p (err e) = (is_remote_file_not_found e ≡ false) ⊎ (remote p ≡ none)

      -- The path does not agree, and is listed.
      Finds-listed :
          (p : Text) (c c' : Compared)
          → count c' ≡ count c + 1
          → (Agrees p → ⊥)
          → Finds (p ∷ []) c c'
      Finds-listed p c c' h k = record {
        bounded = omega arith;
        complete = λ e. absurd (omega arith);
        sound = λ (a, _). absurd (k a);
      }

      no_copy : (p : Text) → remote p ≡ none → Agrees p → ⊥
      no_copy p h (b, e, _) = ground arith

      other_copy :
          (p hash : Text) (b : Bytes)
          → local p ≡ some hash
          → remote p ≡ some b
          → (sha256_hex digest b == hash) ≡ false
          → Agrees p
          → ⊥
      other_copy p hash b h e ne (b', e', h') =
          let same_bytes : b ≡ b' = ground (arith, e, e') in
          let same_hash : sha256_hex digest b ≡ hash = cc in
          let equal : (sha256_hex digest b == hash) ≡ true = (text_eq_iff _ _).1 same_hash in
          ground arith

      no_file : (p : Text) → local p ≡ none → Agrees p → ⊥
      no_file p h (b, _, e) = ground arith

      compare_download_lem :
          (c : Compared) (p hash : Text) (r : Result Error Bytes) (w : W)
          → local p ≡ some hash
          → Inv w
          → Found p r
          → Ensures
              (λ c' w'. Inv w' × Finds (p ∷ []) c c')
              (λ _ w'. Inv w')
              (compare_download digest fs transport c p hash r w)
      unfolding compare_download Found
      compare_download_lem c p hash (ok b) w h i f =
          elim (Bool-cases (sha256_hex digest b == hash)) [
            | inl equal ↦
                let agreed : Agrees p = (b, f, h ∙ ap some (sym ((text_eq_iff _ _).0 equal))) in
                rw equal (record {
                  post = (
                    i,
                    record {
                      bounded = omega arith;
                      complete = λ e. (e, (agreed, tt));
                      sound = λ _. refl;
                    },
                  );
                })
            | inr unequal ↦ rw unequal (record {
              post = (
                i,
                Finds-listed p c (differs c p) (count-differs c p)
                    (other_copy p hash b h f unequal),
              );
            })
          ]
      compare_download_lem c p hash (err e) w h i f =
          elim (Bool-cases (is_remote_file_not_found e)) [
            | inl absent ↦ rw absent (record {
              post = (
                i,
                Finds-listed p c _ (count-differs c _)
                    (elim f [ inl present ↦ ground arith | inr gone ↦ no_copy p gone ]),
              );
            })
            | inr failed ↦ rw failed (record { post = i })
          ]

      compare_local_lem :
          (c : Compared) (p : Text) (o : Option Text) (w : W)
          → local p ≡ o
          → Inv w
          → Ensures
              (λ c' w'. Inv w' × Finds (p ∷ []) c c')
              (λ _ w'. Inv w')
              (compare_local digest fs transport c p o w)
      unfolding compare_local Found
      compare_local_lem c p none w h i = record {
        post = (i, Finds-listed p c (lacks c p) (count-lacks c p) (no_file p h));
      }
      compare_local_lem c p (some hash) w h i =
          Ensures-continue (catch (transport.download p) w) _
            (Ensures-catch {Q' = λ r w'. Inv w' × Found p r} (transport.download p) w
              (shows.on_download p w i) (λ b w' h. h) (λ e w' h. h))
            λ r w' (i', f). compare_download_lem c p hash r w' h i' f

      described_lem :
          (p : Text) (o : Option PathStat) (w : W)
          → is_file o ≡ is_some (local p)
          → Inv w
          → Ensures
              (λ o w'. Inv w' × (local p ≡ o))
              (λ _ w'. Inv w')
              (described digest fs transport p o w)
      described_lem p none w e i = record { post = (i, is_some-false (local p) (sym e)) }
      described_lem p (some PathStat.dir) w e i = record {
        post = (i, is_some-false (local p) (sym e));
      }
      described_lem p (some PathStat.other) w e i = record {
        post = (i, is_some-false (local p) (sym e));
      }
      described_lem p (some (PathStat.file size mtime_ns)) w e i =
          Ensures-continue (io (fs.hash_file p) w) _
            (Ensures-io (fs.hash_file p) w (shows.on_hash_file p w i))
            λ h w' (i', e'). record { post = (i', e') }

      describe_local_lem :
          (p : Text) (w : W)
          → Inv w
          → Ensures
              (λ o w'. Inv w' × (local p ≡ o))
              (λ _ w'. Inv w')
              (describe_local digest fs transport p w)
      unfolding describe_local
      describe_local_lem p w i =
          Ensures-continue (io (fs.stat p) w) _ (Ensures-io (fs.stat p) w (shows.on_stat p w i))
            λ o w' (i', e). described_lem p o w' e i'

      Finds-cons :
          (p : Text) (ps : List Text) (c c1 c2 : Compared)
          → Finds (p ∷ []) c c1
          → Finds ps c1 c2
          → Finds (p ∷ ps) c c2
      Finds-cons p ps c c1 c2 h k = record {
        bounded = let a = h.bounded in let b = k.bounded in omega arith;
        complete =
            λ e. let (z, all) = k.complete e in let (z', (a, _)) = h.complete z in (z', (a, all));
        sound = λ (a, all). k.sound all ∙ h.sound (a, tt);
      }

      -- The loop over these paths keeps what it reads. The two lists grow by no more than the
      -- number of the paths; they are empty in the end exactly if they were empty and the file at
      -- each path is there with the hash of the server's copy.
      pub compare_each_lem :
          (c : Compared) (paths : List Text) (w : W)
          → Inv w
          → Ensures
              (λ c' w'. Inv w' × Finds paths c c')
              (λ _ w'. Inv w')
              (compare_each digest fs transport c paths w)
      unfolding compare_each
      compare_each_lem c [] w i = record {
        post = (i, record { bounded = omega arith; complete = λ e. (e, tt); sound = λ _. refl });
      }
      compare_each_lem c (p ∷ ps) w i =
          Ensures-continue (describe_local digest fs transport p w) _ (describe_local_lem p w i)
            λ o w1 (i1, e).
              Ensures-continue (compare_local digest fs transport c p o w1) _
                (compare_local_lem c p o w1 e i1)
                λ c1 w2 (i2, f).
                  Ensures-weaken (compare_each digest fs transport c1 ps w2)
                    (compare_each_lem c1 ps w2 i2)
                    (λ c2 w3 (i3, g). (i3, Finds-cons p ps c c1 c2 f g)) (λ _ w3 i3. i3)

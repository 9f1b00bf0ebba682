-- ===== src/Cli/InSync.antt =====
-- rust-client/src/cli.rs: what it means that `verify` of the whole vault ends well.
use obsidian_sync_engine.Base.{
  ◌+◌, ℕ, Text, Bytes, true, false, ◌&&◌, ◌≡◌, refl, ◌⊎◌, inl, inr, Option, List, [], ◌∷◌,
  if◌then◌else◌, ◌==◌, Ensures, Ensures-continue, Ensures-weaken, arith, length, All, TextMap,
  subst, sym, for_each, ◌>>=◌, is_empty, pure, fail, ◌-◌, ltb, codes, ◌++◌,
}
use obsidian_sync_engine.Base.Tests.{Bool-cases, text_eq_iff, nat_eq, list_eq}
use obsidian_sync_engine.Base.Map
use obsidian_sync_engine.Base.Map.{is_some, get, insert, get-insert, keys, contains_key}
use obsidian_sync_engine.Base.Preserves.{Preserves, Preserves-pure, Preserves-bind, Preserves-if}
use obsidian_sync_engine.Error.{other, Any, io, Ensures-io}
use obsidian_sync_engine.Fs.{SyncFs}
use obsidian_sync_engine.Op.{OpKind, InboxOp, op_eq}
use obsidian_sync_engine.Engine.State.{Transport}
use obsidian_sync_engine.Cli.Verify.{
  Compared, nothing_found, live_from, add_live, is_put, say, say_number, tip_of, more_than, report,
  conclude, compare_each, only_local, verify_ops, verify_all, first_of,
}
use obsidian_sync_engine.Cli.Compared.{Agrees, Shows, count, compare_each_lem}

delete_kind : (k : OpKind) → (k == OpKind.put) ≡ false → k ≡ OpKind.delete
delete_kind k h = ground arith

empty-count : (c : Compared) → is_empty c.missing && is_empty c.different ≡ true → count c ≡ 0
empty-count c h = by_lists c.missing c.different h
  where
    by_lists : (ms ds : List Text) → is_empty ms && is_empty ds ≡ true → length ms + length ds ≡ 0
    by_lists [] [] h = refl
    by_lists [] (d ∷ ds) h = ground arith
    by_lists (m ∷ ms) ds h = ground arith

All-key {κ} :
    {V : Type 0} (P : Text → Type κ) (k : Text) (m : TextMap V)
    → All P (keys m)
    → is_some (get k m) ≡ true
    → P k
unfolding get
All-key P k [] a h = ground arith
All-key P k ((j, v) ∷ m) (a, all) h = elim (Bool-cases (j == k)) [
  | inl same ↦ subst P ((text_eq_iff j k).0 same) a
  | inr apart ↦ All-key P k m all (let h' = rw apart at h in h')
]

insert-is_some :
    {V : Type 0} (k j : Text) (v : V) (m : TextMap V)
    → is_some (get k m) ≡ true
    → is_some (get k (insert j v m)) ≡ true
insert-is_some k j v m h =
    rw (get-insert)
      (elim (Bool-cases (j == k)) [ inl same ↦ rw same refl | inr apart ↦ rw apart h ])

add_live-is_some :
    (k : Text) (m : TextMap ℕ) (op : InboxOp)
    → is_some (get k m) ≡ true
    → is_some (get k (add_live m op)) ≡ true
add_live-is_some k m op h = elim (Bool-cases (is_put op)) [
  | inl put ↦ rw put (insert-is_some k op.path op.rev m h)
  | inr delete ↦ rw delete h
]

-- A key stays a key.
live_from-is_some :
    (k : Text) (ops : List InboxOp) (m : TextMap ℕ)
    → is_some (get k m) ≡ true
    → is_some (get k (live_from m ops)) ≡ true
unfolding live_from
live_from-is_some k [] m h = h
live_from-is_some k (op ∷ ops) m h =
    live_from-is_some k ops (add_live m op) (add_live-is_some k m op h)

module _ (digest : Bytes → Bytes) (local : Text → Option Text) (remote : Text → Option Bytes) where
  -- A file of the server is on the disk with the same hash.
  abbrev pub IsInSync : InboxOp → Type 0
  IsInSync op = (op.op ≡ OpKind.delete) ⊎ Agrees digest local remote op.path

  live_from-IsInSync :
      (ops : List InboxOp) (m : TextMap ℕ)
      → All (Agrees digest local remote) (keys (live_from m ops))
      → All IsInSync ops
  unfolding live_from
  live_from-IsInSync [] m all = tt
  live_from-IsInSync (op ∷ ops) m all =
      (in_sync (Bool-cases (is_put op)), live_from-IsInSync ops (add_live m op) all)
    where
      in_sync : (is_put op ≡ true) ⊎ (is_put op ≡ false) → IsInSync op
      in_sync (inl put) = inr (
          All-key (Agrees digest local remote) op.path (live_from (add_live m op) ops) all (
            live_from-is_some op.path ops (add_live m op)
              (rw put (rw (Map.get-insert_self op.path op.rev m) refl))))
      in_sync (inr apart) = inl (delete_kind op.op apart)

  module _ {W : Type 0} (Inv : W → Type 0) (fs : SyncFs W) (transport : Transport W)
      (println : Text → W → W) (prints : (t : Text) (w : W) → Inv w → Inv (println t w)) where
    Preserves-say : (t : Text) → Preserves Inv (say println t)
    Preserves-say t = record { preserved = λ w i. record { post = prints t w i } }

    Preserves-say_number : (label : Text) (n : ℕ) → Preserves Inv (say_number println label n)
    Preserves-say_number label n = record { preserved = λ w i. record { post = prints _ w i } }

    Preserves-more_than : (n : ℕ) → Preserves Inv (more_than println n)
    Preserves-more_than n = Preserves-if (ltb 40 n) (Preserves-say _) (Preserves-pure tt)

    Preserves-lines :
        (paths : List Text)
        → Preserves Inv (for_each paths (λ path. say println (codes "  " ++ path)))
    unfolding for_each
    Preserves-lines [] = Preserves-pure tt
    Preserves-lines (path ∷ paths) =
        Preserves-bind (Preserves-say (codes "  " ++ path)) λ _. Preserves-lines paths

    Preserves-report :
        (label : Text) (paths : List Text) → Preserves Inv (report println label paths)
    unfolding report
    Preserves-report label paths =
        Preserves-bind (Preserves-say_number (label ++ (b' ' ∷ [])) (length paths)) λ _.
          Preserves-bind (Preserves-lines (first_of 40 paths))
            λ _. Preserves-more_than (length paths)

    after :
        {A B : Type 0} {Q : B → W → Type 0} (m : Any W A) (f : A → Any W B)
        → Preserves Inv m
        → ((a : A) (w : W) → Inv w → Ensures Q (λ _ w'. Inv w') (f a w))
        → (w : W) → Inv w
        → Ensures Q (λ _ w'. Inv w') ((m >>= f) w)
    after m f h k w i = Ensures-continue (m w) f (h.preserved w i) k

    conclude_lem :
        (ops : List InboxOp) (live : TextMap ℕ) (c : Compared) (extra : List Text) (w : W)
        → Inv w
        → Ensures
            (λ _ w'. Inv w' × (count c ≡ 0))
            (λ _ w'. Inv w')
            (conclude println ops live c extra w)
    unfolding conclude
    conclude_lem ops live c extra =
        after (say_number println (codes "server tip:      ") (tip_of 0 ops)) _
          (Preserves-say_number (codes "server tip:      ") (tip_of 0 ops))
          λ _.
            after (say_number println (codes "server files:    ") (length live)) _
              (Preserves-say_number (codes "server files:    ") (length live))
              λ _.
                after (say_number println (codes "tombstones:      ") (length ops - length live)) _
                  (Preserves-say_number (codes "tombstones:      ") (length ops - length live))
                  λ _.
                    after
                      (say_number println (codes "byte-identical:  ")
                        (length live - length c.missing - length c.different))
                      _
                      (Preserves-say_number (codes "byte-identical:  ")
                        (length live - length c.missing - length c.different))
                      λ _.
                        after (report println (codes "missing on disk:") c.missing) _
                          (Preserves-report (codes "missing on disk:") c.missing)
                          λ _.
                            after (report println (codes "differ on disk: ") c.different) _
                              (Preserves-report (codes "differ on disk: ") c.different)
                              λ _.
                                after (report println (codes "only on disk:   ") extra) _
                                  (Preserves-report (codes "only on disk:   ") extra) λ _. verdict
      where
        verdict :
            (w : W)
            → Inv w
            → Ensures
                (λ _ w'. Inv w' × (count c ≡ 0))
                (λ _ w'. Inv w')
                ((if is_empty c.missing && is_empty c.different
                    then pure tt
                    else fail (other (codes "disk and server differ")))
                  w)
        verdict w i = elim (Bool-cases (is_empty c.missing && is_empty c.different)) [
          | inl clean ↦ rw clean (record { post = (i, empty-count c clean) })
          | inr dirty ↦ rw dirty (record { post = i })
        ]

    module _ (ops : List InboxOp) (shows : Shows digest local remote Inv fs transport)
        (fetches : (w : W)
          → Inv w
          → Ensures
              (λ fetched w'. Inv w' × (fetched ≡ ops))
              (λ _ w'. Inv w')
              (transport.fetch_inbox 0 w))
        (lists : Preserves Inv (fs.list_files_under [])) where
      verify_ops_lem :
          (w : W)
          → Inv w
          → Ensures
              (λ _ w'. Inv w' × All IsInSync ops)
              (λ _ w'. Inv w')
              (verify_ops digest fs transport println ops w)
      unfolding verify_ops
      verify_ops_lem w i =
          Ensures-continue
            (compare_each digest fs transport nothing_found (keys (live_from [] ops)) w) _
            (compare_each_lem digest local remote Inv fs transport shows nothing_found
              (keys (live_from [] ops)) w i)
            λ c w1 (i1, f).
              Ensures-continue (io (fs.list_files_under []) w1) _
                (Ensures-io (fs.list_files_under []) w1 (lists.preserved w1 i1))
                λ paths w2 i2.
                  Ensures-weaken
                    (conclude println ops (live_from [] ops) c (only_local (live_from [] ops) paths)
                      w2)
                    (conclude_lem ops (live_from [] ops) c (only_local (live_from [] ops) paths) w2
                      i2)
                    (λ _ w3 (i3, e). (i3, live_from-IsInSync ops [] (f.complete e).1))
                    (λ _ w3 i3. i3)

      -- While only the client writes, `verify` of the whole vault changes nothing that it reads,
      -- and where it ends without an error, each file that the server's log lists as put is on the
      -- disk with the hash of the server's copy.
      pub verify_all_lem :
          (w : W)
          → Inv w
          → Ensures
              (λ _ w'. Inv w' × All IsInSync ops)
              (λ _ w'. Inv w')
              (verify_all digest fs transport println w)
      unfolding verify_all
      verify_all_lem w i =
          Ensures-continue (transport.fetch_inbox 0 w) _ (fetches w i) λ fetched w1 (i1, e).
            subst
              (λ listed.
                Ensures (λ _ w'. Inv w' × All IsInSync ops) (λ _ w'. Inv w')
                  (verify_ops digest fs transport println listed w1))
              (sym e) (verify_ops_lem w1 i1)

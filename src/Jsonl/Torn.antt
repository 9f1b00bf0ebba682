-- ===== src/Jsonl/Torn.antt =====
-- rust-client/src/jsonl.rs: journals with a line that does not parse.
use mathlib.Core.Option.{some-injective}
use obsidian_sync_engine.Base.{
  ℕ, ◌+◌, Text, codes, contains_char, is_blank, Bool, true, false, ◌≡◌, ◌≢◌, ◌⊎◌, inl, inr, refl,
  Option, none, some, List, [], ◌∷◌, ◌++◌, arith, if◌then◌else◌, ◌==◌, map, length, length-append,
  All, err, Ensures, Ensures-continue, Ensures-weaken, ◌∙◌, ap, sym, pure, fail, length-map,
}
use obsidian_sync_engine.Base.Tests.{nat_eq}
use obsidian_sync_engine.Base.Map.{is_some}
use obsidian_sync_engine.Error.{Error, io, Ensures-io}
use obsidian_sync_engine.Fs.{SyncFs}
use obsidian_sync_engine.Fs.Contents.{or_empty, Same, HasContents, Same-trans}
use obsidian_sync_engine.Jsonl.{
  Codec, middle_error, with_newline, non_empty_lines, write_lines, read_or_empty, quarantine_tail,
  parse_lines, read_lines,
}
use obsidian_sync_engine.Jsonl.Journal.{
  IsLawful, journal_text, split-append, split_whole, non_empty_lines-journal, parse_lines-append,
  write_lines-Holds,
}

nothing_there : (o : Option Text) → false ≡ is_some o → [] ≡ or_empty o
nothing_there none e = refl
nothing_there (some t) e = cc

append-ne_self : (t u : Text) (c : ℕ) → t ++ (c ∷ u) ≢ t
append-ne_self t u c e = absurd (omega (arith, ap length e, length-append t (c ∷ u)))

not_last :
    {T : Type 0} (render : T → Text) (vs : List T) (bad : Text) (lines : List Text)
    → lines ≢ []
    → (0 + length vs + 1 == length (map render vs ++ (bad ∷ lines))) ≡ false
not_last render vs bad [] h = absurd (h refl)
not_last render vs bad (l ∷ lines) h =
    ground (arith, length-append (map render vs) (bad ∷ l ∷ lines), length-map render vs)

is_last :
    {T : Type 0} (render : T → Text) (vs : List T) (bad : Text)
    → (0 + length vs + 1 == length (map render vs ++ (bad ∷ []))) ≡ true
is_last render vs bad =
    ground (arith, length-append (map render vs) (bad ∷ []), length-map render vs)

module _ {T : Type 0} {codec : Codec T} {P : T → Type 0} {render : T → Text}
    (L : IsLawful codec P render) where
  lines_middle :
      (vs : List T) (bad text : Text)
      → All P vs
      → contains_char b'\n' bad ≡ false
      → is_blank bad ≡ false
      → non_empty_lines (journal_text render vs ++ (bad ++ (b'\n' ∷ text)))
        ≡ map render vs ++ (bad ∷ non_empty_lines text)
  lines_middle vs bad text h one solid =
      rw (non_empty_lines-journal L vs (bad ++ (b'\n' ∷ text)) h, split-append b'\n' bad text one)
        (rw solid)

  lines_torn :
      (vs : List T) (torn : Text)
      → All P vs
      → contains_char b'\n' torn ≡ false
      → is_blank torn ≡ false
      → non_empty_lines (journal_text render vs ++ torn) ≡ map render vs ++ (torn ∷ [])
  lines_torn vs torn h one solid =
      rw (non_empty_lines-journal L vs torn h, split_whole b'\n' torn one) (rw solid)

module _ {T S G : Type 0} {codec : Codec T} {P : T → Type 0} {render : T → Text}
    (L : IsLawful codec P render) (fs : SyncFs S) (path : Text) {content : S → Text → Option Text}
    {rest : S → G} (H : HasContents content rest fs) where
  -- Reading a file that is there comes down to the loop over its lines.
  read_lines-some :
      {Q : List T → S → Type 0} {R : S → Type 0} (text : Text) (s : S)
      → content s path ≡ some text
      → ((s' : S)
          → Same content rest s s'
          → Ensures Q
              (λ _ s''. R s'')
              (parse_lines fs codec path
                (length (non_empty_lines text))
                0
                []
                (non_empty_lines text)
                s'))
      → ((s' : S) → Same content rest s s' → R s')
      → Ensures Q (λ _ s'. R s') (read_lines fs codec path s)
  unfolding read_lines
  read_lines-some text s e k fails =
      Ensures-continue (io (fs.exists path) s) _
        (Ensures-weaken (io (fs.exists path) s) (Ensures-io (fs.exists path) s (H.on_exists path s))
          (λ b s' q. q) (λ _ s' q. fails s' q))
        λ b s' q. rw (q.0 ∙ ap is_some e) (
          Ensures-continue (io (fs.read path) s') _
            (Ensures-weaken (io (fs.read path) s')
              (Ensures-io (fs.read path) s' (H.on_read path s')) (λ t s'' r. r)
              (λ _ s'' r. fails s'' (Same-trans q.1 r)))
            λ t s'' r.
              rw (some-injective t text (sym r.0 ∙ q.1.files path ∙ e))
                (k s'' (Same-trans q.1 r.1)))

  -- The lines of a file that holds a journal, a line that does not parse, and more.
  module _ (vs : List T) (bad : Text) (e : Error) (h : All P vs)
      (fails : codec.from_str bad ≡ err e) where
    parse_lines_bad :
        (total : ℕ) (lines : List Text) (s : S)
        → parse_lines fs codec path total 0 [] (map render vs ++ (bad ∷ lines)) s
          ≡ (if 0 + length vs + 1 == total
                then quarantine_tail fs codec path bad vs
                else fail (middle_error path (0 + length vs + 1)))
              s
    parse_lines_bad total lines s =
        parse_lines-append L fs path total 0 [] vs (bad ∷ lines) s h
        ∙ unfold parse_lines in rw (fails, parse_lines)

  -- With a codec that reads back what it prints and files that keep their contents, a line that
  -- does not parse and has another behind it is an error, and no file changes.
  pub read_lines_corrupt_middle :
      (vs : List T) (bad text : Text) (s : S) (e : Error)
      → All P vs
      → content s path ≡ some (journal_text render vs ++ (bad ++ (b'\n' ∷ text)))
      → contains_char b'\n' bad ≡ false
      → is_blank bad ≡ false
      → codec.from_str bad ≡ err e
      → non_empty_lines text ≢ []
      → Ensures (λ _ _. ⊥) (λ _ s'. Same content rest s s') (read_lines fs codec path s)
  read_lines_corrupt_middle vs bad text s e h holds one solid fails more =
      read_lines-some _ s holds
        (λ s' same.
          rw (lines_middle L vs bad text h one solid, parse_lines_bad vs bad e h fails)
            (rw (not_last render vs bad (non_empty_lines text) more) (record { post = same })))
        (λ s' same. same)

  abbrev corrupt : Text
  corrupt = path ++ codes ".corrupt"

  read_if :
      (q : Text) (s s' : S) (b : Bool)
      → (b ≡ is_some (content s q)) × Same content rest s s'
      → Ensures
          (λ t s''. (t ≡ or_empty (content s q)) × Same content rest s s'')
          (λ _ s''. Same content rest s s'')
          ((if b then io (fs.read q) else pure []) s')
  read_if q s s' false (e, same) = record { post = (nothing_there (content s q) e, same) }
  read_if q s s' true (e, same) =
      Ensures-weaken (io (fs.read q) s') (Ensures-io (fs.read q) s' (H.on_read q s'))
        (λ t s'' r. (ap or_empty (sym r.0 ∙ same.files q), Same-trans same r.1))
        (λ _ s'' r. Same-trans same r)

  read_or_empty_lem :
      (q : Text) (s : S)
      → Ensures
          (λ t s'. (t ≡ or_empty (content s q)) × Same content rest s s')
          (λ _ s'. Same content rest s s')
          (read_or_empty fs q s)
  unfolding read_or_empty
  read_or_empty_lem q s =
      Ensures-continue (io (fs.exists q) s) _ (Ensures-io (fs.exists q) s (H.on_exists q s))
        λ b s' r. read_if q s s' b r

  -- What a reader of a torn journal leaves: the whole lines, and the torn one in quarantine.
  pub record Repaired (vs : List T) (torn : Text) (s s' : S) : Type 0 where
    pub kept : content s' path ≡ some (journal_text render vs)
    pub moved :
        content s' corrupt
        ≡ some (with_newline (or_empty (content s corrupt)) ++ (torn ++ (b'\n' ∷ [])))
    pub others : rest s' ≡ rest s

  -- After an error the journal holds the old text or the whole lines.
  pub record HalfRepaired (vs : List T) (s s' : S) : Type 0 where
    pub kept :
        (content s' path ≡ content s path) ⊎ (content s' path ≡ some (journal_text render vs))
    pub others : rest s' ≡ rest s

  corrupt-ne : corrupt ≢ path
  corrupt-ne = append-ne_self path (codes "corrupt") b'.'

  cc_or :
      {s t u : S} {o : Option Text}
      → content t path ≡ content s path
      → (content u path ≡ content t path) ⊎ (content u path ≡ o)
      → (content u path ≡ content s path) ⊎ (content u path ≡ o)
  cc_or e (inl f) = inl (f ∙ e)
  cc_or e (inr f) = inr f

  Repaired-after :
      (vs : List T) (torn : Text) {s t u : S}
      → Same content rest s t
      → Repaired vs torn t u
      → Repaired vs torn s u
  Repaired-after vs torn same r = record {
    kept = r.kept;
    moved =
        r.moved
        ∙ ap (λ o. some (with_newline (or_empty o) ++ (torn ++ (b'\n' ∷ [])))) (same.files corrupt);
    others = r.others ∙ same.others;
  }

  HalfRepaired-after :
      (vs : List T) {s t u : S} → Same content rest s t → HalfRepaired vs t u → HalfRepaired vs s u
  HalfRepaired-after vs same r = record {
    kept = cc_or (same.files path) r.kept;
    others = r.others ∙ same.others;
  }

  quarantine_tail_lem :
      (vs : List T) (torn : Text) (s : S)
      → All P vs
      → Ensures
          (λ r s'. (r ≡ vs) × Repaired vs torn s s')
          (λ _ s'. HalfRepaired vs s s')
          (quarantine_tail fs codec path torn vs s)
  unfolding quarantine_tail
  quarantine_tail_lem vs torn s h =
      Ensures-continue (read_or_empty fs corrupt s) _
        (Ensures-weaken (read_or_empty fs corrupt s) (read_or_empty_lem corrupt s) (λ t s1 r. r)
          (λ _ s1 r. record { kept = inl (r.files path); others = r.others }))
        λ t s1 r1.
          Ensures-continue (io (fs.write corrupt _) s1) _
            (Ensures-weaken (io (fs.write corrupt _) s1)
              (Ensures-io (fs.write corrupt _) s1 (H.on_write corrupt _ s1)) (λ _ s2 r. r)
              (λ _ s2 r. record {
                kept = inl (r.1.files path corrupt-ne ∙ r1.1.files path);
                others = r.1.others ∙ r1.1.others;
              }))
            λ _ s2 r2.
              Ensures-continue (write_lines fs codec path vs s2) _
                (Ensures-weaken (write_lines fs codec path vs s2)
                  (write_lines-Holds L fs path H vs s2 h) (λ _ s3 r. r)
                  (λ _ s3 r. record {
                    kept = cc_or (r2.1.files path corrupt-ne ∙ r1.1.files path) r.0;
                    others = r.1.others ∙ r2.1.others ∙ r1.1.others;
                  }))
                λ _ s3 r3. record {
                  post = (
                    refl,
                    record {
                      kept = r3.0;
                      moved =
                          r3.1.files corrupt (λ e. corrupt-ne (sym e))
                          ∙ r2.0
                          ∙ ap (λ u. some (with_newline u ++ (torn ++ (b'\n' ∷ [])))) r1.0;
                      others = r3.1.others ∙ r2.1.others ∙ r1.1.others;
                    },
                  );
                }

  pub read_lines_torn :
      (vs : List T) (torn : Text) (s : S) (e : Error)
      → All P vs
      → content s path ≡ some (journal_text render vs ++ torn)
      → contains_char b'\n' torn ≡ false
      → is_blank torn ≡ false
      → codec.from_str torn ≡ err e
      → Ensures
          (λ r s'. (r ≡ vs) × Repaired vs torn s s')
          (λ _ s'. HalfRepaired vs s s')
          (read_lines fs codec path s)
  read_lines_torn vs torn s e h holds one solid fails =
      read_lines-some _ s holds
        (λ s' same.
          rw (lines_torn L vs torn h one solid, parse_lines_bad vs torn e h fails)
            (rw (is_last render vs torn) (
              Ensures-weaken (quarantine_tail fs codec path torn vs s')
                (quarantine_tail_lem vs torn s' h)
                (λ r s'' q. (q.0, Repaired-after vs torn same q.1))
                (λ _ s'' q. HalfRepaired-after vs same q))))
        (λ s' same. record { kept = inl (same.files path); others = same.others })

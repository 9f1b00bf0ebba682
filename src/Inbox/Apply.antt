-- ===== src/Inbox/Apply.antt =====
-- rust-client/src/inbox.rs: what `apply_inbox` has done when it returns or fails.
use obsidian_sync_engine.Base.{
  ℕ, Text, ◌≡◌, refl, sym, ap, ◌∙◌, inl, inr, Bool, true, false, Option, some, List, [], ◌∷◌, ◌++◌,
  append-nil, arith, leb, if◌then◌else◌, All, Ensures, Ensures-continue, Ensures-weaken, ◌>>◌, pure,
}
use obsidian_sync_engine.Base.Tests.{Bool-cases}
use obsidian_sync_engine.Op.{InboxOp}
use obsidian_sync_engine.Fs.{SyncFs}
use obsidian_sync_engine.Fs.Contents.{HasContents}
use obsidian_sync_engine.Jsonl.{Codec, read_lines, write_lines}
use obsidian_sync_engine.Jsonl.Journal.{
  IsLawful, journal_text, Holds, read_lines-Holds, write_lines-Holds,
}
use obsidian_sync_engine.Inbox.{
  InboxHandler, write_inbox, read_inbox, settle, apply_each, apply_inbox,
}
use obsidian_sync_engine.Inbox.Effects.{
  Effect, effects, effect_of, reached, adds_nothing, stays, adds_effect, advances,
}
use obsidian_sync_engine.Inbox.Outcome.{
  Kept, IsHandler, Applied, Stopped, stopped_before, applied_before, Applied-from, Stopped-from,
}
use obsidian_sync_engine.Inbox.Lines.{stopped_at_write, Applied-cons, Stopped-cons}
use obsidian_sync_engine.Base.Sort.{sort_by_key, sort_by_key-All}
use obsidian_sync_engine.Inbox.Settle.{Unsettled, settle_lem}

module _ {S : Type 0} {codec : Codec InboxOp} {P : InboxOp → Type 0} {render : InboxOp → Text}
    (L : IsLawful codec P render) (fs : SyncFs S) (path : Text) {content : S → Text → Option Text}
    {progress : S → ℕ × List Effect} (H : HasContents content progress fs) (skip : InboxOp → Bool)
    (handler : InboxHandler S) where
  module _ (K : IsHandler render path content progress skip handler) where
    -- The write of the lines that are left, and the rest of the loop.
    write_and_go_on :
        (start : Option Text) (current next : ℕ) (out : List Effect) (line : InboxOp)
        (rest : List InboxOp)
        (adds : (done : List InboxOp)
          → effects skip current (line ∷ done) ≡ out ++ effects skip next done)
        (moves : (done : List InboxOp) → reached current (line ∷ done) ≡ reached next done)
        (s s1 : S)
        → All P rest
        → content s1 path ≡ start
        → progress s1 ≡ (next, (progress s).1 ++ out)
        → ((s2 : S)
            → content s2 path ≡ some (journal_text render rest)
            → (progress s2).0 ≡ next
            → Ensures
                (λ _ s'.
                  Applied render path content progress skip
                    (some (journal_text render rest))
                    next
                    rest
                    s2
                    s')
                (λ _ s'.
                  Stopped render path content progress skip
                    (some (journal_text render rest))
                    next
                    rest
                    s2
                    s')
                (apply_each fs codec handler path next rest s2))
        → Ensures
            (λ _ s'. Applied render path content progress skip start current (line ∷ rest) s s')
            (λ _ s'. Stopped render path content progress skip start current (line ∷ rest) s s')
            ((write_inbox fs codec path rest >> apply_each fs codec handler path next rest) s1)
    unfolding write_inbox
    write_and_go_on start current next out line rest adds moves s s1 h file e go =
        Ensures-continue (write_lines fs codec path rest s1) _
          (Ensures-weaken (write_lines fs codec path rest s1)
            (write_lines-Holds L fs path H rest s1 h) (λ _ s2 w. w)
            (λ _ s2 w.
              stopped_at_write render path content progress skip start current next out line rest
                adds moves s s2 (w.1.others ∙ e)
                (elim (w.0) [ inl same ↦ inl (same ∙ file) | inr new ↦ inr new ])))
          λ _ s2 w.
            let e2 = w.1.others ∙ e in
            Ensures-weaken (apply_each fs codec handler path next rest s2)
              (go s2 w.0 (ap (λ (g : ℕ × List Effect). g.0) e2))
              (λ _ s3 a.
                Applied-cons render path content progress skip start current next out line rest adds
                  moves s s2 e2 s3 a)
              (λ _ s3 a.
                Stopped-cons render path content progress skip start current next out line rest adds
                  moves s s2 e2 s3 a)

  module _ (K : IsHandler render path content progress skip handler) where
    -- A line that `settle` failed on.
    stopped_unsettled :
        (start : Option Text) (current : ℕ) (line : InboxOp) (rest : List InboxOp) (s s1 s' : S)
        → content s path ≡ start
        → (progress s).0 ≡ current
        → leb line.rev current ≡ false
        → Kept render path content progress skip s s1
        → Unsettled render path content progress skip handler K line s1 s'
        → Stopped render path content progress skip start current (line ∷ rest) s s'
    stopped_unsettled start current line rest s s1 s' file at new k u = elim (u.others) [
      | inl same ↦
          stopped_before render path content progress skip start current (line ∷ rest) s s' file at
            (record { inbox = u.inbox ∙ k.inbox; others = same ∙ k.others })
      | inr (r, e, r_is) ↦ record {
        done = line ∷ [];
        left = rest;
        split = refl;
        applied =
            ap (λ (g : ℕ × List Effect). g.1) e
            ∙ ap (λ (g : ℕ × List Effect). g.1 ++ effect_of skip line) k.others
            ∙ ap (λ l. (progress s).1 ++ l)
                (sym (append-nil (effect_of skip line))
                  ∙ sym (adds_effect skip line rest current new []));
        settled = inr (
          [],
          line,
          refl,
          elim r_is [
            | inl x ↦ inl (
                ap (λ (g : ℕ × List Effect). g.0) e
                ∙ x
                ∙ ap (λ (g : ℕ × List Effect). g.0) k.others
                ∙ at)
            | inr x ↦ inr (
                ap (λ (g : ℕ × List Effect). g.0) e
                ∙ x
                ∙ sym (advances skip line rest current new []))
          ],
          inl (refl, u.inbox ∙ k.inbox ∙ file),
        );
      }
    ]

    after_defer :
        (start : Option Text) (current : ℕ) (line : InboxOp) (rest : List InboxOp) (s s1 : S)
        (b : Bool)
        → All P (line ∷ rest)
        → content s path ≡ start
        → (progress s).0 ≡ current
        → leb line.rev current ≡ false
        → Kept render path content progress skip s s1
        → ((s2 : S)
            → content s2 path ≡ some (journal_text render rest)
            → (progress s2).0 ≡ line.rev
            → Ensures
                (λ _ s'.
                  Applied render path content progress skip
                    (some (journal_text render rest))
                    line.rev
                    rest
                    s2
                    s')
                (λ _ s'.
                  Stopped render path content progress skip
                    (some (journal_text render rest))
                    line.rev
                    rest
                    s2
                    s')
                (apply_each fs codec handler path line.rev rest s2))
        → Ensures
            (λ _ s'. Applied render path content progress skip start current (line ∷ rest) s s')
            (λ _ s'. Stopped render path content progress skip start current (line ∷ rest) s s')
            ((if b then pure tt else (do
              settle handler line
              write_inbox fs codec path rest
              apply_each fs codec handler path line.rev rest))
              s1)
    after_defer start current line rest s s1 true h file at new k go = record {
      post =
          applied_before render path content progress skip start current (line ∷ rest) s s1 file at
            k (inr (line, rest, refl, ground arith));
    }
    after_defer start current line rest s s1 false h file at new k go =
        Ensures-continue (settle handler line s1) _
          (Ensures-weaken (settle handler line s1)
            (settle_lem render path content progress skip handler K line s1) (λ _ s2 q. q)
            (λ _ s2 u. stopped_unsettled start current line rest s s1 s2 file at new k u))
          λ _ s2 q.
            write_and_go_on K start current line.rev (effect_of skip line) line rest
              (adds_effect skip line rest current new) (advances skip line rest current new) s s2
              h.1 (q.0 ∙ k.inbox ∙ file)
              (q.1 ∙ ap (λ (g : ℕ × List Effect). (line.rev, g.1 ++ effect_of skip line)) k.others)
              go

    apply_each_lem :
        (start : Option Text) (current : ℕ) (lines : List InboxOp) (s : S)
        → All P lines
        → content s path ≡ start
        → (progress s).0 ≡ current
        → Ensures
            (λ _ s'. Applied render path content progress skip start current lines s s')
            (λ _ s'. Stopped render path content progress skip start current lines s s')
            (apply_each fs codec handler path current lines s)
    unfolding apply_each
    apply_each_lem start current [] s h file at = record {
      post =
          applied_before render path content progress skip start current [] s s file at
            (record { inbox = refl; others = refl }) (inl refl);
    }
    apply_each_lem start current (line ∷ rest) s h file at =
        elim (Bool-cases (leb line.rev current)) [
          | inl covered ↦ rw covered (
              write_and_go_on K start current current [] line rest
                (adds_nothing skip line rest current covered) (stays skip line rest current covered)
                s s h.1 file (λ i. (at i, sym (append-nil (progress s).1) i))
                (λ s2 f2 a2.
                  apply_each_lem (some (journal_text render rest)) current rest s2 h.1 f2 a2))
          | inr new ↦ rw new (
              Ensures-continue (handler.should_defer_apply line s) _
                (Ensures-weaken (handler.should_defer_apply line s) (K.on_defer line s)
                  (λ _ s1 k. k)
                  (λ _ s1 k.
                    stopped_before render path content progress skip start current (line ∷ rest) s
                      s1 file at k))
                λ b s1 k. after_defer start current line rest s s1 b h file at new k (λ s2 f2 a2.
                  apply_each_lem (some (journal_text render rest)) line.rev rest s2 h.1 f2 a2))
        ]

  pub apply_inbox_lem :
      IsHandler render path content progress skip handler
      → (lines : List InboxOp) (s : S) → All P lines
      → Holds render content path s lines
      → Ensures
          (λ _ s'.
            Applied render path content progress skip
              (content s path)
              (progress s).0
              (sort_by_key (λ (line : InboxOp). line.rev) lines)
              s
              s')
          (λ _ s'.
            Stopped render path content progress skip
              (content s path)
              (progress s).0
              (sort_by_key (λ (line : InboxOp). line.rev) lines)
              s
              s')
          (apply_inbox fs codec handler path s)
  unfolding apply_inbox read_inbox
  apply_inbox_lem K lines s h holds =
      Ensures-continue (read_lines fs codec path s) _
        (Ensures-weaken (read_lines fs codec path s) (read_lines-Holds L fs path H lines s h holds)
          (λ r s1 q. q)
          (λ _ s1 q.
            stopped_before render path content progress skip _ _ _ s s1 refl refl
              (record { inbox = q.files path; others = q.others })))
        λ r s1 q.
          Ensures-continue (handler.get_revision s1) _
            (Ensures-weaken (handler.get_revision s1) (K.on_get s1) (λ n s2 g. g)
              (λ _ s2 g.
                stopped_before render path content progress skip _ _ _ s s2 refl refl
                  (record { inbox = g.inbox ∙ q.1.files path; others = g.others ∙ q.1.others })))
            λ n s2 g.
              let same = g.1.others ∙ q.1.others in
              rw (q.0, g.0 ∙ ap (λ (x : ℕ × List Effect). x.0) q.1.others)
                (Ensures-weaken
                  (apply_each fs codec handler path (progress s).0
                    (sort_by_key (λ (line : InboxOp). line.rev) lines) s2)
                  (apply_each_lem K (content s path) (progress s).0
                    (sort_by_key (λ (line : InboxOp). line.rev) lines) s2
                    (sort_by_key-All (λ (line : InboxOp). line.rev) P lines h)
                    (g.1.inbox ∙ q.1.files path) (ap (λ (x : ℕ × List Effect). x.0) same))
                  (λ _ s3 a. Applied-from render path content progress skip _ _ _ s s2 s3 same a)
                  (λ _ s3 a. Stopped-from render path content progress skip _ _ _ s s2 s3 same a))

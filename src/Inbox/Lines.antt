-- ===== src/Inbox/Lines.antt =====
-- rust-client/src/inbox.rs: one round of the loop of `apply_inbox` before the rounds that follow.
use obsidian_sync_engine.Base.{
  ℕ, ◌<◌, Text, ◌≡◌, refl, sym, ap, ◌∙◌, subst, ◌⊎◌, inl, inr, Bool, Option, some, List, [], ◌∷◌,
  ◌++◌, append-nil, append_assoc,
}
use obsidian_sync_engine.Op.{InboxOp}
use obsidian_sync_engine.Fs.Contents.{or_empty}
use obsidian_sync_engine.Jsonl.Journal.{journal_text, Holds}
use obsidian_sync_engine.Inbox.Effects.{Effect, effects, reached}
use obsidian_sync_engine.Inbox.Outcome.{File, Applied, Stopped}

module _ {S : Type 0} (render : InboxOp → Text) (path : Text) (content : S → Text → Option Text)
    (progress : S → ℕ × List Effect) (skip : InboxOp → Bool) where
  -- What is left is in the file, once the file has been rewritten.
  File-rewritten :
      (rest done left : List InboxOp) (s : S)
      → rest ≡ done ++ left
      → File render path content progress skip (some (journal_text render rest)) done left s
      → Holds render content path s left
  File-rewritten rest done left s split (inr h) = h
  File-rewritten rest done left s split (inl (none_done, same)) =
      ap or_empty same ∙ ap (journal_text render) (split ∙ ap (λ d. d ++ left) none_done)

  -- One line is behind the loop: it did `out`, and the revision is `next`.
  module _ (start : Option Text) (current next : ℕ) (out : List Effect) (line : InboxOp)
      (rest : List InboxOp)
      (adds : (done : List InboxOp)
        → effects skip current (line ∷ done) ≡ out ++ effects skip next done)
      (moves : (done : List InboxOp) → reached current (line ∷ done) ≡ reached next done)
      (s : S) where
    pub stopped_at_write :
        (s' : S)
        → progress s' ≡ (next, (progress s).1 ++ out)
        → (content s' path ≡ start) ⊎ (content s' path ≡ some (journal_text render rest))
        → Stopped render path content progress skip start current (line ∷ rest) s s'
    stopped_at_write s' e file = record {
      done = line ∷ [];
      left = rest;
      split = refl;
      applied =
          ap (λ (g : ℕ × List Effect). g.1) e
          ∙ ap (λ l. (progress s).1 ++ l) (sym (append-nil out) ∙ sym (adds []));
      settled = elim file [
        | inl same ↦ inr (
          [],
          line,
          refl,
          inr (ap (λ (g : ℕ × List Effect). g.0) e ∙ sym (moves [])),
          inl (refl, same),
        )
        | inr new ↦
            inl (ap (λ (g : ℕ × List Effect). g.0) e ∙ sym (moves []), inr (ap or_empty new))
      ];
    }

    module _ (s1 : S) (e : progress s1 ≡ (next, (progress s).1 ++ out)) where
      adds_up :
          (done : List InboxOp)
          → (progress s1).1 ++ effects skip next done
            ≡ (progress s).1 ++ effects skip current (line ∷ done)
      adds_up done =
          ap (λ (g : ℕ × List Effect). g.1 ++ effects skip next done) e
          ∙ append_assoc (progress s).1 out (effects skip next done)
          ∙ ap (λ l. (progress s).1 ++ l) (sym (adds done))

      pub Applied-cons :
          (s' : S)
          → Applied render path content progress skip
              (some (journal_text render rest))
              next
              rest
              s1
              s'
          → Applied render path content progress skip start current (line ∷ rest) s s'
      Applied-cons s' a = record {
        done = line ∷ a.done;
        left = a.left;
        split = ap (◌∷◌ line) a.split;
        progressed = a.progressed ∙ (λ i. (sym (moves a.done) i, adds_up a.done i));
        file = inr (File-rewritten rest a.done a.left s' a.split a.file);
        ended = elim (a.ended) [
          | inl e ↦ inl e
          | inr (l, more, e, lt) ↦ inr (l, more, e, subst (λ r. r < l.rev) (sym (moves a.done)) lt)
        ];
      }

      pub Stopped-cons :
          (s' : S)
          → Stopped render path content progress skip
              (some (journal_text render rest))
              next
              rest
              s1
              s'
          → Stopped render path content progress skip start current (line ∷ rest) s s'
      Stopped-cons s' a = record {
        done = line ∷ a.done;
        left = a.left;
        split = ap (◌∷◌ line) a.split;
        applied = a.applied ∙ adds_up a.done;
        settled = elim (a.settled) [
          | inl (e, file) ↦
              inl (e ∙ sym (moves a.done), inr (File-rewritten rest a.done a.left s' a.split file))
          | inr (init, last, e, r, file) ↦ inr (
            line ∷ init,
            last,
            ap (◌∷◌ line) e,
            elim r [ inl x ↦ inl (x ∙ sym (moves init)) | inr x ↦ inr (x ∙ sym (moves a.done)) ],
            inr (
                File-rewritten rest init (last ∷ a.left) s'
                  (a.split ∙ ap (λ d. d ++ a.left) e ∙ append_assoc init (last ∷ []) a.left) file),
          )
        ];
      }

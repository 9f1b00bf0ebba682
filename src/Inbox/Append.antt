-- ===== src/Inbox/Append.antt =====
-- rust-client/src/inbox.rs: freshly fetched lines go behind those that are there.
use obsidian_sync_engine.Base.{
  Text, ap, ◌∙◌, ◌⊎◌, inl, inr, Option, List, [], ◌∷◌, ◌++◌, append-nil, All, All-append, Ensures,
  Ensures-continue, Ensures-weaken,
}
use obsidian_sync_engine.Op.{InboxOp}
use obsidian_sync_engine.Fs.{SyncFs}
use obsidian_sync_engine.Fs.Contents.{
  or_empty, SameBut, HasContents, Same-refl, SameBut-of_Same, SameBut-trans,
}
use obsidian_sync_engine.Jsonl.{Codec, read_lines, write_lines}
use obsidian_sync_engine.Jsonl.Journal.{IsLawful, Holds, read_lines-Holds, write_lines-Holds}
use obsidian_sync_engine.Inbox.{read_inbox, write_inbox, append_inbox}

module _ {S G : Type 0} {codec : Codec InboxOp} {P : InboxOp → Type 0} {render : InboxOp → Text}
    (L : IsLawful codec P render) (fs : SyncFs S) (path : Text) {content : S → Text → Option Text}
    {rest : S → G} (H : HasContents content rest fs) where
  -- With a codec that reads back what it prints and files that keep their contents, lines that
  -- are appended stand behind those that were there. Where it fails, the inbox holds the old
  -- lines or all of them. No other file changes.
  pub append_inbox_lem :
      (lines ops : List InboxOp) (s : S)
      → All P lines
      → All P ops
      → Holds render content path s lines
      → Ensures
          (λ _ s'. Holds render content path s' (lines ++ ops) × SameBut content rest path s s')
          (λ _ s'.
            (Holds render content path s' lines ⊎ Holds render content path s' (lines ++ ops))
            × SameBut content rest path s s')
          (append_inbox fs codec path ops s)
  unfolding append_inbox read_inbox write_inbox
  append_inbox_lem lines [] s h k holds = record {
    post = (rw append-nil holds, SameBut-of_Same path (Same-refl s));
  }
  append_inbox_lem lines (op ∷ ops) s h k holds =
      Ensures-continue (read_lines fs codec path s) _
        (Ensures-weaken (read_lines fs codec path s) (read_lines-Holds L fs path H lines s h holds)
          (λ r s1 q. q)
          (λ _ s1 q. (inl (ap or_empty (q.files path) ∙ holds), SameBut-of_Same path q)))
        λ r s1 q. rw (q.0) (
          Ensures-weaken (write_lines fs codec path (lines ++ (op ∷ ops)) s1)
            (write_lines-Holds L fs path H (lines ++ (op ∷ ops)) s1
              (All-append P lines (op ∷ ops) h k))
            (λ _ s2 w. (ap or_empty w.0, SameBut-trans (SameBut-of_Same path q.1) w.1))
            (λ _ s2 w. (
              elim (w.0) [
                | inl old ↦ inl (ap or_empty (old ∙ q.1.files path) ∙ holds)
                | inr new ↦ inr (ap or_empty new)
              ],
              SameBut-trans (SameBut-of_Same path q.1) w.1,
            )))

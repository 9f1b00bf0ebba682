-- ===== src/Tests/Inboxes.antt =====
-- Runs of the inbox of rust-client on files in memory, with a handler that notes what is applied.
use obsidian_sync_engine.Base.{
  ℕ, Text, codes, refl, ◌⊎◌, Bool, false, List, [], ◌∷◌, ◌++◌, ok, Ensures, ◌==◌,
}
use obsidian_sync_engine.Base.Tests.{nat_eq, list_eq}
use obsidian_sync_engine.Base.Map.{get}
use obsidian_sync_engine.Op.{OpKind, put, delete, InboxOp}
use obsidian_sync_engine.Error.{Any}
use obsidian_sync_engine.Fs.Contents.{SameBut}
use obsidian_sync_engine.Jsonl.Journal.{journal_text, Holds}
use obsidian_sync_engine.Base.Sort.{sort_by_key}
use obsidian_sync_engine.Inbox.{InboxHandler, append_inbox, apply_inbox}
use obsidian_sync_engine.Inbox.Effects.{Effect}
use obsidian_sync_engine.Inbox.Outcome.{IsHandler, Applied, Stopped}
use obsidian_sync_engine.Inbox.Apply.{apply_inbox_lem}
use obsidian_sync_engine.Inbox.Append.{append_inbox_lem}
use obsidian_sync_engine.Tests.Memory.{
  Disk, memory_fs, disk_content, disk_others, memory_fs-HasContents,
}
use obsidian_sync_engine.Tests.Codecs.{inbox_codec, inbox_line, inbox_codec-IsLawful}

abbrev inbox_path : Text
inbox_path = codes "inbox.jsonl"

abbrev put_a : InboxOp
put_a = record { rev = 4; op = put; path = codes "a.md" }

abbrev delete_b : InboxOp
delete_b = record { rev = 3; op = delete; path = codes "b.md" }

abbrev hidden : Text
hidden = codes "hidden"

abbrev put_hidden : InboxOp
put_hidden = record { rev = 5; op = put; path = hidden }

abbrev Vault : Type 0
Vault = Disk (ℕ × List Effect)

abbrev vault : Vault
vault = record {
  files = (inbox_path, journal_text inbox_line (put_a ∷ delete_b ∷ put_hidden ∷ [])) ∷ [];
  others = (2, []);
}

abbrev skips : InboxOp → Bool
skips line = line.path == hidden

abbrev note_effect : OpKind → Text → Any Vault (Unit {0})
note_effect kind p d = (ok tt, record d { others = (d.others.0, d.others.1 ++ ((kind, p) ∷ [])) })

abbrev noting : InboxHandler Vault
noting = record {
  apply_put = note_effect put;
  apply_delete = note_effect delete;
  get_revision = λ d. (ok d.others.0, d);
  set_revision = λ r d. (ok tt, record d { others = (r, d.others.1) });
  should_skip_apply = λ line d. (ok (skips line), d);
  should_defer_apply = λ line d. (ok false, d);
}

noting-IsHandler : IsHandler inbox_line inbox_path disk_content disk_others skips noting
noting-IsHandler = record {
  on_put = λ p s. record { post = (refl, refl) };
  on_delete = λ p s. record { post = (refl, refl) };
  on_get = λ s. record { post = (refl, record { inbox = refl; others = refl }) };
  on_set = λ r s. record { post = (refl, refl) };
  on_skip = λ line s. record { post = (refl, record { inbox = refl; others = refl }) };
  on_defer = λ line s. record { post = record { inbox = refl; others = refl } };
}

apply_inbox_lem_example :
    Ensures
      (λ _ s'.
        Applied inbox_line inbox_path disk_content disk_others skips
          (disk_content vault inbox_path)
          2
          (sort_by_key (λ (line : InboxOp). line.rev) (put_a ∷ delete_b ∷ put_hidden ∷ []))
          vault
          s')
      (λ _ s'.
        Stopped inbox_line inbox_path disk_content disk_others skips
          (disk_content vault inbox_path)
          2
          (sort_by_key (λ (line : InboxOp). line.rev) (put_a ∷ delete_b ∷ put_hidden ∷ []))
          vault
          s')
      (apply_inbox memory_fs inbox_codec noting inbox_path vault)
unfolding get list_eq
apply_inbox_lem_example =
    apply_inbox_lem inbox_codec-IsLawful memory_fs inbox_path memory_fs-HasContents skips noting
      noting-IsHandler (put_a ∷ delete_b ∷ put_hidden ∷ []) vault (refl, (refl, (refl, tt))) refl

append_inbox_lem_example :
    Ensures
      (λ _ s'.
        Holds inbox_line disk_content inbox_path s' (put_a ∷ delete_b ∷ put_hidden ∷ put_a ∷ [])
        × SameBut disk_content disk_others inbox_path vault s')
      (λ _ s'.
        (Holds inbox_line disk_content inbox_path s' (put_a ∷ delete_b ∷ put_hidden ∷ [])
          ⊎ Holds inbox_line disk_content inbox_path s'
              (put_a ∷ delete_b ∷ put_hidden ∷ put_a ∷ []))
        × SameBut disk_content disk_others inbox_path vault s')
      (append_inbox memory_fs inbox_codec inbox_path (put_a ∷ []) vault)
unfolding get list_eq
append_inbox_lem_example =
    append_inbox_lem inbox_codec-IsLawful memory_fs inbox_path memory_fs-HasContents
      (put_a ∷ delete_b ∷ put_hidden ∷ []) (put_a ∷ []) vault (refl, (refl, (refl, tt))) (refl, tt)
      refl

-- ===== src/Tests/Journals.antt =====
-- Runs of the journals of rust-client on files in memory.
use obsidian_sync_engine.Base.{
  Text, codes, ◌≡◌, refl, none, some, List, [], ◌∷◌, ◌++◌, ok, Ensures, append-nil,
}
use obsidian_sync_engine.Base.Tests.{list_eq}
use obsidian_sync_engine.Base.Map.{get}
use obsidian_sync_engine.Op.{put, delete}
use obsidian_sync_engine.Error.{Any, other}
use obsidian_sync_engine.Fs.Contents.{Same}
use obsidian_sync_engine.Jsonl.{read_lines}
use obsidian_sync_engine.Jsonl.Journal.{journal_text, read_lines-Holds}
use obsidian_sync_engine.Jsonl.Torn.{
  Repaired, HalfRepaired, read_lines_torn, read_lines_corrupt_middle,
}
use obsidian_sync_engine.Outbox.{OutboxOp, drain}
use obsidian_sync_engine.Outbox.Drain.{IsHandler, Drained, Interrupted, drain_lem}
use obsidian_sync_engine.Tests.Memory.{
  Disk, memory_fs, disk_content, disk_others, memory_fs-HasContents,
}
use obsidian_sync_engine.Tests.Codecs.{outbox_codec, outbox_line, outbox_codec-IsLawful}

abbrev outbox_path : Text
outbox_path = codes "outbox.jsonl"

abbrev put_a : OutboxOp
put_a = record { op = put; path = codes "a.md"; ts = 1; base_revision = none }

abbrev delete_b : OutboxOp
delete_b = record { op = delete; path = codes "b.md"; ts = 2; base_revision = some 3 }

abbrev holding : Text → Disk (List OutboxOp)
holding text = record { files = (outbox_path, text) ∷ []; others = [] }

abbrev queued : Disk (List OutboxOp)
queued = holding (journal_text outbox_line (put_a ∷ delete_b ∷ []))

-- A handler that records what it is given.
abbrev record_op : OutboxOp → Any (Disk (List OutboxOp)) (Unit {0})
record_op op d = (ok tt, record d { others = d.others ++ (op ∷ []) })

abbrev add_op : List OutboxOp → OutboxOp → List OutboxOp
add_op ops op = ops ++ (op ∷ [])

record_op-IsHandler :
    IsHandler outbox_codec-IsLawful memory_fs outbox_path memory_fs-HasContents add_op
      (λ _. Unit)
      record_op
record_op-IsHandler = record {
  stable = λ g op inv. tt;
  on_op = λ op ops s inv queue. record { post = ([], rw append-nil queue, refl) };
}

drain_lem_example :
    Ensures
      (λ _ s'.
        Drained outbox_codec-IsLawful memory_fs outbox_path memory_fs-HasContents add_op
          (put_a ∷ delete_b ∷ [])
          []
          queued
          s')
      (λ _ s'.
        Interrupted outbox_codec-IsLawful memory_fs outbox_path memory_fs-HasContents add_op
          (put_a ∷ delete_b ∷ [])
          []
          queued
          s')
      (drain memory_fs outbox_codec outbox_path record_op queued)
unfolding get list_eq
drain_lem_example =
    drain_lem outbox_codec-IsLawful memory_fs outbox_path memory_fs-HasContents add_op (λ _. Unit)
      record_op record_op-IsHandler (put_a ∷ delete_b ∷ []) queued tt ((refl, (refl, tt)), refl)

read_lines-Holds_example :
    Ensures
      (λ r s'. (r ≡ put_a ∷ delete_b ∷ []) × Same disk_content disk_others queued s')
      (λ _ s'. Same disk_content disk_others queued s')
      (read_lines memory_fs outbox_codec outbox_path queued)
unfolding get list_eq
read_lines-Holds_example =
    read_lines-Holds outbox_codec-IsLawful memory_fs outbox_path memory_fs-HasContents
      (put_a ∷ delete_b ∷ []) queued (refl, (refl, tt)) refl

abbrev torn : Text
torn = codes "{"

abbrev torn_disk : Disk (List OutboxOp)
torn_disk = holding (journal_text outbox_line (put_a ∷ []) ++ torn)

read_lines_torn_example :
    Ensures
      (λ r s'.
        (r ≡ put_a ∷ [])
        × Repaired outbox_codec-IsLawful memory_fs outbox_path memory_fs-HasContents
            (put_a ∷ [])
            torn
            torn_disk
            s')
      (λ _ s'.
        HalfRepaired outbox_codec-IsLawful memory_fs outbox_path memory_fs-HasContents
          (put_a ∷ [])
          torn_disk
          s')
      (read_lines memory_fs outbox_codec outbox_path torn_disk)
unfolding outbox_codec get list_eq
read_lines_torn_example =
    read_lines_torn outbox_codec-IsLawful memory_fs outbox_path memory_fs-HasContents (put_a ∷ [])
      torn torn_disk (other (codes "bad line")) (refl, tt) refl refl refl refl

abbrev corrupt_disk : Disk (List OutboxOp)
corrupt_disk =
    holding (journal_text outbox_line (put_a ∷ []) ++ (torn ++ (b'\n' ∷ outbox_line delete_b)))

read_lines_corrupt_middle_example :
    Ensures
      (λ _ _. ⊥)
      (λ _ s'. Same disk_content disk_others corrupt_disk s')
      (read_lines memory_fs outbox_codec outbox_path corrupt_disk)
unfolding outbox_codec get list_eq
read_lines_corrupt_middle_example =
    read_lines_corrupt_middle outbox_codec-IsLawful memory_fs outbox_path memory_fs-HasContents
      (put_a ∷ []) torn (outbox_line delete_b) corrupt_disk (other (codes "bad line")) (refl, tt)
      refl refl refl refl (λ e. cc e)

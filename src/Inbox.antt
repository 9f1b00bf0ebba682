-- ===== src/Inbox.antt =====
-- rust-client/src/inbox.rs: the durable list of remote changes, and its application in order of
-- revisions.
pub mod Effects
pub mod Outcome
pub mod Settle
pub mod Lines
pub mod Apply
pub mod Append
use obsidian_sync_engine.Base.{
  ℕ, Text, Bool, List, [], ◌∷◌, ◌++◌, if◌then◌else◌, leb, is_empty, pure, ◌>>=◌, ◌>>◌,
}
use obsidian_sync_engine.Base.Sort.{sort_by_key}
use obsidian_sync_engine.Op.{put, delete, InboxOp}
use obsidian_sync_engine.Error.{Any}
use obsidian_sync_engine.Fs.{SyncFs}
use obsidian_sync_engine.Jsonl.{Codec, read_lines, write_lines}

-- The trait `InboxHandler`, its two defaults included where an implementation keeps them.
pub record InboxHandler (S : Type 0) : Type 0 where
  pub apply_put : Text → Any S (Unit {0})
  pub apply_delete : Text → Any S (Unit {0})
  pub get_revision : Any S ℕ
  pub set_revision : ℕ → Any S (Unit {0})
  pub should_skip_apply : InboxOp → Any S Bool
  pub should_defer_apply : InboxOp → Any S Bool

module _ {S : Type 0} (handler : InboxHandler S) where
  abbrev pub apply_op : InboxOp → Any S (Unit {0})
  apply_op line = elim (line.op) [
    | put ↦ handler.apply_put line.path
    | delete ↦ handler.apply_delete line.path
  ]

  -- The body of the loop from `should_skip_apply` to `set_revision`.
  unfoldable pub settle : InboxOp → Any S (Unit {0})
  settle line = do
    skip ← handler.should_skip_apply line
    if skip then pure tt else apply_op line
    handler.set_revision line.rev

module _ {S : Type 0} (fs : SyncFs S) (codec : Codec InboxOp) where
  unfoldable pub write_inbox : Text → List InboxOp → Any S (Unit {0})
  unfolding write_lines
  write_inbox path lines = write_lines fs codec path lines

  unfoldable pub read_inbox : Text → Any S (List InboxOp)
  unfolding read_lines
  read_inbox path = read_lines fs codec path

  unfoldable pub append_inbox : Text → List InboxOp → Any S (Unit {0})
  unfolding read_inbox write_inbox
  append_inbox path ops =
      if is_empty ops then pure tt else do lines ← read_inbox path; write_inbox path (lines ++ ops)

  module _ (handler : InboxHandler S) where
    -- The `while` loop: the revision reached, and the lines that remain.
    unfoldable pub apply_each : Text → ℕ → List InboxOp → Any S (Unit {0})
    unfolding settle write_inbox
    apply_each inbox_path current [] = pure tt
    apply_each inbox_path current (line ∷ rest) =
        if leb line.rev current
        then (do write_inbox inbox_path rest; apply_each inbox_path current rest)
        else do
          defer ← handler.should_defer_apply line
          if defer then pure tt else do
            settle handler line
            write_inbox inbox_path rest
            apply_each inbox_path line.rev rest

    unfoldable pub apply_inbox : Text → Any S (Unit {0})
    unfolding read_inbox sort_by_key apply_each
    apply_inbox inbox_path = do
      lines ← read_inbox inbox_path
      current ← handler.get_revision
      apply_each inbox_path current (sort_by_key (λ (line : InboxOp). line.rev) lines)

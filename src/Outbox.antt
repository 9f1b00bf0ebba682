-- ===== src/Outbox.antt =====
-- rust-client/src/outbox.rs: the durable queue of local changes.
pub mod Drain
pub mod Coalesce
use obsidian_sync_engine.Base.{
  ℕ, Text, Bool, ◌&&◌, Option, none, some, List, [], ◌∷◌, ◌++◌, if◌then◌else◌, ◌==◌, remove_first,
  pure, lift, ◌>>=◌, ◌>>◌,
}
use obsidian_sync_engine.Base.Tests.{nat_eq, list_eq}
use obsidian_sync_engine.Op.{OpKind, put, op_eq}
use obsidian_sync_engine.Error.{Any, io}
use obsidian_sync_engine.Fs.{SyncFs}
use obsidian_sync_engine.Jsonl.{Codec, read_lines, write_lines}

pub record OutboxOp : Type 0 where
  pub op : OpKind
  pub path : Text
  pub ts : ℕ
  pub base_revision : Option ℕ

unfoldable pub same_op : OutboxOp → OutboxOp → Bool
unfolding list_eq
same_op a b = a.op == b.op && a.path == b.path && a.ts == b.ts

-- The arm of the `match` in `coalesce` that replaces the last operation.
abbrev pub supersedes : OutboxOp → OutboxOp → Bool
supersedes last op = last.op == put && op.op == put && last.path == op.path

-- One round of the loop in `coalesce`: `result.last_mut()` and `push`.
unfoldable pub push_coalesced : List OutboxOp → OutboxOp → List OutboxOp
unfolding list_eq
push_coalesced [] op = op ∷ []
push_coalesced (last ∷ []) op = if supersedes last op then op ∷ [] else last ∷ op ∷ []
push_coalesced (a ∷ b ∷ result) op = a ∷ push_coalesced (b ∷ result) op

unfoldable pub coalesce_onto : List OutboxOp → List OutboxOp → List OutboxOp
unfolding push_coalesced
coalesce_onto result [] = result
coalesce_onto result (op ∷ ops) = coalesce_onto (push_coalesced result op) ops

unfoldable pub coalesce : List OutboxOp → List OutboxOp
unfolding coalesce_onto
coalesce ops = coalesce_onto [] ops

module _ {S : Type 0} (fs : SyncFs S) (codec : Codec OutboxOp) where
  unfoldable pub enqueue : Text → OutboxOp → Any S (Unit {0})
  enqueue outbox_path op = do
    text ← lift (codec.to_string op)
    io (fs.append outbox_path (text ++ (b'\n' ∷ [])))

  -- `list`
  unfoldable pub list_ops : Text → Any S (List OutboxOp)
  unfolding read_lines coalesce
  list_ops outbox_path = do ops ← read_lines fs codec outbox_path; pure (coalesce ops)

  -- The removal of a handled line, matched against the re-read file. A line that is no longer
  -- there is only logged.
  unfoldable pub acknowledge : Text → OutboxOp → Any S (Unit {0})
  unfolding read_lines write_lines same_op
  acknowledge outbox_path op = do
    current ← read_lines fs codec outbox_path
    elim (remove_first (λ candidate. same_op candidate op) current) [
      | none ↦ pure tt
      | some rest ↦ write_lines fs codec outbox_path rest
    ]

  -- The loop of `drain` over its snapshot.
  unfoldable pub drain_each :
      Text → (OutboxOp → Any S (Unit {0})) → List OutboxOp → Any S (Unit {0})
  unfolding acknowledge
  drain_each outbox_path handler [] = pure tt
  drain_each outbox_path handler (op ∷ ops) = do
    handler op
    acknowledge outbox_path op
    drain_each outbox_path handler ops

  unfoldable pub drain : Text → (OutboxOp → Any S (Unit {0})) → Any S (Unit {0})
  unfolding read_lines drain_each
  drain outbox_path handler = do
    snapshot ← read_lines fs codec outbox_path
    drain_each outbox_path handler snapshot

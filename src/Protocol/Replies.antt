-- ===== src/Protocol/Replies.antt =====
-- rust-client/src/protocol.rs: what is accepted from the server, and what a message shows.
use obsidian_sync_engine.Base.{
  Text, ◌≡◌, refl, true, List, [], ◌∷◌, map, All, inl, inr, subst, Result, ok, err, arith,
}
use obsidian_sync_engine.Base.Tests.{Bool-cases}
use obsidian_sync_engine.Op.{InboxOp}
use obsidian_sync_engine.Error.{Error}
use obsidian_sync_engine.Jsonl.{Codec, non_empty_lines}
use obsidian_sync_engine.Paths.{is_canonical_sync_path}
use obsidian_sync_engine.Protocol.{
  Message, fmt, is_valid_revision, check_op, parse_line, collect_lines, deserialize_inbox_ndjson,
}

-- The message with another token.
abbrev pub with_token : Text → Message → Message
with_token token (Message.auth_init client_name _) = Message.auth_init client_name token
with_token token (Message.auth_ack client_name _) = Message.auth_ack client_name token
with_token token (Message.reset_client_name new_client_name _) =
    Message.reset_client_name new_client_name token
with_token token m = m

-- The debug text of a message is the same for every token, so it shows nothing of the token.
pub fmt-with_token : (token : Text) (m : Message) → fmt (with_token token m) ≡ fmt m
unfolding fmt
fmt-with_token token m = ground arith

-- A line that the client takes from the server's inbox.
pub record IsAcceptable (op : InboxOp) : Type 0 where
  pub in_range : is_valid_revision op.rev ≡ true
  pub canonical : is_canonical_sync_path op.path ≡ true

module _ (json : Codec InboxOp) (debug : Text → Text) where
  -- A line was parsed to this operation, which is acceptable.
  abbrev TakenLine : Text → Result Error InboxOp → Type 0
  TakenLine line (ok op) = IsAcceptable op × (json.from_str line ≡ ok op)
  TakenLine line (err e) = Unit

  abbrev TakenLines : List Text → Result Error (List InboxOp) → Type 0
  TakenLines lines (ok ops) = All IsAcceptable ops × (map json.from_str lines ≡ map ok ops)
  TakenLines lines (err e) = Unit

  check_op-IsAcceptable :
      (line : Text) (op : InboxOp)
      → json.from_str line ≡ ok op
      → TakenLine line (check_op json debug op)
  unfolding check_op
  check_op-IsAcceptable line op h = elim (Bool-cases (is_valid_revision op.rev)) [
    | inr out ↦ rw out tt
    | inl valid ↦ elim (Bool-cases (is_canonical_sync_path op.path)) [
      | inr bad ↦ rw (valid, bad) tt
      | inl plain ↦ rw (valid, plain) (record { in_range = valid; canonical = plain }, h)
    ]
  ]

  parse_line-Taken :
      (line : Text) (r : Result Error InboxOp)
      → json.from_str line ≡ r
      → TakenLine line (parse_line json debug line)
  unfolding parse_line
  parse_line-Taken line (ok op) h = rw (parse_line, h) (check_op-IsAcceptable line op h)
  parse_line-Taken line (err e) h = rw (parse_line, h) tt

  collect-Taken :
      (line : Text) (lines : List Text) (r : Result Error InboxOp)
      (rest : Result Error (List InboxOp))
      → TakenLine line r
      → TakenLines lines rest
      → TakenLines
          (line ∷ lines)
          (elim r [ ok op ↦ elim rest [ ok ops ↦ ok (op ∷ ops) | err e ↦ err e ] | err e ↦ err e ])
  collect-Taken line lines (err e) rest h k = tt
  collect-Taken line lines (ok op) (err e) h k = tt
  collect-Taken line lines (ok op) (ok ops) (p, e) (ps, es) = ((p, ps), rw (e, es))

  collect_lines-Taken : (lines : List Text) → TakenLines lines (collect_lines json debug lines)
  unfolding collect_lines
  collect_lines-Taken [] = (tt, refl)
  collect_lines-Taken (line ∷ lines) =
      collect-Taken line lines (parse_line json debug line) (collect_lines json debug lines)
        (parse_line-Taken line (json.from_str line) refl) (collect_lines-Taken lines)

  -- What the client takes from a reply to its fetch are exactly the operations that the lines
  -- which are not blank say, none left out, and each has a revision in range and a canonical path.
  pub deserialize_inbox_ndjson-IsAcceptable :
      (body : Text) (ops : List InboxOp)
      → deserialize_inbox_ndjson json debug body ≡ ok ops
      → All IsAcceptable ops × (map json.from_str (non_empty_lines body) ≡ map ok ops)
  unfolding deserialize_inbox_ndjson
  deserialize_inbox_ndjson-IsAcceptable body ops h =
      subst (TakenLines (non_empty_lines body)) h (collect_lines-Taken (non_empty_lines body))

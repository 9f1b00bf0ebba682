-- ===== src/Protocol.antt =====
-- rust-client/src/protocol.rs: the messages and the server's replies. The path policy of that file
-- is in Paths, its operations are in Op. `serde_json` is a parameter, as is the standard
-- library's `{:?}` of a string, which escapes by Unicode's tables.
pub mod Replies
use obsidian_sync_engine.Base.{
  ℕ, Text, codes, to_decimal, Bool, true, false, not, Option, none, some, List, [], ◌∷◌, ◌++◌,
  if◌then◌else◌, leb, Result, ok, err,
}
use obsidian_sync_engine.Op.{InboxOp}
use obsidian_sync_engine.Error.{Error, other, display, with_context}
use obsidian_sync_engine.Jsonl.{Codec, non_empty_lines}
use obsidian_sync_engine.Paths.{is_canonical_sync_path}

abbrev pub max_revision : ℕ
max_revision = 9_007_199_254_740_991

pub data Message : Type 0 where
  auth_required : Message
  auth_init : (client_name token : Text) → Message
  auth_ack : (client_name token : Text) → Message
  auth_success : Message
  auth_failed : (reason : Text) → Message
  reset_client_name : (new_client_name token : Text) → Message
  message : (payload : Text) → Message
  error : (reason : Text) → Message

-- `impl Debug for Message`
unfoldable pub fmt : Message → Text
fmt auth_required = codes "AuthRequired"
fmt (auth_init client_name token) = codes "AuthInit(" ++ (client_name ++ codes ", <masked>)")
fmt (auth_ack client_name token) = codes "AuthAck(" ++ (client_name ++ codes ", <masked>)")
fmt auth_success = codes "AuthSuccess"
fmt (auth_failed reason) = codes "AuthFailed(" ++ (reason ++ codes ")")
fmt (reset_client_name new_client_name token) =
    codes "ResetClientName(" ++ (new_client_name ++ codes ", <masked>)")
fmt (message payload) = codes "Message(<payload>)"
fmt (error reason) = codes "Error(" ++ (reason ++ codes ")")

unfoldable pub deserialize_message : Codec Message → Text → Result Error Message
unfolding display
deserialize_message json raw = elim (json.from_str raw) [
  | ok m ↦ ok m
  | err e ↦ err (other (codes "invalid message: " ++ display e))
]

unfoldable pub is_valid_revision : ℕ → Bool
is_valid_revision revision = leb revision max_revision

module _ (json : Codec InboxOp) (debug : Text → Text) where
  -- The tests of the closure of `deserialize_inbox_ndjson` on a line that was parsed.
  unfoldable pub check_op : InboxOp → Result Error InboxOp
  unfolding is_valid_revision is_canonical_sync_path to_decimal
  check_op op =
      if not (is_valid_revision op.rev)
      then err (other (codes "inbox revision out of range: " ++ to_decimal op.rev))
      else if not (is_canonical_sync_path op.path)
      then err (other (codes "inbox path is not canonical: " ++ debug op.path))
      else ok op

  unfoldable pub parse_line : Text → Result Error InboxOp
  unfolding check_op with_context
  parse_line line = elim (json.from_str line) [
    | ok op ↦ check_op op
    | err e ↦ err (with_context (codes "invalid inbox line") e)
  ]

  -- `map` and `collect`: the first error ends it.
  unfoldable pub collect_lines : List Text → Result Error (List InboxOp)
  unfolding parse_line
  collect_lines [] = ok []
  collect_lines (line ∷ lines) =
      let rest = collect_lines lines in
      elim (parse_line line) [
        | ok op ↦ elim rest [ ok ops ↦ ok (op ∷ ops) | err e ↦ err e ]
        | err e ↦ err e
      ]

  unfoldable pub deserialize_inbox_ndjson : Text → Result Error (List InboxOp)
  unfolding collect_lines
  deserialize_inbox_ndjson body = collect_lines (non_empty_lines body)

-- `revision_field` parses the body as JSON and gives its field `revision`, if it has one that is
-- a `u64`.
unfoldable pub parse_revision_response : (Text → Result Error (Option ℕ)) → Text → Result Error ℕ
unfolding is_valid_revision with_context to_decimal
parse_revision_response revision_field body = elim (revision_field body) [
  | err e ↦ err (with_context (codes "invalid JSON response") e)
  | ok none ↦ err (other (codes "response has no valid revision"))
  | ok (some revision) ↦
      if not (is_valid_revision revision)
      then err (other (codes "revision out of range: " ++ to_decimal revision))
      else ok revision
]

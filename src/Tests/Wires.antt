-- ===== src/Tests/Wires.antt =====
-- Replies of a server to rust-client, and the processes that it looks at.
use obsidian_sync_engine.Base.{
  ℕ, Text, codes, ◌≡◌, ◌≤◌, ◌<◌, refl, ◌||◌, some, List, [], ◌∷◌, ◌==◌, map, All, ok, Ensures,
}
use obsidian_sync_engine.Base.Tests.{nat_eq, list_eq}
use obsidian_sync_engine.Op.{put, delete, InboxOp}
use obsidian_sync_engine.Error.{is_permanent_remote}
use obsidian_sync_engine.Jsonl.{non_empty_lines}
use obsidian_sync_engine.Jsonl.Journal.{journal_text}
use obsidian_sync_engine.Paths
use obsidian_sync_engine.Protocol
use obsidian_sync_engine.Protocol.{Message, max_revision, fmt, deserialize_inbox_ndjson}
use obsidian_sync_engine.Protocol.Replies.{IsAcceptable, deserialize_inbox_ndjson-IsAcceptable}
use obsidian_sync_engine.Http.{Wire, HttpTransport, upload}
use obsidian_sync_engine.Http.Outcomes.{reply, upload_lem}
use obsidian_sync_engine.Tests.Codecs.{inbox_codec, inbox_line}

abbrev secret : Text
secret = codes "obs_sync_secret"

abbrev fetched : List InboxOp
fetched =
    record { rev = 4; op = put; path = codes "a/b.md" }
    ∷ record { rev = 5; op = delete; path = codes "c.md" }
    ∷ []

abbrev quoted : Text → Text
quoted text = text

deserialize_inbox_ndjson-IsAcceptable_example :
    All IsAcceptable fetched
    × (map inbox_codec.from_str (non_empty_lines (journal_text inbox_line fetched))
        ≡ map ok fetched)
unfolding deserialize_inbox_ndjson Protocol.collect_lines Protocol.parse_line Protocol.check_op
    Protocol.is_valid_revision Paths.is_canonical_sync_path inbox_codec list_eq
deserialize_inbox_ndjson-IsAcceptable_example =
    deserialize_inbox_ndjson-IsAcceptable inbox_codec quoted (journal_text inbox_line fetched)
      fetched refl

-- A server that answers every request with the status that the world holds.
abbrev wire : Wire ℕ
wire = record {
  call = λ request status. (ok (reply status (codes "9") (ok [])), status);
  messages = record { to_string = λ m. ok (fmt m); from_str = λ t. ok Message.auth_success };
  operations = inbox_codec;
  revision_field = λ text. ok (some 9);
  debug = quoted;
}

abbrev http : HttpTransport
http = record { server_url = codes "https://sync.example"; secret = secret }

abbrev refused : ℕ
refused = 413

upload_lem_example :
    Ensures
      (λ r s'. (s' ≡ 413) × (refused < 400) × (r ≤ max_revision))
      (λ e s'. (s' ≡ 413) × (is_permanent_remote e ≡ (refused == 413 || refused == 400)))
      (upload wire http (codes "a/b.md") (1 ∷ 2 ∷ []) 413)
upload_lem_example =
    upload_lem wire http (codes "a/b.md") (codes "9") (1 ∷ 2 ∷ []) 413 413 413 (ok []) refl

abbrev arguments : List Text
arguments = codes "/usr/bin/obsidian-sync-client" ∷ codes "/home/me/obsidian/notes" ∷ []

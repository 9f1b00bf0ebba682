-- ===== src/Tests/Rules.antt =====
-- Runs of the guard, the path rules and the orders of the journals on small data.
use obsidian_sync_engine.Base.{
  ℕ, Text, codes, ◌≡◌, refl, ◌||◌, true, false, none, some, List, [], ◌∷◌, ◌++◌, ◌≤◌, filter, All,
  arith, to_bytes,
}
use obsidian_sync_engine.Base.Tests.{nat_eq, list_eq}
use obsidian_sync_engine.Op.{OpKind, put, delete}
use obsidian_sync_engine.Guard
use obsidian_sync_engine.Guard.{MassPushGuard}
use obsidian_sync_engine.Guard.Window.{deletes_in, puts_in, is_recent, record_all, check-IsWithin}
use obsidian_sync_engine.Paths
use obsidian_sync_engine.Paths.{
  paths_structurally_conflict, contains_client_state, encode_uri_component,
}
use obsidian_sync_engine.Paths.Segments.{
  segments, is_prefix, paths_structurally_conflict-eq-is_prefix,
}
use obsidian_sync_engine.Paths.ClientState.{contains_client_state_complete}
use obsidian_sync_engine.Paths.Encode.{decode_bytes, IsSafe, encode_uri_component_lem}
use obsidian_sync_engine.Settings.{normalize_server_url, server_identity_for}
use obsidian_sync_engine.Settings.Identity.{server_identity_for_lem}
use obsidian_sync_engine.Outbox.{OutboxOp, coalesce}
use obsidian_sync_engine.Outbox.Coalesce.{newest, HasNoRepeat, coalesce_keeps_newest}

abbrev now : ℕ
now = 600_000_000_003

-- The first push is out of the window.
abbrev history : List (ℕ × OpKind)
history = (0, delete) ∷ (5, put) ∷ []

abbrev pushes : List (ℕ × OpKind)
pushes = (now, put) ∷ (now, delete) ∷ []

abbrev guard : MassPushGuard
guard = record { max_deletes = 1; max_puts = 3; recent = history; approved = false }

check-IsWithin_example :
    ((record_all (Guard.check guard (deletes_in pushes) (puts_in pushes) now).1 pushes).recent
      ≡ filter (is_recent now) history ++ pushes)
    × (deletes_in (filter (is_recent now) history ++ pushes) ≤ 1)
    × (puts_in (filter (is_recent now) history ++ pushes) ≤ 3)
unfolding Guard.check Guard.verdict Guard.drop_expired
check-IsWithin_example =
    check-IsWithin guard history pushes 0 now (omega arith, (omega arith, tt)) refl refl refl

abbrev note : Text
note = codes "a/b.md"

abbrev folder : Text
folder = codes "a"

paths_structurally_conflict-eq-is_prefix_example :
    paths_structurally_conflict note folder
    ≡ (is_prefix (segments folder) (segments note) || is_prefix (segments note) (segments folder))
paths_structurally_conflict-eq-is_prefix_example =
    paths_structurally_conflict-eq-is_prefix note folder

contains_client_state_complete_example : contains_client_state Paths.config_dir ≡ true
unfolding Paths.is_sync_excluded_path list_eq
contains_client_state_complete_example =
    contains_client_state_complete Paths.config_dir Paths.client_data_path refl refl

abbrev accented : Text
accented = codes "é/ b"

encode_uri_component_lem_example :
    (decode_bytes (encode_uri_component accented) ≡ to_bytes accented)
    × All IsSafe (encode_uri_component accented)
encode_uri_component_lem_example =
    encode_uri_component_lem accented (omega arith, (omega arith, (omega arith, (omega arith, tt))))

abbrev twice : List OutboxOp
twice =
    record { op = put; path = note; ts = 1; base_revision = none }
    ∷ record { op = put; path = note; ts = 2; base_revision = none }
    ∷ record { op = delete; path = folder; ts = 3; base_revision = some 4 }
    ∷ []

coalesce_keeps_newest_example :
    ((p : Text) → newest p (coalesce twice) ≡ newest p twice)
    × HasNoRepeat (coalesce twice)
    × (coalesce (coalesce twice) ≡ coalesce twice)
coalesce_keeps_newest_example = coalesce_keeps_newest twice

abbrev server : Text
server = codes " http://a "

abbrev server_slash : Text
server_slash = codes "http://a/"

server_identity_for_lem_example :
    to_bytes (normalize_server_url server) ≡ to_bytes (normalize_server_url server_slash)
unfolding normalize_server_url server_identity_for
server_identity_for_lem_example =
    server_identity_for_lem server server_slash
      (
        omega arith,
        (
          omega arith,
          (
            omega arith,
            (omega arith, (omega arith, (omega arith, (omega arith, (omega arith, tt))))),
          ),
        ),
      )
      (
        omega arith,
        (
          omega arith,
          (
            omega arith,
            (omega arith, (omega arith, (omega arith, (omega arith, (omega arith, tt))))),
          ),
        ),
      )
      refl

-- ===== src/Paths.antt =====
-- rust-client/src/paths.rs, and the path policy of rust-client/src/protocol.rs.
pub mod Segments
pub mod ClientState
pub mod Encode
use obsidian_sync_engine.Base.{
  ℕ, ◌+◌, ◌/◌, ◌%◌, Text, Bytes, codes, starts_with, contains_char, ends_with_char, split,
  is_ascii_alphabetic, to_bytes, Bool, true, false, not, ◌&&◌, ◌||◌, List, [], ◌∷◌, ◌++◌, ltb, leb,
  if◌then◌else◌, ◌==◌, filter, all, is_empty, Result, ok, err,
}
use obsidian_sync_engine.Base.Tests.{nat_eq, list_eq}
use obsidian_sync_engine.Error.{Error, other}

abbrev pub client_data_path : Text
client_data_path = codes ".obsidian/plugins/obsidian-sync-engine/data.json"

abbrev pub plugin_dir : Text
plugin_dir = codes ".obsidian/plugins/obsidian-sync-engine"

abbrev pub config_dir : Text
config_dir = codes ".obsidian"

-- `format!("{dir}/{rest}")` and `format!("{dir}/")`.
abbrev pub join : Text → Text → Text
join dir rest = dir ++ (b'/' ∷ rest)

abbrev pub state_root : Text
state_root = join plugin_dir (codes "state")

unfoldable pub has_windows_drive : Text → Bool
has_windows_drive (c ∷ d ∷ rest) = is_ascii_alphabetic c && d == b':'
has_windows_drive (c ∷ []) = false
has_windows_drive [] = false

abbrev pub is_plain_segment : Text → Bool
is_plain_segment segment =
    not (is_empty segment) && not (segment == codes ".") && not (segment == codes "..")

unfoldable pub is_canonical_sync_path : Text → Bool
unfolding has_windows_drive
is_canonical_sync_path path =
    if is_empty path
      || contains_char 0 path
      || contains_char b'\\' path
      || starts_with (b'/' ∷ []) path
      || ends_with_char b'/' path
      || has_windows_drive path
    then false
    else all is_plain_segment (split b'/' path) && not (path == client_data_path)

unfoldable pub canonicalize_sync_path : Text → Result Error Text
canonicalize_sync_path path =
    if not (is_canonical_sync_path path)
    then err (other (codes "Invalid sync path: " ++ path))
    else ok path

-- `segments.pop()`
abbrev pub without_last : List Text → List Text
without_last [] = []
without_last (s ∷ []) = []
without_last (s ∷ t ∷ ss) = s ∷ without_last (t ∷ ss)

-- The loop of `ancestor_dirs`: the directory so far, and the segments to come.
unfoldable pub ancestors_from : Text → List Text → List Text
ancestors_from current [] = []
ancestors_from current (segment ∷ segments) =
    let next = (if is_empty current then segment else join current segment) in
    next ∷ ancestors_from next segments

unfoldable pub ancestor_dirs : Text → List Text
unfolding ancestors_from
ancestor_dirs path =
    ancestors_from [] (filter (λ s. not (is_empty s)) (without_last (split b'/' path)))

unfoldable pub is_sync_excluded_path : Text → Bool
is_sync_excluded_path path =
    path == join plugin_dir (codes "data.json")
    || path == state_root
    || starts_with (join state_root []) path

unfoldable pub contains_client_state : Text → Bool
unfolding is_sync_excluded_path
contains_client_state path =
    is_sync_excluded_path path || plugin_dir == path || starts_with (join path []) plugin_dir

abbrev pub is_hidden : Text → Bool
is_hidden segment = starts_with (b'.' ∷ []) segment

-- The tests of `is_watched_path` on the segments, the first of them set apart.
abbrev pub are_visible : List Text → Bool
are_visible [] = true
are_visible (first ∷ segments) =
    if is_hidden first && not (first == config_dir)
    then false
    else all (λ s. not (is_hidden s)) segments

unfoldable pub is_watched_path : Text → Bool
unfolding is_canonical_sync_path is_sync_excluded_path
is_watched_path path =
    if not (is_canonical_sync_path path) || is_sync_excluded_path path
    then false
    else are_visible (split b'/' path)

unfoldable pub paths_structurally_conflict : Text → Text → Bool
paths_structurally_conflict left right =
    left == right || starts_with (join right []) left || starts_with (join left []) right

-- The bytes that `encodeURIComponent` leaves as they are.
abbrev pub is_unreserved : ℕ → Bool
is_unreserved b =
    leb b'A' b && leb b b'Z'
    || leb b'a' b && leb b b'z'
    || leb b'0' b && leb b b'9'
    || b == b'-'
    || b == b'_'
    || b == b'.'
    || b == b'!'
    || b == b'~'
    || b == b'*'
    || b == 0x27
    || b == b'('
    || b == b')'

abbrev pub hex_digit : ℕ → ℕ
hex_digit d = if ltb d 10 then b'0' + d else 55 + d

unfoldable pub encode_bytes : Bytes → Text
encode_bytes [] = []
encode_bytes (byte ∷ bytes) =
    let rest = encode_bytes bytes in
    if is_unreserved byte
    then byte ∷ rest
    else b'%' ∷ hex_digit (byte / 16) ∷ hex_digit (byte % 16) ∷ rest

unfoldable pub encode_uri_component : Text → Text
unfolding encode_bytes
encode_uri_component value = encode_bytes (to_bytes value)

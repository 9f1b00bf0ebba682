-- ===== src/Watcher.antt =====
-- rust-client/src/watcher.rs: which filesystem events reach the main loop. The crate `notify` is
-- the source of `Event`; an event's path is none where it is not UTF-8.
pub mod Relevant
use obsidian_sync_engine.Base.{
  Text, Bool, true, false, Option, none, some, List, [], ◌∷◌, ◌++◌, ◌||◌, if◌then◌else◌, ◌==◌,
  is_empty, Result, ok, err,
}
use obsidian_sync_engine.Base.Tests.{nat_eq, list_eq}
use obsidian_sync_engine.Paths.{is_sync_excluded_path}

pub data FsEvent : Type 0 where
  changed : Text → FsEvent
  rescan : FsEvent

-- `AccessMode`, `AccessKind` and `EventKind` of `notify`, as far as `is_relevant` looks into them.
pub data AccessMode : Type 0 where
  any_mode execute read write other_mode : AccessMode

pub data AccessKind : Type 0 where
  any_access read_access other_access : AccessKind
  open_access : AccessMode → AccessKind
  close : AccessMode → AccessKind

pub data EventKind : Type 0 where
  any_event create modify remove other_event : EventKind
  access : AccessKind → EventKind

pub record Event : Type 0 where
  pub need_rescan : Bool
  pub kind : EventKind
  pub paths : List (Option (List Text))

-- `strip_prefix` on the components of a path.
unfoldable pub strip_prefix : List Text → List Text → Option (List Text)
unfolding list_eq
strip_prefix [] path = some path
strip_prefix (c ∷ root) [] = none
strip_prefix (c ∷ root) (d ∷ path) =
    let rest = strip_prefix root path in if c == d then rest else none

-- The components joined, as `to_str` prints them.
unfoldable pub to_str : List Text → Text
to_str [] = []
to_str (c ∷ []) = c
to_str (c ∷ d ∷ path) = c ++ (b'/' ∷ to_str (d ∷ path))

abbrev pub visible : Text → Option Text
unfolding is_sync_excluded_path
visible relative =
    if is_empty relative || is_sync_excluded_path relative then none else some relative

abbrev pub visible_in : Option (List Text) → Option Text
unfolding to_str is_sync_excluded_path
visible_in none = none
visible_in (some relative) = visible (to_str relative)

unfoldable pub relative_event_path : List Text → Option (List Text) → Option Text
unfolding strip_prefix to_str is_sync_excluded_path
relative_event_path root none = none
relative_event_path root (some path) = visible_in (strip_prefix root path)

unfoldable pub is_relevant : EventKind → Bool
is_relevant (access (close write)) = true
is_relevant (access kind) = false
is_relevant kind = true

-- The body of the `for` loop over the paths, in front of what the rest of the loop sends.
abbrev pub sent : Option Text → List FsEvent → List FsEvent
sent none later = later
sent (some relative) later = changed relative ∷ later

unfoldable pub send_paths : List Text → List (Option (List Text)) → List FsEvent
unfolding relative_event_path
send_paths root [] = []
send_paths root (path ∷ paths) = sent (relative_event_path root path) (send_paths root paths)

abbrev pub rescans : Bool → List FsEvent
rescans true = rescan ∷ []
rescans false = []

-- The handler that `VaultWatcher::start` installs: what it sends for what `notify` reports, an
-- event or an error.
unfoldable pub handle : List Text → Result Text Event → List FsEvent
unfolding is_relevant send_paths
handle root (ok event) =
    rescans event.need_rescan
    ++ (if is_relevant event.kind then send_paths root event.paths else [])
handle root (err error) = rescan ∷ []

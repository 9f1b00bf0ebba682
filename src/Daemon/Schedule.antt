-- ===== src/Daemon/Schedule.antt =====
-- rust-client/src/daemon.rs: when the next tick runs, and when changed paths are released. An
-- `Instant` and a `Duration` are numbers of nanoseconds.
use obsidian_sync_engine.Base.{
  ℕ, ◌+◌, ◌-◌, ◌*◌, ◌^◌, Text, Bool, false, ◌||◌, Option, none, some, List, [], if◌then◌else◌, ◌==◌,
  leb, min, TextSet,
}
use obsidian_sync_engine.Base.Tests.{nat_eq}
use obsidian_sync_engine.Base.Set

abbrev pub millis : ℕ → ℕ
millis n = n * 1_000_000

abbrev pub secs : ℕ → ℕ
secs n = n * 1_000_000_000

abbrev pub tick_interval : ℕ
tick_interval = 3_000_000_000

abbrev pub debounce : ℕ
debounce = 1_000_000_000

abbrev pub event_quiet : ℕ
event_quiet = 250_000_000

abbrev pub event_max_hold : ℕ
event_max_hold = 3_000_000_000

abbrev pub max_backoff : ℕ
max_backoff = 30_000_000_000

abbrev pub rescan_interval : ℕ
rescan_interval = 300_000_000_000

abbrev pub u32_max : ℕ
u32_max = 0xffffffff

pub record TickSchedule : Type 0 where
  pub next : ℕ
  pub failures : ℕ

unfoldable pub new : ℕ → TickSchedule
new now = record { next = now; failures = 0 }

unfoldable pub due : ℕ → TickSchedule → Bool
due now schedule = leb schedule.next now

unfoldable pub local_change : ℕ → TickSchedule → TickSchedule
local_change now schedule =
    if schedule.failures == 0 then record schedule { next = now + debounce } else schedule

-- `saturating_add(1)` on a `u32`.
abbrev pub one_more : ℕ → ℕ
one_more failures = min (failures + 1) u32_max

-- `1u32 << self.failures.saturating_sub(1).min(6)`
unfoldable pub factor : ℕ → ℕ
factor failures = 2 ^ min (failures - 1) 6

unfoldable pub completed : Bool → ℕ → TickSchedule → TickSchedule
unfolding factor
completed ok now schedule =
    if ok
    then record { next = now + tick_interval; failures = 0 }
    else let failures = one_more schedule.failures in
      record { next = now + min (tick_interval * factor failures) max_backoff; failures = failures }

pub record DirtyPaths : Type 0 where
  pub paths : TextSet
  pub first : Option ℕ
  pub last : Option ℕ

abbrev pub clean : DirtyPaths
clean = record { paths = []; first = none; last = none }

abbrev pub get_or_insert : ℕ → Option ℕ → ℕ
get_or_insert now none = now
get_or_insert now (some at) = at

unfoldable pub add : Text → ℕ → DirtyPaths → DirtyPaths
unfolding Set.insert
add path now dirty = record {
  paths = Set.insert path dirty.paths;
  first = some (get_or_insert now dirty.first);
  last = some now;
}

-- The `match` of `ready`; `duration_since` is 0 where the argument is the later one.
abbrev pub held : ℕ → Option ℕ → Option ℕ → Bool
held now (some first) (some last) = leb event_quiet (now - last) || leb event_max_hold (now - first)
held now (some first) none = false
held now none last = false

unfoldable pub ready : ℕ → DirtyPaths → Bool
ready now dirty = held now dirty.first dirty.last

unfoldable pub take : DirtyPaths → List Text × DirtyPaths
take dirty = (dirty.paths, clean)

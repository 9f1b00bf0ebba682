-- ===== src/Daemon/Turn.antt =====
-- rust-client/src/daemon.rs: the main loop. Its variables stand beside the engine, the settings
-- and the world; `log_tick` gives the events that it logs.
use obsidian_sync_engine.Base.{
  ℕ, zero, suc, Text, Bool, true, false, ◌||◌, Option, none, some, List, [], ◌∷◌, ◌++◌,
  if◌then◌else◌, ◌==◌, ltb, ok, pure, fail, codes, ◌>>=◌, ◌>>◌, on_world, update, for_each,
}
use obsidian_sync_engine.Base.Tests.{nat_eq, list_eq}
use obsidian_sync_engine.Error.{Any, other}
use obsidian_sync_engine.Settings
use obsidian_sync_engine.Settings.{Settings}
use obsidian_sync_engine.Http.{HttpTransport}
use obsidian_sync_engine.Watcher.{FsEvent, changed, rescan}
use obsidian_sync_engine.Engine.State.{Env, State, reading}
use obsidian_sync_engine.Engine.Queue.{hydrate}
use obsidian_sync_engine.Engine.Startup.{rebaseline_after_handover}
use obsidian_sync_engine.Engine.Push.{Counts}
use obsidian_sync_engine.Engine.Tick.{FailureKind, dead_letter, halted, suspended, error}
use obsidian_sync_engine.Daemon.Schedule
use obsidian_sync_engine.Daemon.Schedule.{
  TickSchedule, DirtyPaths, clean, millis, secs, rescan_interval,
}
use obsidian_sync_engine.Daemon.Host.{Host, World, Received, event, timeout, disconnected, env_of}

pub data LogEvent : Type 0 where
  mass_push_halted : Text → LogEvent
  tick_failed : Text → (pushed applied : ℕ) → LogEvent
  tick_recovered : LogEvent
  tick_completed : (pushed applied : ℕ) → LogEvent

-- The `match kind` of `log_tick`.
abbrev failure_event : FailureKind → Text → Counts → List LogEvent
failure_event suspended message c = []
failure_event halted message c = mass_push_halted message ∷ []
failure_event error message c = tick_failed message c.pushed c.applied ∷ []
failure_event dead_letter message c = tick_failed message c.pushed c.applied ∷ []

abbrev is_last : Option Text → Text → Bool
is_last none message = false
is_last (some last) message = last == message

abbrev recovered : Option Text → List LogEvent
recovered none = []
recovered (some last) = tick_recovered ∷ []

-- `log_tick` on the failure and the counts: the events, and the last error.
unfoldable pub log_tick :
    Option (FailureKind × Text) → Counts → Option Text → List LogEvent × Option Text
unfolding list_eq
log_tick (some (kind, message)) c last_error =
    if is_last last_error message
    then ([], last_error)
    else (failure_event kind message c, some message)
log_tick none c last_error = (
  recovered last_error
      ++ (if ltb 0 c.pushed || ltb 0 c.applied then tick_completed c.pushed c.applied ∷ [] else []),
  none,
)

-- `settled` in `main_loop`.
abbrev pub is_settled : Option (FailureKind × Text) → Bool
is_settled none = true
is_settled (some (dead_letter, message)) = true
is_settled (some (kind, message)) = false

-- The variables of `main_loop`.
pub record Loop : Type 0 where
  pub schedule : TickSchedule
  pub dirty : DirtyPaths
  pub last_error : Option Text
  pub last_rescan : ℕ
  pub rescan_requested : Bool

abbrev pub Turn : Type 0 → Type 0
Turn W = Loop × State (World W)

-- The assignments of `absorb`.
abbrev pub note_change : Text → ℕ → Loop → Loop
unfolding Schedule.add
note_change path now l = record l { dirty = Schedule.add path now l.dirty }

abbrev pub request_rescan : Loop → Loop
request_rescan l = record l { rescan_requested = true }

module _ {W : Type 0} (host : Host W) (http : HttpTransport) where
  abbrev pub env : Env (World W)
  env = env_of host http

  abbrev pub on_host : {A : Type 0} → Any W A → Any (State (World W)) A
  on_host m = on_world (on_world m)

  abbrev pub instant : Any (Turn W) ℕ
  instant = on_world (on_host (reading host.now))

  -- `thread::sleep` and `events.try_iter().count()`.
  abbrev pub sleep : ℕ → Any (State (World W)) (Unit {0})
  sleep duration (e, (settings, w)) = (ok tt, (e, (settings, host.sleep duration w)))

  abbrev pub drop_events : Any (State (World W)) (Unit {0})
  drop_events (e, (settings, w)) = (ok tt, (e, (settings, (host.try_iter w).1)))

  unfoldable pub absorb : FsEvent → Any (Turn W) (Unit {0})
  unfolding Schedule.add
  absorb (changed path) = do now ← instant; update (note_change path now)
  absorb rescan = update request_rescan

  -- The arms of the `match` on `recv_timeout`.
  unfoldable pub receive : Received → Any (Turn W) (Unit {0})
  unfolding absorb for_each
  receive (event e) = do
    absorb e
    more ← on_world (on_host (reading host.try_iter))
    for_each more absorb
  receive timeout = pure tt
  receive disconnected = fail (other (codes "filesystem watcher stopped"))

  -- The `while` of `pause_for_obsidian`, with fuel for its rounds; false where it is still running.
  unfoldable pub wait_for_exit : ℕ → Any (State (World W)) Bool
  wait_for_exit zero = pure false
  wait_for_exit (suc fuel) = do
    running ← on_host (reading host.obsidian)
    elim running [
      | false ↦ pure true
      | true ↦ do
        stopped ← on_host (reading host.shutdown)
        elim stopped [
          | true ↦ pure true
          | false ↦ do sleep (millis 500); drop_events; wait_for_exit fuel
        ]
    ]

  -- What follows when Obsidian has exited; `replace_revision_store` puts the new settings in place
  -- of the old.
  unfoldable pub take_over : Any (State (World W)) (Unit {0})
  unfolding Settings.load hydrate rebaseline_after_handover
  take_over = do
    sleep (secs 1)
    drop_events
    settings ← on_host (Settings.load host.files host.object_codec)
    on_world (update (λ _. settings))
    hydrate env
    rebaseline_after_handover env

  unfoldable pub pause_for_obsidian : ℕ → Any (State (World W)) Bool
  unfolding wait_for_exit take_over
  pause_for_obsidian fuel = do
    ended ← wait_for_exit fuel
    elim ended [
      | false ↦ pure false
      | true ↦ do
        stopped ← on_host (reading host.shutdown)
        elim stopped [ true ↦ pure true | false ↦ do take_over; pure true ]
    ]

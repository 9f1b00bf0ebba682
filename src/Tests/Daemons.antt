-- ===== src/Tests/Daemons.antt =====
-- Runs of the service of rust-client: a world of files in memory, a clock that moves as the
-- service sleeps, a shutdown at an instant, and a server that verifies every client.
use obsidian_sync_engine.Base.{
  inr, ℕ, ◌+◌, ◌*◌, ◌^◌, ◌≤◌, ◌-◌, Text, codes, ◌≡◌, ◌⊎◌, inl, if◌then◌else◌, refl, Bool, true,
  false, ◌||◌, none, some, List, [], ◌∷◌, ◌++◌, ◌==◌, leb, min, length, any, ok, Ensures, All,
  arith,
}
use obsidian_sync_engine.Base.Tests.{nat_eq, list_eq}
use obsidian_sync_engine.Base.Set
use obsidian_sync_engine.Guard
use obsidian_sync_engine.Guard.Process.{Entry, obsidian_running}
use obsidian_sync_engine.Protocol.{Message, fmt}
use obsidian_sync_engine.Settings.{Settings, Object, string, unsigned}
use obsidian_sync_engine.Http.{HttpTransport, Response}
use obsidian_sync_engine.Watcher
use obsidian_sync_engine.Watcher.{FsEvent, Event, access, close, write, is_relevant, to_str, handle}
use obsidian_sync_engine.Watcher.Relevant.{IsIn, Comes, handle-Comes, handle_complete}
use obsidian_sync_engine.Paths.{is_sync_excluded_path}
use obsidian_sync_engine.Engine.State
use obsidian_sync_engine.Engine.State.{SyncEngine, State}
use obsidian_sync_engine.Daemon.Schedule.{
  TickSchedule, new, completed, due, tick_interval, max_backoff, u32_max, ready, take, event_quiet,
  event_max_hold,
}
use obsidian_sync_engine.Daemon.Backoff.{
  after_failures, completed_backoff, Reach, started, ticked, Reach-due,
}
use obsidian_sync_engine.Daemon.Release.{collected, oldest, release_lem}
use obsidian_sync_engine.Daemon.Monitor.{Monitor, iterations, monitor_follows}
use obsidian_sync_engine.Daemon.Host.{Host, Received, event, timeout}
use obsidian_sync_engine.Daemon.Connect.{connect}
use obsidian_sync_engine.Daemon.Connecting.{
  Agree, IsAccepted, IsStopped, connect-Agree, connect_lem,
}
use obsidian_sync_engine.Daemon.Turn.{Loop, receive}
use obsidian_sync_engine.Daemon.MainLoop.{main_loop, turn}
use obsidian_sync_engine.Daemon.Paused.{IsPaused, main_loop_paused}
use obsidian_sync_engine.Daemon.Noticed.{KeepsChange, turn-KeepsChange}
use obsidian_sync_engine.Daemon.Collected.{IsCollected, since, receive_collects}
use obsidian_sync_engine.Daemon.Run.{RunOptions, Process, run}
use obsidian_sync_engine.Daemon.Exclusive.{IsLocked, run_locked_out}
use obsidian_sync_engine.Tests.Memory.{Disk, memory_fs}
use obsidian_sync_engine.Tests.Codecs.{inbox_codec, outbox_codec, manifest_codec}

-- The first tick fails, as do three more; the fifth failure, at instant 100, waits for thirty
-- seconds.
completed_backoff_example :
    (completed false 100 (after_failures (new 0) (80 ∷ 60 ∷ 40 ∷ 20 ∷ []))).next
    ≡ 100 + min (tick_interval * 2 ^ length {A = ℕ} (80 ∷ 60 ∷ 40 ∷ 20 ∷ [])) max_backoff
unfolding new
completed_backoff_example = completed_backoff (new 0) (80 ∷ 60 ∷ 40 ∷ 20 ∷ []) 100 refl

abbrev slow : TickSchedule
unfolding new completed
slow = completed false 7 (new 5)

slow-Reach : Reach 7 slow
unfolding new completed due
slow-Reach = ticked (started 5) 6 7 (omega arith) (omega arith) refl false

Reach-due_example :
    (due (7 + (if slow.failures == 0 then tick_interval else max_backoff)) slow ≡ true)
    × (slow.failures ≤ u32_max)
unfolding new completed
Reach-due_example = Reach-due slow-Reach

abbrev burst : List (Text × ℕ)
burst = (codes "b.md", 200) ∷ (codes "a.md", 100) ∷ []

release_lem_example :
    (ready 3_000_000_100 (collected ((codes "a.md", 300) ∷ burst)) ≡ (
      leb event_quiet (3_000_000_100 - 300)
      || leb event_max_hold (3_000_000_100 - oldest 300 burst)))
    × ((j : Text)
        → Set.contains j (take (collected ((codes "a.md", 300) ∷ burst))).0
          ≡ any (λ (c : Text × ℕ). c.0 == j) ((codes "a.md", 300) ∷ burst))
    × (ready 3_000_000_100 (take (collected ((codes "a.md", 300) ∷ burst))).1 ≡ false)
release_lem_example = release_lem (codes "a.md") 300 burst 3_000_000_100

abbrev electron : Entry
electron = record {
  name = codes "77";
  uid = some 1000;
  comm = codes "electron";
  cmdline = codes "/usr/lib/obsidian.asar" ∷ [];
}

-- The counter is about to wrap.
abbrev late_monitor : Monitor
late_monitor = record { iteration = 4294967293; obsidian = false; suspended = false }

monitor_follows_example :
    ((iterations 10 (some 1000) (electron ∷ []) false late_monitor).obsidian
      ≡ obsidian_running 1000 (electron ∷ []))
    × ((iterations 10 (some 1000) (electron ∷ []) false late_monitor).suspended
        ≡ (false || obsidian_running 1000 (electron ∷ [])))
monitor_follows_example =
    monitor_follows 1000 (electron ∷ []) false 10 late_monitor (omega arith) (omega arith)

abbrev vault : List Text
vault = codes "home" ∷ codes "vault" ∷ []

abbrev written : Event
written = record {
  need_rescan = false;
  kind = access (close write);
  paths = some (vault ++ (codes "a.md" ∷ [])) ∷ none ∷ [];
}

handle-Comes_example :
    All (Comes vault written.need_rescan written.paths) (handle vault (ok written))
handle-Comes_example = handle-Comes vault written

handle_complete_example : IsIn (Watcher.changed (codes "a.md")) (handle vault (ok written))
unfolding is_relevant is_sync_excluded_path to_str list_eq
handle_complete_example =
    handle_complete vault written (codes "a.md" ∷ []) refl (inl refl) (refl, refl)

-- What stands beside the files: a clock, the instant of the shutdown, events to come, and the text
-- of `data.json`.
record Machine : Type 0 where
  clock : ℕ
  stop_at : ℕ
  events : List FsEvent
  object_text : Text

abbrev Computer : Type 0
Computer = Disk Machine

abbrev passed : ℕ → Computer → Computer
passed duration d = record d { others = record d.others { clock = d.others.clock + duration } }

abbrev next_event : List FsEvent → Computer → Received × Computer
next_event [] d = (timeout, passed 100 d)
next_event (e ∷ more) d = (event e, record d { others = record d.others { events = more } })

abbrev answer : Response
answer = record { status = 200; text = ok (codes "{}"); bytes = ok [] }

abbrev stored : Object
stored =
    (codes "serverUrl", string (codes "http://a"))
    ∷ (codes "clientName", string (codes "laptop"))
    ∷ (codes "clientSecret", string (codes "s"))
    ∷ (codes "revision", unsigned 3)
    ∷ []

abbrev host : Bool → Host Computer
host running = record {
  fs = memory_fs;
  files = record {
    read = λ d. (ok d.others.object_text, d);
    replace = λ t d. (ok tt, record d { others = record d.others { object_text = t } });
  };
  object_codec = record { to_string = λ o. ok []; from_str = λ t. ok stored };
  wire = record {
    call = λ request d. (ok answer, d);
    messages = record { to_string = λ m. ok (fmt m); from_str = λ t. ok Message.auth_success };
    operations = inbox_codec;
    revision_field = λ text. ok (some 9);
    debug = λ text. text;
  };
  shutdown = λ d. (leb d.others.stop_at d.others.clock, d);
  obsidian = λ d. (running, d);
  suspended = λ d. (running, d);
  now = λ d. (d.others.clock, d);
  now_ms = λ d. (d.others.clock, d);
  sleep = passed;
  recv_timeout = λ wait d. next_event d.others.events d;
  try_iter = λ d. (d.others.events, record d { others = record d.others { events = [] } });
  outbox_codec = outbox_codec;
  inbox_codec = inbox_codec;
  manifest_codec = manifest_codec [];
  note_text = λ note. note.path;
  digest = λ bytes. bytes;
}

abbrev computer : Computer
computer = record {
  files = [];
  others = record {
    clock = 5;
    stop_at = 2_000_000_000;
    events = FsEvent.rescan ∷ [];
    object_text = [];
  };
}

abbrev http : HttpTransport
http = record { server_url = codes "http://a"; secret = codes "s" }

abbrev settings : Settings
settings = record {
  server_url = codes "http://a";
  client_name = codes "laptop";
  client_secret = codes "s";
  revision = 3;
  server_identity = codes "http%3A%2F%2Fa";
}

abbrev engine : SyncEngine
engine = State.new (State.for_identity settings.server_identity) (Guard.new 50 300)

connect-Agree_example :
    Ensures
      (λ _ s'. Agree (codes "http://a") 3 (codes "http%3A%2F%2Fa") s'.0)
      (λ _ s'. Agree (codes "http://a") 3 (codes "http%3A%2F%2Fa") s'.0)
      (connect (host false) 9 ((http, settings), computer))
connect-Agree_example =
    connect-Agree (host false) (codes "http://a") 3 (codes "http%3A%2F%2Fa") 9 http settings
      computer (refl, refl, refl, refl)

connect_lem_example :
    Ensures
      (λ ended s'. (ended ≡ false) ⊎ (IsAccepted (host false) s' ⊎ IsStopped (host false) s'))
      (λ _ _. Unit {0})
      (connect (host false) 9 ((http, settings), computer))
connect_lem_example = connect_lem (host false) 9 ((http, settings), computer)

host-IsPaused : IsPaused (host true) (λ (d : Computer). d.files)
host-IsPaused = record {
  runs = λ d. refl;
  sticky = λ d h. h;
  on_obsidian = λ d. refl;
  on_shutdown = λ d. refl;
  on_now = λ d. refl;
  on_sleep = λ duration d. refl;
  on_recv_timeout = λ wait d. received d.others.events d;
  on_try_iter = λ d. refl;
}
  where
    received : (events : List FsEvent) (d : Computer) → (next_event events d).1.files ≡ d.files
    received [] d = refl
    received (e ∷ more) d = refl

main_loop_paused_example :
    Ensures
      (λ _ s'. (s'.0 ≡ engine) × (s'.1.0 ≡ settings) × (s'.1.1.files ≡ []))
      (λ _ s'. (s'.0 ≡ engine) × (s'.1.0 ≡ settings) × (s'.1.1.files ≡ []))
      (main_loop (host true) http 9 (engine, (settings, computer)))
main_loop_paused_example =
    main_loop_paused (host true) http (λ (d : Computer). d.files) host-IsPaused 9 engine settings
      computer

abbrev loop : Loop
loop = record {
  schedule = new 5;
  dirty = collected burst;
  last_error = none;
  last_rescan = 5;
  rescan_requested = false;
}

-- The watcher has a path to report, and something else after it.
abbrev reporting : Computer
reporting = record computer {
  others = record computer.others { events = FsEvent.changed (codes "c.md") ∷ FsEvent.rescan ∷ [] };
}

turn-KeepsChange_example :
    Ensures
      (λ _ s'. KeepsChange (host false) http (codes "c.md") 9 loop engine settings reporting s')
      (λ _ _. Unit {0})
      (turn (host false) http 9 (loop, (engine, (settings, reporting))))
turn-KeepsChange_example =
    turn-KeepsChange (host false) http (codes "c.md") (λ d. refl) 9 loop engine settings reporting
      (inr refl)

receive_collects_example :
    Ensures
      (λ _ s'. All (IsCollected s'.0) (
        FsEvent.changed (codes "c.md")
        ∷ since (host false) http (FsEvent.changed (codes "c.md")) computer))
      (λ _ _. Unit {0})
      (receive
        (host false)
        http
        (event (FsEvent.changed (codes "c.md")))
        (loop, (engine, (settings, computer))))
receive_collects_example =
    receive_collects (host false) http (FsEvent.changed (codes "c.md")) loop engine settings
      computer

abbrev options : RunOptions
options = record {
  vault = codes "/home/vault";
  allow_seed = false;
  once = false;
  max_deletes = 50;
  max_puts = 300;
  obsidian_guard = true;
}

-- The lock is held by another.
abbrev process : Process Computer
process = record {
  has_data_json = λ d. (true, d);
  create_dir_all = λ folder d. (ok tt, d);
  try_lock = λ lock d. (ok false, d);
  remove_dir_all = λ folder d. record d { files = [] };
  register_signals = λ d. (ok tt, d);
  vault_uid = λ d. (ok 1000, d);
  store_obsidian = λ uid d. d;
  spawn_monitor = λ uid d. d;
  start_watcher = λ d. (ok tt, d);
}

process-IsLocked : IsLocked (host false) process (λ (d : Computer). d.files)
process-IsLocked = record {
  held = λ lock d. record { post = (refl, refl) };
  on_has_data_json = λ d. refl;
  on_create_dir_all = λ folder v. record { preserved = λ d h. record { post = h } };
  on_read = λ v. record { preserved = λ d h. record { post = h } };
  on_replace = λ t v. record { preserved = λ d h. record { post = h } };
}

run_locked_out_example :
    Ensures (λ _ _. ⊥) (λ _ d. d.files ≡ []) (run (host false) process 9 options computer)
run_locked_out_example =
    run_locked_out (host false) process (λ (d : Computer). d.files) process-IsLocked 9 options
      computer

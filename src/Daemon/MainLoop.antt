-- ===== src/Daemon/MainLoop.antt =====
-- rust-client/src/daemon.rs: a round of the main loop, and the loop.
use obsidian_sync_engine.Base.{
  ℕ, zero, suc, ◌-◌, Bool, true, false, ◌||◌, Option, none, some, if◌then◌else◌, ◌==◌, leb, min, ok,
  err, pure, ◌>>=◌, ◌>>◌, on_world, gets, update, catch, Result,
}
use obsidian_sync_engine.Base.Tests.{nat_eq}
use obsidian_sync_engine.Error.{Error, Any}
use obsidian_sync_engine.Http.{HttpTransport}
use obsidian_sync_engine.Engine.State.{State, reading}
use obsidian_sync_engine.Engine.Reconcile.{rescan, reconcile_paths}
use obsidian_sync_engine.Engine.Tick.{TickResult, tick}
use obsidian_sync_engine.Daemon.Schedule
use obsidian_sync_engine.Daemon.Schedule.{clean, millis, rescan_interval}
use obsidian_sync_engine.Daemon.Host.{Host, World}
use obsidian_sync_engine.Daemon.Turn.{
  Loop, Turn, request_rescan, env, on_host, instant, receive, pause_for_obsidian, log_tick,
  is_settled,
}

-- The assignments of the loop's body.
abbrev pub local_change : ℕ → Loop → Loop
unfolding Schedule.local_change
local_change now l = record l { schedule = Schedule.local_change now l.schedule }

abbrev pub begin_rescan : ℕ → Loop → Loop
begin_rescan now l = record l { rescan_requested = false; last_rescan = now }

abbrev pub take_dirty : Loop → Loop
unfolding Schedule.take
take_dirty l = record l { dirty = (Schedule.take l.dirty).1 }

abbrev pub logged : TickResult → Loop → Loop
unfolding log_tick
logged result l = record l { last_error = (log_tick result.failure result.counts l.last_error).1 }

abbrev pub ended_tick : TickResult → ℕ → Loop → Loop
unfolding Schedule.completed
ended_tick result now l = record l {
  schedule = Schedule.completed (is_settled result.failure) now l.schedule;
}

abbrev pub start_over : ℕ → Loop → Loop
unfolding Schedule.new
start_over now l = record l { dirty = clean; rescan_requested = false; schedule = Schedule.new now }

module _ {W : Type 0} (host : Host W) (http : HttpTransport) where
  -- The `match` on `engine.rescan()`; its error is logged.
  unfoldable pub after_rescan : ℕ → Result Error ℕ → Any (Turn W) (Unit {0})
  unfolding Schedule.local_change
  after_rescan now (ok queued) = if queued == 0 then pure tt else update (local_change now)
  after_rescan now (err e) = pure tt

  unfoldable pub rescan_step : ℕ → Any (Turn W) (Unit {0})
  unfolding after_rescan rescan
  rescan_step now = do
    l ← gets (λ (l : Loop). l)
    if l.rescan_requested || leb rescan_interval (now - l.last_rescan)
        then (do
          update (begin_rescan now)
          result ← on_world (catch (rescan (env host http)))
          after_rescan now result)
        else pure tt

  -- The `match` on `engine.reconcile_paths(&paths)`.
  unfoldable pub after_reconcile : ℕ → Result Error ℕ → Any (Turn W) (Unit {0})
  unfolding Schedule.local_change
  after_reconcile now (ok queued) = if queued == 0 then pure tt else update (local_change now)
  after_reconcile now (err e) = update request_rescan

  unfoldable pub reconcile_step : ℕ → Any (Turn W) (Unit {0})
  unfolding Schedule.ready Schedule.take after_reconcile reconcile_paths
  reconcile_step now = do
    l ← gets (λ (l : Loop). l)
    if Schedule.ready now l.dirty
        then (do
          update take_dirty
          result ← on_world (catch (reconcile_paths (env host http) (Schedule.take l.dirty).0))
          after_reconcile now result)
        else pure tt

  -- A tick as a method that returns its result; none where it is still running.
  abbrev pub ticked : ℕ → Any (State (World W)) (Option TickResult)
  ticked fuel s = let (result, s') = tick (env host http) fuel s in (ok result, s')

  -- What `main_loop` makes of the result; false where the tick is still running.
  unfoldable pub after_tick : Option TickResult → Any (Turn W) Bool
  unfolding log_tick Schedule.completed
  after_tick none = pure false
  after_tick (some result) = do
    update (logged result)
    now ← instant host http
    update (ended_tick result now)
    pure true

  unfoldable pub tick_step : ℕ → Any (Turn W) Bool
  unfolding Schedule.due after_tick tick
  tick_step fuel = do
    now ← instant host http
    l ← gets (λ (l : Loop). l)
    if Schedule.due now l.schedule
        then (do result ← on_world (ticked fuel); after_tick result)
        else pure true

  -- The round where Obsidian runs.
  unfoldable pub pause_step : ℕ → Any (Turn W) Bool
  unfolding pause_for_obsidian Schedule.new
  pause_step fuel = do
    ended ← on_world (pause_for_obsidian host http fuel)
    elim ended [
      | false ↦ pure false
      | true ↦ do now ← instant host http; update (start_over now); pure true
    ]

  -- The round where it does not.
  unfoldable pub sync_step : ℕ → Any (Turn W) Bool
  unfolding rescan_step reconcile_step tick_step
  sync_step fuel = do now ← instant host http; rescan_step now; reconcile_step now; tick_step fuel

  -- The body of the `while` of `main_loop`.
  unfoldable pub turn : ℕ → Any (Turn W) Bool
  unfolding receive pause_step sync_step
  turn fuel = do
    now ← instant host http
    l ← gets (λ (l : Loop). l)
    received ←
        on_world (
          on_host host http
            (reading (host.recv_timeout (min (l.schedule.next - now) (millis 100)))))
    receive host http received
    running ← on_world (on_host host http (reading host.obsidian))
    elim running [ true ↦ pause_step fuel | false ↦ sync_step fuel ]

  -- The `while`, with fuel for its rounds; false where a loop is still running.
  unfoldable pub turns : ℕ → Any (Turn W) Bool
  unfolding turn
  turns zero = pure false
  turns (suc fuel) = do
    stopped ← on_world (on_host host http (reading host.shutdown))
    elim stopped [
      | true ↦ pure true
      | false ↦ do ended ← turn fuel; elim ended [ false ↦ pure false | true ↦ turns fuel ]
    ]

  abbrev pub without_loop : Result Error Bool × Turn W → Result Error Bool × State (World W)
  without_loop (r, (l, s)) = (r, s)

  abbrev pub initial : ℕ → ℕ → Loop
  unfolding Schedule.new
  initial started scanned = record {
    schedule = Schedule.new started;
    dirty = clean;
    last_error = none;
    last_rescan = scanned;
    rescan_requested = false;
  }

  unfoldable pub main_loop : ℕ → Any (State (World W)) Bool
  unfolding turns Schedule.new
  main_loop fuel = do
    started ← on_host host http (reading host.now)
    scanned ← on_host host http (reading host.now)
    λ s. without_loop (turns fuel (initial started scanned, s))

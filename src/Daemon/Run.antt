-- ===== src/Daemon/Run.antt =====
-- rust-client/src/daemon.rs: the service from its start to its end. What the process does beside
-- the files of the engine, the lock, the signals and the threads, is the parameter `Process`.
use obsidian_sync_engine.Base.{
  ℕ, zero, suc, Text, codes, Bool, true, false, Option, none, some, ◌++◌, if◌then◌else◌, ok, err,
  pure, fail, ◌>>=◌, ◌>>◌, catch, Result,
}
use obsidian_sync_engine.Error.{Error, Any, Io, io, other, with_context, is_mass_push_halted}
use obsidian_sync_engine.Guard
use obsidian_sync_engine.Settings
use obsidian_sync_engine.Settings.{Settings}
use obsidian_sync_engine.Http.{HttpTransport}
use obsidian_sync_engine.Engine.State
use obsidian_sync_engine.Engine.State.{SyncEngine, State, JournalPaths, for_identity, reading}
use obsidian_sync_engine.Engine.Startup.{StartupOutcome, startup_reconcile, approval_pending}
use obsidian_sync_engine.Engine.Tick.{FailureKind, TickResult, tick, save_manifest}
use obsidian_sync_engine.Daemon.Schedule.{millis, secs}
use obsidian_sync_engine.Daemon.Host.{Host, World}
use obsidian_sync_engine.Daemon.Connect.{Connection, connect}
use obsidian_sync_engine.Daemon.Turn.{env, on_host}
use obsidian_sync_engine.Daemon.MainLoop.{main_loop}

pub record RunOptions : Type 0 where
  pub vault : Text
  pub allow_seed : Bool
  pub once : Bool
  pub max_deletes : ℕ
  pub max_puts : ℕ
  pub obsidian_guard : Bool

-- `data.json` is a file; a folder is made; the lock is taken, or is held by another; a folder is
-- removed with what it holds, its error ignored; the handlers of the signals; the owner of the
-- vault; the flag `obsidian` is stored from `/proc`; the two threads.
pub record Process (W : Type 0) : Type 0 where
  pub has_data_json : W → Bool × W
  pub create_dir_all : Text → Io W (Unit {0})
  pub try_lock : Text → Io W Bool
  pub remove_dir_all : Text → W → W
  pub register_signals : Io W (Unit {0})
  pub vault_uid : Io W ℕ
  pub store_obsidian : ℕ → W → W
  pub spawn_monitor : Option ℕ → W → W
  pub start_watcher : Any W (Unit {0})

module _ {W : Type 0} (host : Host W) where
  abbrev act : (W → W) → Any W (Unit {0})
  act f w = (ok tt, f w)

  -- Fuel for the rounds of the `while`; false where it is still running.
  unfoldable pub wait_while_obsidian_runs : ℕ → Any W Bool
  wait_while_obsidian_runs zero = pure false
  wait_while_obsidian_runs (suc fuel) = do
    running ← reading host.obsidian
    elim running [
      | false ↦ pure true
      | true ↦ do
        stopped ← reading host.shutdown
        elim stopped [
          | true ↦ pure true
          | false ↦ do act (host.sleep (millis 500)); wait_while_obsidian_runs fuel
        ]
    ]

  module _ (http : HttpTransport) where
    -- The inner loop of `startup`: the approval has come, or the shutdown; none where it is still
    -- running.
    unfoldable pub wait_for_approval : ℕ → Any (State (World W)) (Option Bool)
    unfolding approval_pending
    wait_for_approval zero = pure none
    wait_for_approval (suc fuel) = do
      pending ← approval_pending (env host http)
      elim pending [
        | true ↦ pure (some true)
        | false ↦ do
          stopped ← on_host host http (reading host.shutdown)
          elim stopped [
            | true ↦ pure (some false)
            | false ↦ do on_host host http (act (host.sleep (secs 1))); wait_for_approval fuel
          ]
      ]

    -- What `startup` does after a halt: `again` is its next round.
    abbrev pub after_wait :
        Any (State (World W)) (Option Bool) → Option Bool → Any (State (World W)) (Option Bool)
    after_wait again (some true) = again
    after_wait again (some false) = pure (some false)
    after_wait again none = pure none

    -- The arms of its `match`.
    unfoldable pub after_reconcile :
        ℕ
        → Bool
        → Any (State (World W)) (Option Bool)
        → Result Error StartupOutcome
        → Any (State (World W)) (Option Bool)
    unfolding wait_for_approval with_context
    after_reconcile fuel once again (ok outcome) = pure (some true)
    after_reconcile fuel once again (err e) =
        if is_mass_push_halted e
        then (if once
            then fail e
            else (do approved ← wait_for_approval fuel; after_wait again approved))
        else fail (with_context (codes "startup failed") e)

    -- `startup`: true when the engine is ready, false when asked to stop.
    unfoldable pub startup : ℕ → RunOptions → Any (State (World W)) (Option Bool)
    unfolding startup_reconcile after_reconcile
    startup zero options = pure none
    startup (suc fuel) options = do
      result ← catch (startup_reconcile (env host http) options.allow_seed)
      after_reconcile fuel options.once (startup fuel options) result

    -- The end of `run` with `--once`.
    abbrev once_result : Option (FailureKind × Text) → Any (State (World W)) Bool
    once_result none = pure true
    once_result (some (kind, error)) = fail (other error)

    abbrev finish_once : Option TickResult × State (World W) → Result Error Bool × State (World W)
    finish_once (none, s) = (ok false, s)
    finish_once (some result, s) = once_result result.failure s

    unfoldable pub run_started : ℕ → RunOptions → Any (State (World W)) Bool
    unfolding tick main_loop save_manifest
    run_started fuel options =
        if options.once then (λ s. finish_once (tick (env host http) fuel s)) else do
          ended ← main_loop host http fuel
          elim ended [ false ↦ pure false | true ↦ do save_manifest (env host http); pure true ]

    -- `run` from the construction of the engine on.
    unfoldable pub run_engine : ℕ → RunOptions → Any (State (World W)) Bool
    unfolding startup run_started
    run_engine fuel options = do
      started ← startup fuel options
      elim started [
        | none ↦ pure false
        | some ready ↦ if ready then run_started fuel options else pure true
      ]

  abbrev new_engine : JournalPaths → RunOptions → SyncEngine
  unfolding State.new Guard.new
  new_engine paths options = State.new paths (Guard.new options.max_deletes options.max_puts)

  abbrev run_with :
      ℕ → RunOptions → JournalPaths → HttpTransport × Settings → W → Result Error Bool × W
  unfolding run_engine State.new Guard.new
  run_with fuel options paths (http, settings) w =
      let (result, (e, (settings', w'))) =
        run_engine http fuel options (new_engine paths options, (settings, w)) in
      (result, w')

  -- `run` from the result of `connect` on.
  unfoldable pub after_connect :
      ℕ → RunOptions → JournalPaths → Result Error Bool × Connection W → Result Error Bool × W
  unfolding run_engine State.new Guard.new
  after_connect fuel options paths (err e, (c, w)) = (err e, w)
  after_connect fuel options paths (ok false, (c, w)) = (ok false, w)
  after_connect fuel options paths (ok true, (c, w)) =
      ((do
        stopped ← reading host.shutdown
        elim stopped [ true ↦ pure true | false ↦ run_with fuel options paths c ])
        w)

  -- `run` from the first wait for Obsidian on; the settings are loaded again, and the transport is
  -- made of them.
  unfoldable pub run_unpaused : ℕ → RunOptions → JournalPaths → Any W Bool
  unfolding wait_while_obsidian_runs Settings.load connect after_connect
  run_unpaused fuel options paths = do
    ended ← wait_while_obsidian_runs fuel
    elim ended [
      | false ↦ pure false
      | true ↦ do
        stopped ← reading host.shutdown
        elim stopped [
          | true ↦ pure true
          | false ↦ do
            settings ← Settings.load host.files host.object_codec
            λ w. after_connect fuel options paths (
                connect host fuel (
                  (
                    record { server_url = settings.server_url; secret = settings.client_secret },
                    settings,
                  ),
                  w,
                ))
        ]
    ]

  module _ (process : Process W) where
    unfoldable pub watch_obsidian : Bool → Any W (Option ℕ)
    watch_obsidian guarded =
        if guarded
        then (do uid ← io process.vault_uid; act (process.store_obsidian uid); pure (some uid))
        else pure none

    -- `run` once the lock is held.
    unfoldable pub run_locked : ℕ → RunOptions → JournalPaths → Any W Bool
    unfolding watch_obsidian run_unpaused
    run_locked fuel options paths = do
      act (process.remove_dir_all paths.temp)
      io process.register_signals
      uid ← watch_obsidian options.obsidian_guard
      act (process.spawn_monitor uid)
      process.start_watcher
      run_unpaused fuel options paths

    -- False where a loop is still running when the fuel ends.
    unfoldable pub run : ℕ → RunOptions → Any W Bool
    unfolding Settings.load for_identity run_locked
    run fuel options = do
      present ← reading process.has_data_json
      elim present [
        | false ↦ fail (
            other
              (options.vault ++ codes " has no data.json for this plugin; is the vault mounted?"))
        | true ↦ do
          settings ← Settings.load host.files host.object_codec
          let paths : JournalPaths = for_identity settings.server_identity
          io (process.create_dir_all paths.state_dir)
          locked ← io (process.try_lock paths.lock)
          elim locked [
            | false ↦
                fail (other (codes "another obsidian-sync-client is already running on this vault"))
            | true ↦ run_locked fuel options paths
          ]
      ]

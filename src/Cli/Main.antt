-- ===== src/Cli/Main.antt =====
-- rust-client/src/main.rs: the dispatch on the command, and the exit status.
use obsidian_sync_engine.Base.{
  ℕ, Text, codes, Bool, true, false, Option, none, some, List, ◌++◌, Result, ok, err, pure, fail,
  ◌>>◌,
}
use obsidian_sync_engine.Error.{Error, Any, display}
use obsidian_sync_engine.Daemon.Host.{Host}
use obsidian_sync_engine.Daemon.Run
use obsidian_sync_engine.Daemon.Run.{Process}
use obsidian_sync_engine.Cli.{Command, parse_args, run_options}
use obsidian_sync_engine.Cli.Commands
use obsidian_sync_engine.Cli.Commands.{Shell}

-- What `main` reaches, for each vault; `print` and `eprintln` are the standard streams.
pub record Machine (W Value : Type 0) : Type 0 where
  pub shell : Text → Shell W Value
  pub host : Text → Host W
  pub process : Text → Process W
  pub print : Text → W → W
  pub eprintln : Text → W → W

module _ {W Value : Type 0} (machine : Machine W Value) (usage : Text) where
  -- A command that returns at all returns true.
  abbrev finished : Any W (Unit {0}) → Any W Bool
  finished m = m >> pure true

  -- False where `run` is still running when the fuel ends.
  unfoldable pub dispatch : ℕ → Command → Any W Bool
  unfolding Run.run run_options Commands.status Commands.verify Commands.approve_mass_push
      Commands.rename_client
  dispatch fuel Command.help = λ w. (ok true, machine.print usage w)
  dispatch fuel (Command.run cli) =
      Run.run (machine.host cli.vault) (machine.process cli.vault) fuel (run_options cli)
  dispatch fuel (Command.status vault) = finished (Commands.status (machine.shell vault) vault)
  dispatch fuel (Command.verify vault path) = finished (Commands.verify (machine.shell vault) path)
  dispatch fuel (Command.approve_mass_push vault) =
      finished (Commands.approve_mass_push (machine.shell vault))
  dispatch fuel (Command.rename_client vault name) =
      finished (Commands.rename_client (machine.shell vault) name)

  abbrev dispatch_parsed : ℕ → Result Error Command → Any W Bool
  dispatch_parsed fuel (ok command) = dispatch fuel command
  dispatch_parsed fuel (err e) = fail e

  abbrev exit_status : Result Error Bool × W → Option ℕ × W
  exit_status (ok true, w) = (some 0, w)
  exit_status (ok false, w) = (none, w)
  exit_status (err e, w) = (some 1, machine.eprintln (codes "error: " ++ display e) w)

  -- The exit status of the process, or none where it is still running.
  unfoldable pub main : ℕ → List Text → W → Option ℕ × W
  unfolding dispatch parse_args display
  main fuel args w = exit_status (dispatch_parsed fuel (parse_args usage args) w)

-- ===== src/Cli.antt =====
-- rust-client/src/cli.rs: the arguments of the command line. The commands are in Commands.
pub mod Printed
pub mod Verify
pub mod Compared
pub mod InSync
pub mod Main
pub mod Commands
use obsidian_sync_engine.Base.{
  ℕ, Text, codes, starts_with, Bool, true, false, Option, none, some, List, [], ◌∷◌, ◌++◌,
  if◌then◌else◌, ◌==◌, ◌||◌, Result, ok, err, result_map, is_empty,
}
use obsidian_sync_engine.Base.Tests.{nat_eq, list_eq}
use obsidian_sync_engine.Base.Decimal.{parse_usize}
use obsidian_sync_engine.Error.{Error, other, with_context}
use obsidian_sync_engine.Guard.{default_max_deletes, default_max_puts}
use obsidian_sync_engine.Daemon.Run.{RunOptions}

pub record CliRun : Type 0 where
  pub vault : Text
  pub allow_seed : Bool
  pub once : Bool
  pub max_deletes : ℕ
  pub max_puts : ℕ
  pub obsidian_guard : Bool

pub data Command : Type 0 where
  help : Command
  run : CliRun → Command
  status : (vault : Text) → Command
  verify : (vault : Text) (path : Option Text) → Command
  approve_mass_push : (vault : Text) → Command
  rename_client : (vault name : Text) → Command

-- `impl From<CliRun> for RunOptions`
unfoldable pub run_options : CliRun → RunOptions
run_options cli = record {
  vault = cli.vault;
  allow_seed = cli.allow_seed;
  once = cli.once;
  max_deletes = cli.max_deletes;
  max_puts = cli.max_puts;
  obsidian_guard = cli.obsidian_guard;
}

-- The variables of `parse_args`.
pub record Given : Type 0 where
  pub vault : Option Text
  pub allow_seed : Bool
  pub once : Bool
  pub max_deletes : ℕ
  pub max_puts : ℕ
  pub obsidian_guard : Bool
  pub path : Option Text
  pub positional : List Text

abbrev pub defaults : Given
defaults = record {
  vault = none;
  allow_seed = false;
  once = false;
  max_deletes = default_max_deletes;
  max_puts = default_max_puts;
  obsidian_guard = true;
  path = none;
  positional = [];
}

-- `parse().context(...)`
abbrev parsed_number : Text → Result Text ℕ → Result Error ℕ
unfolding with_context
parsed_number name (ok n) = ok n
parsed_number name (err e) = err (with_context (name ++ codes " must be a number") (other e))

abbrev number : Text → Text → Result Error ℕ
unfolding parse_usize with_context
number name text = parsed_number name (parse_usize text)

-- An arm of the `match` on an argument: it takes the next argument as the value of an option, or
-- changes the variables, or returns.
pub data Arm : Type 0 where
  takes : (name : Text) (set : Given → Text → Result Error Given) → Arm
  sets : (Given → Given) → Arm
  returns : Result Error Command → Arm

unfoldable arm : Text → Arm
unfolding parse_usize with_context
arm arg =
    if arg == codes "--vault"
    then takes (codes "--vault") (λ g value. ok (record g { vault = some value }))
    else if arg == codes "--allow-seed"
    then sets (λ g. record g { allow_seed = true })
    else if arg == codes "--once"
    then sets (λ g. record g { once = true })
    else if arg == codes "--no-obsidian-guard"
    then sets (λ g. record g { obsidian_guard = false })
    else if arg == codes "--max-deletes"
    then takes (codes "--max-deletes") (λ g value.
      result_map (λ n. record g { max_deletes = n }) (number (codes "--max-deletes") value))
    else if arg == codes "--max-puts"
    then takes (codes "--max-puts")
        (λ g value. result_map (λ n. record g { max_puts = n }) (number (codes "--max-puts") value))
    else if arg == codes "--path"
    then takes (codes "--path") (λ g value. ok (record g { path = some value }))
    else if arg == codes "-h" || arg == codes "--help"
    then returns (ok help)
    else if starts_with (codes "--") arg
    then returns (err (other (codes "unknown option " ++ arg)))
    else sets (λ g. record g { positional = g.positional ++ (arg ∷ []) })

abbrev needs_value : {A : Type 0} → Text → Result Error A
needs_value name = err (other (name ++ codes " needs a value"))

-- The loop and what follows it.
unfoldable parse_loop :
    (Given → Result Error Command) → Result Error Given → List Text → Result Error Command
unfolding arm
parse_loop finish (err e) args = err e
parse_loop finish (ok g) [] = finish g
parse_loop finish (ok g) (arg ∷ []) = elim (arm arg) [
  | takes name set ↦ needs_value name
  | sets f ↦ finish (f g)
  | returns r ↦ r
]
parse_loop finish (ok g) (arg ∷ value ∷ args) = elim (arm arg) [
  | takes name set ↦ parse_loop finish (set g value) args
  | sets f ↦ parse_loop finish (ok (f g)) (value ∷ args)
  | returns r ↦ r
]

-- `ok_or_else` of an option.
abbrev with_some : {A B : Type 0} → Option A → Text → (A → B) → Result Error B
with_some none message f = err (other message)
with_some (some a) message f = ok (f a)

abbrev need_vault : Given → (Text → Command) → Result Error Command
need_vault g f = with_some g.vault (codes "--vault <path> is required") f

abbrev first : List Text → Option Text
first [] = none
first (name ∷ names) = if is_empty name then none else some name

abbrev renaming : Given → Option Text → Result Error Command
renaming g none = err (other (codes "rename-client needs a new name"))
renaming g (some name) = need_vault g (λ vault. rename_client vault name)

abbrev usage_of : Text → Text → Text
usage_of usage command = codes "unknown command " ++ (command ++ (codes "\n\n" ++ usage))

-- The `match` on the command; `usage` is the text of `USAGE`.
unfoldable command_of : Text → Text → Given → Result Error Command
command_of usage command g =
    if command == codes "-h" || command == codes "--help" || command == codes "help"
    then ok help
    else if command == codes "run"
    then need_vault g (λ vault. run (record {
      vault = vault;
      allow_seed = g.allow_seed;
      once = g.once;
      max_deletes = g.max_deletes;
      max_puts = g.max_puts;
      obsidian_guard = g.obsidian_guard;
    }))
    else if command == codes "status"
    then need_vault g status
    else if command == codes "verify"
    then need_vault g (λ vault. verify vault g.path)
    else if command == codes "approve-mass-push"
    then need_vault g approve_mass_push
    else if command == codes "rename-client"
    then renaming g (first g.positional)
    else err (other (usage_of usage command))

unfoldable pub parse_args : Text → List Text → Result Error Command
unfolding parse_loop command_of
parse_args usage [] = ok help
parse_args usage (command ∷ args) = parse_loop (command_of usage command) (ok defaults) args

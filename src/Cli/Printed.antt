-- ===== src/Cli/Printed.antt =====
-- rust-client/src/cli.rs: the arguments that name a command, and that they are read back as it.
use obsidian_sync_engine.Base.{
  ℕ, Text, codes, starts_with, to_decimal, Bool, true, false, Option, none, some, List, [], ◌∷◌,
  ◌++◌, ◌==◌, ◌≡◌, refl, ◌<◌, ◌^◌, ok, is_empty, not, arith, ap, ◌∙◌, Result, result_map,
}
use obsidian_sync_engine.Base.Tests.{nat_eq, list_eq}
use obsidian_sync_engine.Base.Decimal.{parse_usize, parse_usize-to_decimal}
use obsidian_sync_engine.Cli
use obsidian_sync_engine.Error.{Error}
use obsidian_sync_engine.Cli.{
  CliRun, Command, help, run, status, verify, approve_mass_push, rename_client, parse_args,
  parse_loop, arm, command_of, Given, defaults, parsed_number,
}

abbrev flag : Bool → Text → List Text
flag true name = name ∷ []
flag false name = []

abbrev path_option : Option Text → List Text
path_option none = []
path_option (some path) = codes "--path" ∷ path ∷ []

abbrev flags : Bool → Bool → Bool → List Text
flags seed once guarded =
    flag seed (codes "--allow-seed")
    ++ (flag once (codes "--once") ++ flag (not guarded) (codes "--no-obsidian-guard"))

abbrev run_args : Text → Text → Text → Bool → Bool → Bool → List Text
run_args vault deletes puts seed once guarded =
    codes "run"
    ∷ codes "--vault"
    ∷ vault
    ∷ codes "--max-deletes"
    ∷ deletes
    ∷ codes "--max-puts"
    ∷ puts
    ∷ flags seed once guarded

-- The command line of a command, with every option of `run` written out.
abbrev pub to_args : Command → List Text
unfolding to_decimal
to_args help = codes "help" ∷ []
to_args (run cli) =
    run_args cli.vault (to_decimal cli.max_deletes) (to_decimal cli.max_puts) cli.allow_seed
      cli.once cli.obsidian_guard
to_args (status vault) = codes "status" ∷ codes "--vault" ∷ vault ∷ []
to_args (verify vault path) = codes "verify" ∷ codes "--vault" ∷ vault ∷ path_option path
to_args (approve_mass_push vault) = codes "approve-mass-push" ∷ codes "--vault" ∷ vault ∷ []
to_args (rename_client vault name) = codes "rename-client" ∷ name ∷ codes "--vault" ∷ vault ∷ []

-- The numbers are those of a `usize`; a new name is not empty and is not like an option.
abbrev pub IsWritable : Command → Type 0
IsWritable (run cli) = (cli.max_deletes < 2 ^ 64) × (cli.max_puts < 2 ^ 64)
IsWritable (rename_client vault name) =
    (is_empty name ≡ false)
    × (starts_with (codes "--") name ≡ false)
    × ((name == codes "-h") ≡ false)
IsWritable _ = Unit {0}

module _ (usage vault deletes_text puts_text : Text) (deletes puts : ℕ)
    (hd : parse_usize deletes_text ≡ ok deletes) (hp : parse_usize puts_text ≡ ok puts) where
  deletes_step :
      (finish : Given → Result Error Command) (g : Given) (args : List Text)
      → parse_loop finish (ok g) (codes "--max-deletes" ∷ deletes_text ∷ args)
        ≡ parse_loop finish (ok (record g { max_deletes = deletes })) args
  unfolding parse_loop arm list_eq
  deletes_step finish g args =
      ap
        (λ r.
          parse_loop finish
            (result_map (λ n. record g { max_deletes = n })
              (parsed_number (codes "--max-deletes") r))
            args)
        hd

  puts_step :
      (finish : Given → Result Error Command) (g : Given) (args : List Text)
      → parse_loop finish (ok g) (codes "--max-puts" ∷ puts_text ∷ args)
        ≡ parse_loop finish (ok (record g { max_puts = puts })) args
  unfolding parse_loop arm list_eq
  puts_step finish g args =
      ap
        (λ r.
          parse_loop finish
            (result_map (λ n. record g { max_puts = n }) (parsed_number (codes "--max-puts") r))
            args)
        hp

  abbrev run_with : Bool → Bool → Bool → Command
  run_with seed once guarded = run (record {
    vault = vault;
    allow_seed = seed;
    once = once;
    max_deletes = deletes;
    max_puts = puts;
    obsidian_guard = guarded;
  })

  flags_step :
      (seed once guarded : Bool)
      → parse_loop
          (command_of usage (codes "run"))
          (ok (record defaults { vault = some vault; max_deletes = deletes; max_puts = puts }))
          (flags seed once guarded)
        ≡ ok (run_with seed once guarded)
  unfolding parse_loop arm command_of list_eq
  flags_step true true true = refl
  flags_step true true false = refl
  flags_step true false true = refl
  flags_step true false false = refl
  flags_step false true true = refl
  flags_step false true false = refl
  flags_step false false true = refl
  flags_step false false false = refl

  parse_args-run_args :
      (seed once guarded : Bool)
      → parse_args usage (run_args vault deletes_text puts_text seed once guarded)
        ≡ ok (run_with seed once guarded)
  unfolding parse_args parse_loop arm list_eq
  parse_args-run_args seed once guarded =
      deletes_step (command_of usage (codes "run")) (record defaults { vault = some vault })
        (codes "--max-puts" ∷ puts_text ∷ flags seed once guarded)
      ∙ (puts_step (command_of usage (codes "run"))
            (record defaults { vault = some vault; max_deletes = deletes })
            (flags seed once guarded)
          ∙ flags_step seed once guarded)

not_option :
    (t name : Text) → starts_with (codes "--") name ≡ false → (name == codes "--" ++ t) ≡ false
unfolding list_eq
not_option t [] h = refl
not_option t (c ∷ []) h = ground arith
not_option t (c ∷ d ∷ name) h = ground arith

arm_positional :
    (name : Text)
    → starts_with (codes "--") name ≡ false
    → (name == codes "-h") ≡ false
    → arm name ≡ Cli.sets (λ g. record g { positional = g.positional ++ (name ∷ []) })
unfolding arm
arm_positional name h k =
    rw
      (
        not_option (codes "vault") name h,
        not_option (codes "allow-seed") name h,
        not_option (codes "once") name h,
        not_option (codes "no-obsidian-guard") name h,
        not_option (codes "max-deletes") name h,
        not_option (codes "max-puts") name h,
        not_option (codes "path") name h,
        k,
        not_option (codes "help") name h,
        h,
      )
      refl

positional_step :
    (finish : Given → Result Error Command) (g : Given) (name value : Text) (args : List Text)
    → starts_with (codes "--") name ≡ false
    → (name == codes "-h") ≡ false
    → parse_loop finish (ok g) (name ∷ value ∷ args)
      ≡ parse_loop finish
          (ok (record g { positional = g.positional ++ (name ∷ []) }))
          (value ∷ args)
unfolding parse_loop
positional_step finish g name value args h k = rw (parse_loop, arm_positional name h k) refl

rename_end :
    (usage vault name : Text)
    → is_empty name ≡ false
    → parse_loop
        (command_of usage (codes "rename-client"))
        (ok (record defaults { positional = name ∷ [] }))
        (codes "--vault" ∷ vault ∷ [])
      ≡ ok (rename_client vault name)
unfolding parse_loop arm command_of list_eq
rename_end usage vault [] h = ground arith
rename_end usage vault (c ∷ name) h = refl

-- Each command is read back from its command line, `run` with all its options included, whatever
-- the paths are; the limits are below 2^64, and a new client name is not empty and is not like an
-- option.
pub parse_args-to_args :
    (usage : Text) (c : Command) → IsWritable c → parse_args usage (to_args c) ≡ ok c
unfolding parse_args parse_loop arm command_of list_eq
parse_args-to_args usage help h = refl
parse_args-to_args usage (run cli) h =
    parse_args-run_args usage cli.vault (to_decimal cli.max_deletes) (to_decimal cli.max_puts)
      cli.max_deletes cli.max_puts (parse_usize-to_decimal cli.max_deletes h.0)
      (parse_usize-to_decimal cli.max_puts h.1) cli.allow_seed cli.once cli.obsidian_guard
parse_args-to_args usage (status vault) h = refl
parse_args-to_args usage (verify vault none) h = refl
parse_args-to_args usage (verify vault (some path)) h = refl
parse_args-to_args usage (approve_mass_push vault) h = refl
parse_args-to_args usage (rename_client vault name) h =
    positional_step (command_of usage (codes "rename-client")) defaults name (codes "--vault")
      (vault ∷ []) h.1 h.2
    ∙ rename_end usage vault name h.0

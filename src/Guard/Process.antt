-- ===== src/Guard/Process.antt =====
-- rust-client/src/guard.rs: the processes that are taken for Obsidian. The folder `/proc` is the
-- parameter `Entry`: what the standard library reads there.
use obsidian_sync_engine.Base.{
  ℕ, Text, codes, starts_with, contains, split, trim_start, trim_end, to_ascii_lowercase,
  is_ascii_digit, to_bytes, ◌≡◌, refl, Bool, true, false, ◌||◌, ◌&&◌, not, Option, none, some, List,
  [], ◌∷◌, if◌then◌else◌, ◌==◌, any, all,
}
use obsidian_sync_engine.Base.Tests.{nat_eq, list_eq}

-- `first().map(String::as_str).unwrap_or_default()`
abbrev argv0 : List Text → Text
argv0 [] = []
argv0 (arg ∷ cmdline) = arg

-- `rsplit('/').next()`
abbrev last_of : Text → List Text → Text
last_of last [] = last
last_of last (s ∷ segments) = last_of s segments

abbrev pub program_name : List Text → Text
program_name cmdline = to_ascii_lowercase (last_of [] (split b'/' (argv0 cmdline)))

abbrev names_obsidian : Text → Bool
names_obsidian arg =
    let lower = to_ascii_lowercase arg in
    contains (codes "obsidian.asar") lower || contains (codes "/obsidian/") lower

unfoldable pub is_obsidian_process : Text → List Text → Bool
is_obsidian_process raw_comm cmdline =
    let comm = to_ascii_lowercase (trim_end (trim_start raw_comm)) in
    if comm == codes "obsidian" || starts_with (codes ".obsidian-wrap") comm
    then true
    else if program_name cmdline == codes "obsidian"
    then true
    else starts_with (codes "electron") comm && any names_obsidian cmdline

-- An entry of `/proc`: its name, the owner of its folder, its `comm` and the arguments in its
-- `cmdline`, each with its default where it cannot be read.
pub record Entry : Type 0 where
  pub name : Text
  pub uid : Option ℕ
  pub comm : Text
  pub cmdline : List Text

abbrev owned_by : ℕ → Option ℕ → Bool
owned_by uid none = false
owned_by uid (some owner) = owner == uid

-- The loop of `obsidian_running` on the entries, of which there are none where `/proc` cannot be
-- read.
unfoldable pub obsidian_running : ℕ → List Entry → Bool
unfolding is_obsidian_process
obsidian_running uid [] = false
obsidian_running uid (entry ∷ entries) =
    let later = obsidian_running uid entries in
    if not (all is_ascii_digit (to_bytes entry.name))
    then later
    else if not (owned_by uid entry.uid)
    then later
    else (if is_obsidian_process entry.comm entry.cmdline then true else later)

-- This client, as the kernel shortens its name, is not taken for Obsidian, whatever its arguments
-- are, as long as its program file is not named so.
pub is_obsidian_process_self :
    (cmdline : List Text)
    → (program_name cmdline == codes "obsidian") ≡ false
    → is_obsidian_process (codes "obsidian-sync-c") cmdline ≡ false
unfolding is_obsidian_process list_eq
is_obsidian_process_self cmdline h = rw h refl

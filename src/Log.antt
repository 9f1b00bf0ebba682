-- ===== src/Log.antt =====
-- rust-client/src/log.rs: the text of a log line, and which lines are written. `{value:?}` of the
-- standard library is the parameter `debug`.
use obsidian_sync_engine.Base.{
  ℕ, Text, codes, is_whitespace, ◌≡◌, refl, Bool, ◌||◌, Option, none, some, List, [], ◌∷◌, ◌++◌,
  if◌then◌else◌, ◌==◌, leb, any, is_empty,
}
use obsidian_sync_engine.Base.Tests.{nat_eq, list_eq}

pub data Level : Type 0 where
  debug info warn error : Level

-- The order that `derive(PartialOrd)` gives, as positions.
abbrev rank : Level → ℕ
rank debug = 0
rank info = 1
rank warn = 2
rank error = 3

-- The argument is the variable `OBSIDIAN_SYNC_LOG`, where it is set and is text.
unfoldable pub threshold : Option Text → Level
threshold none = info
threshold (some value) =
    if value == codes "debug"
    then debug
    else if value == codes "warn"
    then warn
    else if value == codes "error"
    then error
    else info

abbrev level_name : Level → Text
level_name debug = codes "DEBUG"
level_name info = codes "INFO"
level_name warn = codes "WARN"
level_name error = codes "ERROR"

abbrev needs_quotes : Text → Bool
needs_quotes value = is_empty value || any (λ c. is_whitespace c || c == b'"') value

abbrev field_text : (Text → Text) → Text × Text → Text
field_text quoted (key, value) =
    codes " " ++ (key ++ (codes "=" ++ (if needs_quotes value then quoted value else value)))

abbrev fields_text : (Text → Text) → List (Text × Text) → Text
fields_text quoted [] = []
fields_text quoted (field ∷ fields) = field_text quoted field ++ fields_text quoted fields

unfoldable pub format_line : (Text → Text) → Level → Text → List (Text × Text) → Text
format_line quoted level event fields =
    level_name level ++ (codes " " ++ (event ++ fields_text quoted fields))

unfoldable pub emit :
    {W : Type 0} (eprintln : Text → W → W) (quoted : Text → Text) (variable : Option Text)
    → Level
    → Text
    → List (Text × Text)
    → W
    → W
unfolding threshold format_line
emit eprintln quoted variable level event fields w =
    if leb (rank (threshold variable)) (rank level)
    then eprintln (format_line quoted level event fields) w
    else w

-- The test `quotes_values_with_whitespace`.
quotes_values_with_whitespace :
    format_line
      (λ value. codes "\"" ++ (value ++ codes "\""))
      Level.info
      (codes "inbox.put_applied")
      ((codes "path", codes "Crabcake/Hello World.md") ∷ (codes "rev", codes "7") ∷ [])
    ≡ codes "INFO inbox.put_applied path=\"Crabcake/Hello World.md\" rev=7"
unfolding format_line
quotes_values_with_whitespace = refl

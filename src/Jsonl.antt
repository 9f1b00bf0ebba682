-- ===== src/Jsonl.antt =====
-- rust-client/src/jsonl.rs: journals of one JSON value to a line. `serde_json` is the parameter
-- `Codec`, a journal file is read and written through `SyncFs`.
pub mod Journal
pub mod Torn
use obsidian_sync_engine.Base.{
  ℕ, ◌+◌, Text, codes, split, is_blank, ends_with_char, to_decimal, not, ◌||◌, List, [], ◌∷◌, ◌++◌,
  if◌then◌else◌, ◌==◌, filter, length, is_empty, Result, ok, err, pure, fail, lift, ◌>>=◌, ◌>>◌,
}
use obsidian_sync_engine.Base.Tests.{nat_eq}
use obsidian_sync_engine.Error.{Error, other, Any, io}
use obsidian_sync_engine.Fs.{SyncFs}

-- `serde_json::to_string` and `from_str` at one type.
pub record Codec (T : Type 0) : Type 0 where
  pub to_string : T → Result Error Text
  pub from_str : Text → Result Error T

-- The message of `bail!` in `read_lines`.
unfoldable pub middle_error : Text → ℕ → Error
unfolding to_decimal
middle_error path line = other (
    codes "Corrupt JSONL line in the middle of "
    ++ (path ++ (codes " (line " ++ (to_decimal line ++ codes "); refusing to skip durable ops"))))

-- The file to append a line to: its last line is ended first.
abbrev pub with_newline : Text → Text
with_newline existing =
    if is_empty existing || ends_with_char b'\n' existing
    then existing
    else existing ++ (b'\n' ∷ [])

-- `data.split('\n').filter(|l| !l.trim().is_empty())`
abbrev pub non_empty_lines : Text → List Text
non_empty_lines text = filter (λ l. not (is_blank l)) (split b'\n' text)

module _ {T : Type 0} (codec : Codec T) where
  -- The loop of `write_lines`.
  unfoldable pub render_lines : Text → List T → Result Error Text
  render_lines body [] = ok body
  render_lines body (line ∷ lines) = elim (codec.to_string line) [
    | ok text ↦ render_lines (body ++ (text ++ (b'\n' ∷ []))) lines
    | err e ↦ err e
  ]

module _ {S : Type 0} (fs : SyncFs S) where
  -- The read of a file that need not be there: `dead_letter` of engine.rs makes it too.
  unfoldable pub read_or_empty : Text → Any S Text
  read_or_empty path = do
    present ← io (fs.exists path)
    if present then io (fs.read path) else pure []

module _ {S T : Type 0} (fs : SyncFs S) (codec : Codec T) where
  unfoldable pub write_lines : Text → List T → Any S (Unit {0})
  unfolding render_lines
  write_lines path lines = do body ← lift (render_lines codec [] lines); io (fs.write path body)

  -- The branch of `read_lines` for a corrupt last line.
  unfoldable pub quarantine_tail : Text → Text → List T → Any S (List T)
  unfolding read_or_empty write_lines
  quarantine_tail path line parsed = do
    existing ← read_or_empty fs (path ++ codes ".corrupt")
    io (fs.write (path ++ codes ".corrupt") (with_newline existing ++ (line ++ (b'\n' ∷ []))))
    write_lines path parsed
    pure parsed

  -- The loop of `read_lines`: `index` lines of `total` are behind it.
  unfoldable pub parse_lines : Text → ℕ → ℕ → List T → List Text → Any S (List T)
  unfolding quarantine_tail middle_error
  parse_lines path total index parsed [] = pure parsed
  parse_lines path total index parsed (line ∷ lines) = elim (codec.from_str line) [
    | ok value ↦ parse_lines path total (index + 1) (parsed ++ (value ∷ [])) lines
    | err e ↦
        if index + 1 == total
        then quarantine_tail path line parsed
        else fail (middle_error path (index + 1))
  ]

  unfoldable pub read_lines : Text → Any S (List T)
  unfolding parse_lines
  read_lines path = do
    present ← io (fs.exists path)
    if not present then pure [] else do
      text ← io (fs.read path)
      let lines = non_empty_lines text
      parse_lines path (length lines) 0 [] lines

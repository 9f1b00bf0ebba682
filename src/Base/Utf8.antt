-- ===== src/Base/Utf8.antt =====
-- `String::from_utf8`: the bytes one by one, with what is open of the character so far.
use Prim.Native.Nat.{ℕ, ◌+◌, ◌-◌, ◌*◌}
use mathlib.Core.Bool.{Bool, not, ◌&&◌, ◌||◌}
use mathlib.Core.Option.{Option, none, some}
use mathlib.Core.List.{[], ◌∷◌}
use obsidian_sync_engine.Base.Tests.{if◌then◌else◌, ◌==◌, nat_eq, ltb, leb}
use obsidian_sync_engine.Base.Str.{Text, Bytes}

-- The bytes to come, the value so far, and the least value that needs as many bytes.
pub record Open : Type 0 where
  pub left : ℕ
  pub value : ℕ
  pub least : ℕ

abbrev closed : Open
closed = record { left = 0; value = 0; least = 0 }

-- A byte is refused, completes a character, or leaves one open.
pub data Read : Type 0 where
  refused : Read
  complete : ℕ → Read
  more : Open → Read

abbrev first_byte : ℕ → Read
first_byte b =
    if ltb b 0x80
    then complete b
    else if leb 0xc2 b && leb b 0xdf
    then more (record { left = 1; value = b - 0xc0; least = 0x80 })
    else if leb 0xe0 b && leb b 0xef
    then more (record { left = 2; value = b - 0xe0; least = 0x800 })
    else if leb 0xf0 b && leb b 0xf4
    then more (record { left = 3; value = b - 0xf0; least = 0x10000 })
    else refused

abbrev is_char : ℕ → Bool
is_char c = ltb c 0xd800 || leb 0xe000 c && leb c 0x10ffff

abbrev later_byte : Open → ℕ → Read
later_byte o b =
    let value = o.value * 64 + (b - 0x80) in
    if not (leb 0x80 b && leb b 0xbf)
    then refused
    else if ltb 1 o.left
    then more (record { left = o.left - 1; value = value; least = o.least })
    else (if leb o.least value && is_char value then complete value else refused)

abbrev read_byte : Open → ℕ → Read
read_byte o b = if o.left == 0 then first_byte b else later_byte o b

abbrev prepend : ℕ → Option Text → Option Text
prepend c none = none
prepend c (some text) = some (c ∷ text)

decode_from : Open → Bytes → Option Text
decode_from o [] = if o.left == 0 then some [] else none
decode_from o (b ∷ bytes) = elim (read_byte o b) [
  | refused ↦ none
  | complete c ↦ prepend c (decode_from closed bytes)
  | more o' ↦ decode_from o' bytes
]

unfoldable pub from_utf8 : Bytes → Option Text
unfolding decode_from
from_utf8 bytes = decode_from closed bytes

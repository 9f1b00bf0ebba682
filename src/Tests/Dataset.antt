-- ===== src/Tests/Dataset.antt =====
-- A run of the settings of rust-client on a small disk.
use obsidian_sync_engine.Base.{
  ℕ, Text, true, codes, ◌≡◌, refl, sym, ap, none, some, pos, to_bytes, [], ◌∷◌, if◌then◌else◌, ◌==◌,
  ok, Ensures,
}
use obsidian_sync_engine.Base.Tests.{nat_eq, list_eq}
use obsidian_sync_engine.Jsonl.{Codec}
use obsidian_sync_engine.Settings.{
  Object, Settings, string, unsigned, revision_key, find, put, save_revision,
}
use obsidian_sync_engine.Base.Map.{get}
use obsidian_sync_engine.Base.Utf8.{from_utf8}
use obsidian_sync_engine.Fs.Disk.{Disk, file}
use obsidian_sync_engine.Paths.{client_data_path}
use obsidian_sync_engine.Settings.File.{data_files}
use obsidian_sync_engine.Settings.Patch.{IsPrinter}
use obsidian_sync_engine.Settings.Replaced.{Holds, Either, save_revision_lem}

-- The objects of one shape, of which the revision alone is written, as one character.
abbrev shape : ℕ → Object
shape n = (codes "clientName", string (codes "laptop")) ∷ (revision_key, unsigned n) ∷ []

abbrev revision_in : Object → ℕ
revision_in (name ∷ (key, unsigned n) ∷ rest) = n
revision_in _ = 0

abbrev render : Object → Text
render object = revision_in object ∷ []

abbrev from_str : Text → Object
from_str [] = shape 0
from_str (n ∷ text) = shape n

abbrev object_codec : Codec Object
object_codec = record { to_string = λ o. ok (render o); from_str = λ t. ok (from_str t) }

abbrev HasShape : Object → Type 0
HasShape object = object ≡ shape (revision_in object)

shape-IsPrinter : IsPrinter object_codec render HasShape
shape-IsPrinter = record { prints = λ o h. refl; parses = λ o h. ap ok (sym h) }

-- The eighth call, the sync of the folder, fails.
abbrev disk : Disk
disk = record {
  nodes = (client_data_path, file (to_bytes (render (shape 3))) 420 (pos 1)) ∷ [];
  clock = pos 9;
  faults =
      none
      ∷ none
      ∷ none
      ∷ none
      ∷ none
      ∷ none
      ∷ none
      ∷ some (record { written = 1; removed = λ path. true })
      ∷ [];
}

abbrev settings : Settings
settings = record {
  server_url = codes "http://a";
  client_name = codes "laptop";
  client_secret = codes "s";
  revision = 3;
  server_identity = codes "http%3A%2F%2Fa";
}

save_revision_lem_example :
    Ensures
      (λ settings' d'.
        (settings' ≡ record settings { revision = 8 })
        × Holds disk (render (put revision_key (unsigned 8) (shape 3))) d')
      (λ _ d'. Either disk (render (shape 3)) (render (put revision_key (unsigned 8) (shape 3))) d')
      (save_revision (data_files (codes "/home/vault")) object_codec 8 settings disk)
    × ((k : Text)
        → find k (put revision_key (unsigned 8) (shape 3))
          ≡ (if revision_key == k then some (unsigned 8) else find k (shape 3)))
unfolding put list_eq get from_utf8
save_revision_lem_example =
    save_revision_lem disk (codes "/home/vault") object_codec render HasShape shape-IsPrinter
      (shape 3) 8 settings refl refl refl refl

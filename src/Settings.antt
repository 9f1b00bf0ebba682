-- ===== src/Settings.antt =====
-- rust-client/src/settings.rs: `data.json`, which the plugin and this client share. `serde_json`
-- is the parameter `object_codec`, and what is done to the one file `Files`, which File implements
-- on a disk.
pub mod Identity
pub mod Patch
pub mod File
pub mod Replaced
pub mod Loading
use Prim.Native.Nat.{bit_xor}
use obsidian_sync_engine.Base.{
  ℕ, ◌+◌, ◌-◌, ◌*◌, ◌/◌, ◌%◌, Text, codes, starts_with, trim_start, trim_end, Bool, true, false,
  not, ◌||◌, ◌&&◌, Option, none, some, List, [], ◌∷◌, ◌++◌, if◌then◌else◌, ◌==◌, ltb, is_empty,
  Result, ok, err, pure, fail, lift, ◌>>=◌, ◌>>◌,
}
use obsidian_sync_engine.Base.Tests.{nat_eq, list_eq}
use obsidian_sync_engine.Error.{Error, other, with_context, Io, Any}
use obsidian_sync_engine.Fs.{to_hex}
use obsidian_sync_engine.Jsonl.{Codec}
use obsidian_sync_engine.Paths.{encode_uri_component}
use obsidian_sync_engine.Protocol.{is_valid_revision}

-- `trim_end_matches('/')`
abbrev trim_end_slashes : Text → Text
trim_end_slashes [] = []
trim_end_slashes (c ∷ text) =
    let rest = trim_end_slashes text in if c == b'/' && is_empty rest then [] else c ∷ rest

unfoldable pub normalize_server_url : Text → Text
normalize_server_url value = trim_end_slashes (trim_end (trim_start value))

unfoldable pub server_identity_for : Text → Text
unfolding encode_uri_component normalize_server_url
server_identity_for value = encode_uri_component (normalize_server_url value)

-- `encode_utf16`, one character.
abbrev utf16_char : ℕ → List ℕ
utf16_char c =
    if ltb c 0x10000
    then c ∷ []
    else (0xD800 + (c - 0x10000) / 0x400) ∷ (0xDC00 + (c - 0x10000) % 0x400) ∷ []

abbrev encode_utf16 : Text → List ℕ
encode_utf16 [] = []
encode_utf16 (c ∷ text) = utf16_char c ++ encode_utf16 text

-- The loop over the units: `hash` is a `u32`.
abbrev fnv1a : ℕ → List ℕ → ℕ
fnv1a hash [] = hash
fnv1a hash (unit ∷ units) = fnv1a (bit_xor hash unit * 0x01000193 % 0x100000000) units

-- `{hash:08x}`
abbrev hex8 : ℕ → Text
unfolding to_hex
hex8 hash =
    to_hex (hash / 0x1000000 ∷ hash / 0x10000 % 0x100 ∷ hash / 0x100 % 0x100 ∷ hash % 0x100 ∷ [])

unfoldable pub legacy_server_identity_for : Text → Text
unfolding normalize_server_url to_hex
legacy_server_identity_for value =
    hex8 (fnv1a 0x811c9dc5 (encode_utf16 (normalize_server_url value)))

-- `serde_json::Value`, as far as it is looked into: any other value is its text.
pub data Value : Type 0 where
  string : Text → Value
  unsigned : ℕ → Value
  other_value : Text → Value

-- `serde_json::Map` in the order of its keys' first insertions (`preserve_order`).
abbrev pub Object : Type 0
Object = List (Text × Value)

unfoldable pub find : Text → Object → Option Value
unfolding list_eq
find key [] = none
find key ((k, value) ∷ object) =
    let later = find key object in if k == key then some value else later

unfoldable pub put : Text → Value → Object → Object
unfolding list_eq
put key value [] = (key, value) ∷ []
put key value ((k, old) ∷ object) =
    let later = put key value object in if k == key then (k, value) ∷ object else (k, old) ∷ later

pub record Settings : Type 0 where
  pub server_url : Text
  pub client_name : Text
  pub client_secret : Text
  pub revision : ℕ
  pub server_identity : Text

abbrev pub revision_key : Text
revision_key = codes "revision"

abbrev pub as_str : Option Value → Option Text
as_str (some (string text)) = some text
as_str _ = none

-- `as_u64` and the filter on it.
abbrev pub valid_revision : Option Value → Option ℕ
unfolding is_valid_revision
valid_revision (some (unsigned revision)) =
    if is_valid_revision revision then some revision else none
valid_revision _ = none

abbrev present : Text → Option Text → Result Error Text
present key (some value) =
    if is_empty value then err (other (key ++ codes " missing from data.json")) else ok value
present key none = err (other (key ++ codes " missing from data.json"))

unfoldable pub required_str : Object → Text → Result Error Text
unfolding find
required_str object key = present key (as_str (find key object))

-- What is done to `data.json`: it is read, as in `read_object`, or replaced by a text, as in
-- `write_object`. An error has its context.
pub record Files (W : Type 0) : Type 0 where
  pub read : Any W Text
  pub replace : Text → Any W (Unit {0})

module _ {W : Type 0} (files : Files W) (object_codec : Codec Object) where
  -- Errors of the parser are not passed on.
  unfoldable pub read_object : Any W Object
  read_object = do
    raw ← files.read
    elim (object_codec.from_str raw) [
      | ok object ↦ pure object
      | err e ↦ fail (other (codes "data.json is not a JSON object"))
    ]

  unfoldable pub write_object : Object → Any W (Unit {0})
  write_object object = do body ← lift (object_codec.to_string object); files.replace body

  -- The `match` of `load` on the recorded identity.
  unfoldable pub check_identity : Object → Text → Text → Option Text → Any W (Unit {0})
  unfolding legacy_server_identity_for write_object put list_eq
  check_identity object server_url identity (some previous) =
      if previous == identity
      then pure tt
      else if previous == legacy_server_identity_for server_url
      then fail (
          other (
            codes
              "data.json has a legacy serverIdentity; open the vault in Obsidian once so the plugin can migrate its journals"))
      else fail (
          other (
            codes
              "data.json serverIdentity does not match serverUrl; the plugin would reset this client, so refusing to start"))
  check_identity object server_url identity none =
      write_object (put (codes "serverIdentity") (string identity) object)

  abbrev pub found_revision : Option ℕ → Result Error ℕ
  found_revision (some revision) = ok revision
  found_revision none = err (other (codes "revision in data.json must be a nonnegative integer"))

  unfoldable pub load : Any W Settings
  unfolding read_object required_str normalize_server_url is_valid_revision server_identity_for
      check_identity find
  load = do
    object ← read_object
    raw_url ← lift (required_str object (codes "serverUrl"))
    let server_url : Text = normalize_server_url raw_url
    if not (starts_with (codes "http://") server_url || starts_with (codes "https://") server_url)
        then fail (other (codes "serverUrl in data.json must use HTTP or HTTPS"))
        else do
          client_name ← lift (required_str object (codes "clientName"))
          client_secret ← lift (required_str object (codes "clientSecret"))
          revision ← lift (found_revision (valid_revision (find revision_key object)))
          let identity : Text = server_identity_for server_url
          check_identity object server_url identity (as_str (find (codes "serverIdentity") object))
          pure (record {
            server_url = server_url;
            client_name = client_name;
            client_secret = client_secret;
            revision = revision;
            server_identity = identity;
          })

  unfoldable pub patch : Text → Value → Any W (Unit {0})
  unfolding read_object write_object put
  patch key value = do object ← read_object; write_object (put key value object)

  -- The methods that change the object return it.
  unfoldable pub save_revision : ℕ → Settings → Any W Settings
  unfolding patch
  save_revision revision settings = do
    patch revision_key (unsigned revision)
    pure (record settings { revision = revision })

  unfoldable pub save_credentials : Text → Text → Settings → Any W Settings
  unfolding read_object write_object put
  save_credentials client_name client_secret settings = do
    object ← read_object
    write_object (
        put (codes "clientSecret") (string client_secret)
          (put (codes "clientName") (string client_name) object))
    pure (record settings { client_name = client_name; client_secret = client_secret })

  unfoldable pub save_client_name : Text → Settings → Any W Settings
  unfolding patch
  save_client_name client_name settings = do
    patch (codes "clientName") (string client_name)
    pure (record settings { client_name = client_name })

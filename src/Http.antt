-- ===== src/Http.antt =====
-- rust-client/src/transport.rs: the transport over HTTP. The crate `ureq` is the parameter `call`:
-- one request, and the status and the body that came back, or an error's message.
pub mod Outcomes
use obsidian_sync_engine.Base.{
  ℕ, zero, suc, Text, Bytes, codes, to_decimal, to_bytes, Bool, true, false, ◌||◌, ◌&&◌, Option,
  none, some, List, [], ◌∷◌, ◌++◌, if◌then◌else◌, ◌==◌, leb, ltb, Result, ok, err, fail, pure, lift,
  catch, ◌>>=◌, ◌>>◌,
}
use obsidian_sync_engine.Base.Tests.{nat_eq}
use obsidian_sync_engine.Op.{InboxOp}
use obsidian_sync_engine.Error.{
  Error, other, permanent_remote, remote_file_not_found, auth_rejected, display, with_context, Io,
  Any,
}
use obsidian_sync_engine.Jsonl.{Codec}
use obsidian_sync_engine.Paths.{encode_uri_component}
use obsidian_sync_engine.Protocol
use obsidian_sync_engine.Protocol.{
  Message, fmt, deserialize_message, deserialize_inbox_ndjson, parse_revision_response,
}
use obsidian_sync_engine.Engine.State.{Transport}

abbrev error_body_limit : ℕ
error_body_limit = 512

pub record Request : Type 0 where
  pub method : Text
  pub url : Text
  pub headers : List (Text × Text)
  pub body : Option Bytes

-- The body read as text, and as bytes; either read can fail.
pub record Response : Type 0 where
  pub status : ℕ
  pub text : Result Text Text
  pub bytes : Result Text Bytes

pub record HttpTransport : Type 0 where
  pub server_url : Text
  pub secret : Text

unfoldable pub set_secret : Text → HttpTransport → HttpTransport
set_secret secret http = record http { secret = secret }

-- What the transport is given: `ureq`, `serde_json` at each of its types, and `{:?}` of a string.
pub record Wire (W : Type 0) : Type 0 where
  pub call : Request → Io W Response
  pub messages : Codec Message
  pub operations : Codec InboxOp
  pub revision_field : Text → Result Error (Option ℕ)
  pub debug : Text → Text

pub data AuthOutcome : Type 0 where
  enrolled : (client_name client_secret : Text) → AuthOutcome
  verified : AuthOutcome

-- `chars().take(n)`
abbrev take : ℕ → Text → Text
take zero text = []
take (suc n) [] = []
take (suc n) (c ∷ text) = c ∷ take n text

unfoldable pub assert_ok : ℕ → Text → Text → Result Error (Unit {0})
unfolding to_decimal
assert_ok status text action =
    let message : Text =
      action
      ++ (codes " failed with status "
          ++ (to_decimal status ++ (codes ": " ++ take error_body_limit text))) in
    if status == 413 || status == 400
    then err (permanent_remote message status)
    else (if leb 400 status then err (other message) else ok tt)

unfoldable pub read_text : Response → Result Error Text
read_text response = elim (response.text) [
  | ok text ↦ ok text
  | err e ↦ err (other (codes "reading response failed: " ++ e))
]

-- `with_context` on a result.
abbrev in_context : {A : Type 0} → Text → Result Error A → Result Error A
unfolding with_context
in_context context (ok a) = ok a
in_context context (err e) = err (with_context context e)

-- `unwrap_or_default`
abbrev or_default : Result Error Text → Text
or_default (ok text) = text
or_default (err e) = []

module _ {A : Type 0} where
  abbrev renamed : Text → Result Text A → Result Error A
  renamed failed (ok a) = ok a
  renamed failed (err e) = err (other (failed ++ e))

module _ {W : Type 0} (wire : Wire W) where
  -- `map_err` on a call.
  abbrev request : Text → Request → Any W Response
  request failed r w = let (answer, w') = wire.call r w in (renamed failed answer, w')

  -- The end of `upload` and `delete_remote`, from the response on.
  unfoldable pub revision_of : Text → Response → Result Error ℕ
  unfolding read_text assert_ok parse_revision_response with_context
  revision_of action response = elim (read_text response) [
    | err e ↦ err e
    | ok text ↦ elim (assert_ok response.status text action) [
      | err e ↦ err e
      | ok _ ↦ in_context action (parse_revision_response wire.revision_field text)
    ]
  ]

  -- The end of `download`, from the response on.
  unfoldable pub bytes_of : Text → Response → Result Error Bytes
  unfolding read_text assert_ok
  bytes_of path response =
      let body : Result Error Bytes =
        renamed (codes "download of " ++ (wire.debug path ++ codes " failed: ")) response.bytes in
      if response.status == 404
      then err (remote_file_not_found path)
      else if leb 400 response.status
      then elim (assert_ok response.status (or_default (read_text response))
          (codes "Download of " ++ wire.debug path)) [ err e ↦ err e | ok _ ↦ body ]
      else body

  -- The end of `fetch_inbox`, from the response on.
  unfoldable pub operations_of : Response → Result Error (List InboxOp)
  unfolding read_text assert_ok deserialize_inbox_ndjson
  operations_of response = elim (read_text response) [
    | err e ↦ err e
    | ok text ↦ elim (assert_ok response.status text (codes "Fetching inbox")) [
      | err e ↦ err e
      | ok _ ↦ deserialize_inbox_ndjson wire.operations wire.debug text
    ]
  ]

  module _ (http : HttpTransport) where
    abbrev failed_text : Text → Text → Text
    failed_text action path = action ++ (wire.debug path ++ codes " failed: ")

    abbrev authorization : Text × Text
    authorization = (codes "Authorization", http.secret)

    abbrev pub file_url : Text → Text
    unfolding encode_uri_component
    file_url path = http.server_url ++ (codes "/files?path=" ++ encode_uri_component path)

    unfoldable pub upload_request : Text → Bytes → Request
    unfolding encode_uri_component
    upload_request path body = record {
      method = codes "POST";
      url = http.server_url ++ codes "/files";
      headers =
          (codes "Content-Type", codes "application/octet-stream")
          ∷ authorization
          ∷ (codes "X-Obsidian-Path", encode_uri_component path)
          ∷ [];
      body = some body;
    }

    unfoldable pub upload : Text → Bytes → Any W ℕ
    unfolding upload_request revision_of
    upload path body = do
      response ← request (failed_text (codes "upload of ") path) (upload_request path body)
      lift (revision_of (codes "Upload of " ++ wire.debug path) response)

    abbrev base_header : Option ℕ → List (Text × Text)
    unfolding to_decimal
    base_header none = []
    base_header (some base) = (codes "X-Obsidian-Base-Revision", to_decimal base) ∷ []

    unfoldable pub delete_remote : Text → Option ℕ → Any W ℕ
    unfolding revision_of
    delete_remote path base_revision = do
      response ← request (failed_text (codes "delete of ") path) (record {
        method = codes "DELETE";
        url = file_url path;
        headers = authorization ∷ base_header base_revision;
        body = none;
      })
      lift (revision_of (codes "Delete of " ++ wire.debug path) response)

    unfoldable pub download : Text → Any W Bytes
    unfolding bytes_of
    download path = do
      response ← request (failed_text (codes "download of ") path) (record {
        method = codes "GET";
        url = file_url path;
        headers = authorization ∷ [];
        body = none;
      })
      lift (bytes_of path response)

    unfoldable pub fetch_inbox : ℕ → Any W (List InboxOp)
    unfolding operations_of to_decimal
    fetch_inbox revision = do
      response ← request (codes "fetching inbox failed: ") (record {
        method = codes "GET";
        url = http.server_url ++ (codes "/inbox?rev=" ++ to_decimal revision);
        headers = authorization ∷ [];
        body = none;
      })
      lift (operations_of response)

    -- `impl Transport for HttpTransport`
    abbrev pub transport : Transport W
    unfolding upload delete_remote download fetch_inbox
    transport = record {
      upload = upload;
      delete_remote = delete_remote;
      download = download;
      fetch_inbox = fetch_inbox;
    }

    unfoldable pub health : W → Bool × W
    health w =
        let (answer, w') =
          wire.call
            (record {
              method = codes "GET";
              url = http.server_url ++ codes "/health";
              headers = [];
              body = none;
            })
            w in
        (
          elim answer [
            | ok response ↦ leb 200 response.status && ltb response.status 300
            | err e ↦ false
          ],
          w',
        )

    -- `(status)` in the messages.
    abbrev with_status : Text → ℕ → Text → Text
    unfolding to_decimal
    with_status action status text =
        action ++ (codes " failed (" ++ (to_decimal status ++ (codes "): " ++ text)))

    -- `serialize_message`, whose `expect` is an error here, and the post of it.
    unfoldable pub post_message : Text → Text → Message → Any W Response
    post_message failed path m = do
      body ← lift (wire.messages.to_string m)
      request failed (record {
        method = codes "POST";
        url = http.server_url ++ path;
        headers = (codes "Content-Type", codes "application/json") ∷ [];
        body = some (to_bytes body);
      })

    abbrev pub auth_outcome : ℕ → Result Error Message → Result Error AuthOutcome
    unfolding fmt to_decimal
    auth_outcome status (err e) =
        err (other (with_status (codes "Auth") status (codes "could not parse response")))
    auth_outcome status (ok (Message.auth_init client_name token)) = ok (enrolled client_name token)
    auth_outcome status (ok Message.auth_success) = ok verified
    auth_outcome status (ok (Message.auth_failed reason)) = err (auth_rejected reason)
    auth_outcome status (ok m) =
        err (other (with_status (codes "Auth") status (codes "unexpected response " ++ fmt m)))

    unfoldable pub authenticate : Text → Any W AuthOutcome
    unfolding post_message read_text deserialize_message
    authenticate client_name = do
      response ←
          post_message (codes "auth request failed: ") (codes "/auth")
            (Message.auth_ack client_name http.secret)
      text ← lift (read_text response)
      lift (auth_outcome response.status (deserialize_message wire.messages text))

    abbrev pub rename_outcome : ℕ → Result Error Message → Result Error Text
    unfolding fmt with_context to_decimal
    rename_outcome status (err e) = err (with_context (codes "invalid rename response") e)
    rename_outcome status (ok (Message.auth_init client_name token)) = ok client_name
    rename_outcome status (ok (Message.error reason)) =
        err (other (with_status (codes "Rename") status reason))
    rename_outcome status (ok m) =
        err (other (with_status (codes "Rename") status (codes "unexpected response " ++ fmt m)))

    unfoldable pub rename_client : Text → Any W Text
    unfolding post_message read_text deserialize_message
    rename_client new_client_name = do
      response ←
          post_message (codes "rename request failed: ") (codes "/reset-client-name")
            (Message.reset_client_name new_client_name http.secret)
      text ← lift (read_text response)
      lift (rename_outcome response.status (deserialize_message wire.messages text))

-- ===== src/Cli/Commands.antt =====
-- rust-client/src/cli.rs: the one-shot commands. What they are given is the parameter `Shell`.
use obsidian_sync_engine.Base.{
  ℕ, Text, Bytes, codes, to_decimal, Bool, true, false, Option, List, [], ◌++◌, ◌-◌, ◌==◌, Result,
  ok, err, pure, fail, ◌>>=◌, ◌>>◌, catch, length, filter, for_each,
}
use obsidian_sync_engine.Error.{Error, Any, Io, io, other, display}
use obsidian_sync_engine.Fs.{SyncFs}
use obsidian_sync_engine.Op.{OpKind, InboxOp, as_str, op_eq}
use obsidian_sync_engine.Jsonl.{Codec, read_lines}
use obsidian_sync_engine.Outbox
use obsidian_sync_engine.Outbox.{OutboxOp}
use obsidian_sync_engine.Guard.Process.{Entry, obsidian_running}
use obsidian_sync_engine.Settings
use obsidian_sync_engine.Settings.{Settings, Files, Object, save_client_name}
use obsidian_sync_engine.Http
use obsidian_sync_engine.Http.{HttpTransport, Wire, AuthOutcome}
use obsidian_sync_engine.Engine.State.{JournalPaths, for_identity, reading}
use obsidian_sync_engine.Cli.Verify.{
  tip_of, first_of, verify_path, say, say_number, more_than, bool_text,
}

-- The files of the vault, `data.json`, the server, standard output, the owner of the vault and the
-- processes; `Value` is the type of any JSON value.
pub record Shell (W Value : Type 0) : Type 0 where
  pub fs : SyncFs W
  pub files : Files W
  pub object_codec : Codec Object
  pub wire : Wire W
  pub outbox_codec : Codec OutboxOp
  pub value_codec : Codec Value
  pub digest : Bytes → Bytes
  pub println : Text → W → W
  pub vault_uid : Io W ℕ
  pub processes : W → List Entry × W

-- rust-client/src/engine.rs: `count_lines`
unfoldable pub count_lines : {W Value : Type 0} → SyncFs W → Codec Value → Text → Any W ℕ
unfolding read_lines
count_lines fs value_codec path = do lines ← read_lines fs value_codec path; pure (length lines)

abbrev is_outbox_delete : OutboxOp → Bool
is_outbox_delete op = op.op == OpKind.delete

abbrev is_delete : InboxOp → Bool
is_delete op = op.op == OpKind.delete

module _ {W Value : Type 0} (shell : Shell W Value) where
  abbrev pub transport_of : Settings → HttpTransport
  transport_of settings = record {
    server_url = settings.server_url;
    secret = settings.client_secret;
  }

  -- `open`
  unfoldable pub open_client : Any W (Settings × HttpTransport)
  unfolding Settings.load
  open_client = do
    settings ← Settings.load shell.files shell.object_codec
    pure (settings, transport_of settings)

  abbrev pub is_running : Any W Bool
  unfolding obsidian_running
  is_running = do
    uid ← io shell.vault_uid
    entries ← reading shell.processes
    pure (obsidian_running uid entries)

  abbrev pub auth_text : Result Error AuthOutcome → Text
  unfolding display
  auth_text (ok AuthOutcome.verified) = codes "auth:            ok"
  auth_text (ok (AuthOutcome.enrolled client_name client_secret)) =
      codes "auth:            enrolled (server was empty)"
  auth_text (err e) = codes "auth:            FAILED (" ++ (display e ++ codes ")")

  -- The end of `status`, from the request to authenticate on.
  unfoldable pub server_status : Settings → HttpTransport → Any W (Unit {0})
  unfolding Http.authenticate Http.fetch_inbox to_decimal for_each
  server_status settings http = do
    outcome ← catch (Http.authenticate shell.wire http settings.client_name)
    say shell.println (auth_text outcome)
    ops ← Http.fetch_inbox shell.wire http settings.revision
    let deletes : ℕ = length (filter is_delete ops)
    say_number shell.println (codes "server tip:      ") (tip_of settings.revision ops)
    say shell.println (
        codes "behind by:       "
        ++ (to_decimal (length ops - deletes)
            ++ (codes " puts, " ++ (to_decimal deletes ++ codes " deletes"))))
    for_each (first_of 40 ops) (λ op. say shell.println (
        codes "  rev "
        ++ (to_decimal op.rev ++ (codes " " ++ (as_str op.op ++ (codes " " ++ op.path))))))
    more_than shell.println (length ops)

  unfoldable pub status : Text → Any W (Unit {0})
  unfolding open_client for_identity Outbox.list_ops count_lines server_status Http.health
      to_decimal
  status vault = do
    opened ← open_client
    let settings : Settings = opened.0
    let paths : JournalPaths = for_identity settings.server_identity
    say shell.println (codes "vault:           " ++ vault)
    say shell.println (codes "server:          " ++ settings.server_url)
    say shell.println (codes "client name:     " ++ settings.client_name)
    say_number shell.println (codes "revision:        ") settings.revision
    queued ← Outbox.list_ops shell.fs shell.outbox_codec paths.outbox
    say_number shell.println (codes "outbox depth:    ") (length queued)
    inbox ← count_lines shell.fs shell.value_codec paths.inbox
    say_number shell.println (codes "inbox depth:     ") inbox
    dead ← count_lines shell.fs shell.value_codec paths.dead_letter
    say_number shell.println (codes "dead letters:    ") dead
    running ← is_running
    say shell.println (codes "obsidian open:   " ++ bool_text running)
    healthy ← reading (Http.health shell.wire opened.1)
    elim healthy [
      | false ↦ say shell.println (codes "server health:   UNREACHABLE")
      | true ↦ do say shell.println (codes "server health:   ok"); server_status settings opened.1
    ]

  unfoldable pub verify : Option Text → Any W (Unit {0})
  unfolding open_client verify_path Http.upload Http.delete_remote Http.download Http.fetch_inbox
  verify path = do
    opened ← open_client
    verify_path shell.digest shell.fs (Http.transport shell.wire opened.1) shell.println path

  unfoldable pub approve_mass_push : Any W (Unit {0})
  unfolding Settings.load for_identity Outbox.list_ops to_decimal
  approve_mass_push = do
    settings ← Settings.load shell.files shell.object_codec
    let paths : JournalPaths = for_identity settings.server_identity
    ops ← Outbox.list_ops shell.fs shell.outbox_codec paths.outbox
    let deletes : ℕ = length (filter is_outbox_delete ops)
    io (shell.fs.write paths.approval [])
    say shell.println (
        codes "Approved. The running client will now push "
        ++ (to_decimal deletes
            ++ (codes " deletes and "
                ++ (to_decimal (length ops - deletes)
                    ++ codes " changes already queued, plus any changes held at startup."))))

  unfoldable pub rename_client : Text → Any W (Unit {0})
  unfolding open_client Http.rename_client save_client_name
  rename_client name = do
    running ← is_running
    elim running [
      | true ↦ fail (
          other (codes "close Obsidian first: the plugin keeps its own copy of the name in memory"))
      | false ↦ do
        opened ← open_client
        renamed ← Http.rename_client shell.wire opened.1 name
        save_client_name shell.files shell.object_codec renamed opened.0
        say shell.println
            (codes "client renamed to " ++ (renamed ++ codes " on the server and in data.json"))
    ]

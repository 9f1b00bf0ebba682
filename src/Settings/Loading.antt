-- ===== src/Settings/Loading.antt =====
-- rust-client/src/settings.rs: loading the settings touches `data.json` alone.
use obsidian_sync_engine.Base.{Text, Option, none, some, ◌==◌, codes, Result, ok, err, pure, fail}
use obsidian_sync_engine.Base.Tests.{nat_eq, list_eq}
use obsidian_sync_engine.Base.Preserves.{
  Preserves, Preserves-pure, Preserves-fail, Preserves-bind, Preserves-if, Preserves-lift,
}
use obsidian_sync_engine.Error.{Any, other}
use obsidian_sync_engine.Jsonl.{Codec}
use obsidian_sync_engine.Settings.{
  Files, Object, read_object, write_object, check_identity, legacy_server_identity_for, load,
  found_revision, valid_revision, revision_key, as_str, server_identity_for, normalize_server_url,
  find, required_str,
}

module _ {W : Type 0} (files : Files W) (object_codec : Codec Object) {Inv : W → Type 0}
    (reads : Preserves Inv files.read)
    (replaces : (t : Text) → Preserves Inv (files.replace t)) where
  Preserves-read_object : Preserves Inv (read_object files object_codec)
  unfolding read_object
  Preserves-read_object = Preserves-bind reads λ raw. parsed (object_codec.from_str raw)
    where
      parsed :
          {E : Type 0} (r : Result E Object)
          → Preserves Inv (elim r as (λ _. Any W Object) [
            | ok object ↦ pure object
            | err e ↦ fail (other (codes "data.json is not a JSON object"))
          ])
      parsed (ok object) = Preserves-pure object
      parsed (err e) = Preserves-fail _

  Preserves-write_object :
      (object : Object) → Preserves Inv (write_object files object_codec object)
  unfolding write_object
  Preserves-write_object object =
      Preserves-bind (Preserves-lift (object_codec.to_string object)) λ body. replaces body

  Preserves-check_identity :
      (object : Object) (server_url identity : Text) (recorded : Option Text)
      → Preserves Inv (check_identity files object_codec object server_url identity recorded)
  unfolding check_identity
  Preserves-check_identity object server_url identity none = Preserves-write_object _
  Preserves-check_identity object server_url identity (some previous) =
      Preserves-if (previous == identity) (Preserves-pure tt) (
        Preserves-if (previous == legacy_server_identity_for server_url) (Preserves-fail _)
          (Preserves-fail _))

  -- What reading and replacing `data.json` leave alone, loading leaves alone.
  pub Preserves-load : Preserves Inv (load files object_codec)
  unfolding load
  Preserves-load = Preserves-bind Preserves-read_object λ object.
      Preserves-bind (Preserves-lift (required_str object (codes "serverUrl"))) λ raw_url.
        Preserves-if _ (Preserves-fail _) (
          Preserves-bind (Preserves-lift (required_str object (codes "clientName"))) λ client_name.
            Preserves-bind (Preserves-lift (required_str object (codes "clientSecret")))
              λ client_secret.
                Preserves-bind
                  (Preserves-lift
                    (found_revision files object_codec (valid_revision (find revision_key object))))
                  λ revision.
                    Preserves-bind
                      (Preserves-check_identity object (normalize_server_url raw_url)
                        (server_identity_for (normalize_server_url raw_url))
                        (as_str (find (codes "serverIdentity") object)))
                      λ _. Preserves-pure (record {
                        server_url = normalize_server_url raw_url;
                        client_name = client_name;
                        client_secret = client_secret;
                        revision = revision;
                        server_identity = server_identity_for (normalize_server_url raw_url);
                      }))

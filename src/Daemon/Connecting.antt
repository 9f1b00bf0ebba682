-- ===== src/Daemon/Connecting.antt =====
-- rust-client/src/daemon.rs: what a connection leaves, and when it ends.
use obsidian_sync_engine.Base.{
  ℕ, zero, suc, ◌+◌, ◌*◌, Text, ◌≡◌, refl, sym, ap, ◌∙◌, Bool, true, false, if◌then◌else◌, min,
  Result, ok, err, catch, ◌⊎◌, inl, inr, Bool-cases, on_world, Ensures, Ensures-continue,
  Ensures-on_world,
}
use obsidian_sync_engine.Base.Preserves.{
  anything, Preserves, Preserves-pure, Preserves-bind, Preserves-if, Preserves-on_world,
  Preserves-gets, Preserves-elim,
}
use obsidian_sync_engine.Error.{Error, Any, is_auth_rejected}
use obsidian_sync_engine.Settings.{
  Settings, Files, Object, save_credentials, read_object, write_object,
}
use obsidian_sync_engine.Jsonl.{Codec}
use obsidian_sync_engine.Http
use obsidian_sync_engine.Http.{HttpTransport, AuthOutcome, verified, enrolled}
use obsidian_sync_engine.Engine.State.{reading}
use obsidian_sync_engine.Daemon.Schedule.{secs, max_backoff}
use obsidian_sync_engine.Daemon.Host.{Host}
use obsidian_sync_engine.Daemon.Connect.{
  Connection, wait_until, retry, after_attempt, Attempt, connected, rejected, failed, settle,
  attempt, connect_from, connect,
}

-- The transport sends the secret of the settings, to this server, and revision and identity are
-- these.
abbrev pub Agree : Text → ℕ → Text → HttpTransport × Settings → Type 0
Agree url revision identity (http, settings) =
    (http.secret ≡ settings.client_secret)
    × (http.server_url ≡ url)
    × (settings.revision ≡ revision)
    × (settings.server_identity ≡ identity)

-- `save_credentials` changes the credentials alone.
abbrev IsSaved : Text → Settings → Settings → Type 0
IsSaved client_secret settings saved =
    (saved.client_secret ≡ client_secret)
    × (saved.revision ≡ settings.revision)
    × (saved.server_identity ≡ settings.server_identity)

module _ {W : Type 0} (files : Files W) (object_codec : Codec Object) where
  save_credentials_lem :
      (client_name client_secret : Text) (settings : Settings) (w : W)
      → Ensures
          (λ saved _. IsSaved client_secret settings saved)
          (λ _ _. Unit {0})
          (save_credentials files object_codec client_name client_secret settings w)
  unfolding save_credentials
  save_credentials_lem client_name client_secret settings w =
      Ensures-continue (read_object files object_codec w) _ (anything _) λ object w1 _.
        Ensures-continue (write_object files object_codec _ w1) _ (anything _)
          λ _ w2 _. record { post = (refl, refl, refl) }

module _ {W : Type 0} (host : Host W) (url : Text) (revision : ℕ) (identity : Text) where
  abbrev Inv : Connection W → Type 0
  Inv (c, w) = Agree url revision identity c

  Preserves-settle : (result : Result Error AuthOutcome) → Preserves Inv (settle host result)
  unfolding settle Http.set_secret
  Preserves-settle (ok verified) = Preserves-pure connected
  Preserves-settle (ok (enrolled client_name client_secret)) = record {
    preserved = λ ((http, settings), w) i.
        Ensures-continue {Q = λ saved _. IsSaved client_secret settings saved}
          (on_world
            (save_credentials host.files host.object_codec client_name client_secret settings)
            ((http, settings), w))
          _
          (Ensures-on_world (http, settings)
            (save_credentials host.files host.object_codec client_name client_secret settings) w
            (save_credentials_lem host.files host.object_codec client_name client_secret settings w)
            (λ saved _ q. q) (λ _ _ _. i))
          λ saved s1 q. record { post = (sym q.0, i.1, q.1 ∙ i.2, q.2 ∙ i.3) };
  }
  Preserves-settle (err error) = Preserves-pure _

  Preserves-attempt : Preserves Inv (attempt host)
  unfolding attempt
  Preserves-attempt = Preserves-bind (Preserves-gets (λ c. c)) λ c.
      Preserves-bind (Preserves-on_world (reading (Http.health host.wire c.0)) (λ _ _ _ i. i))
        λ healthy.
          Preserves-if healthy
            (Preserves-bind
              (Preserves-on_world (catch (Http.authenticate host.wire c.0 c.1.client_name))
                (λ _ _ _ i. i))
              λ result. Preserves-settle result)
            (Preserves-pure failed)

  Preserves-retry :
      (fuel : ℕ) (again : ℕ → Any (Connection W) Bool) (delay : ℕ)
      → ((later : ℕ) → Preserves Inv (again later))
      → Preserves Inv (retry host fuel again delay)
  unfolding retry
  Preserves-retry fuel again delay rest =
      Preserves-bind (Preserves-on_world (reading host.now) (λ _ _ _ i. i)) λ now.
        Preserves-bind (Preserves-on_world (wait_until host fuel (now + delay)) (λ _ _ _ i. i))
          λ ended. Preserves-elim ended (rest (min (delay * 2) max_backoff)) (Preserves-pure false)

  Preserves-after_attempt :
      (fuel : ℕ) (again : ℕ → Any (Connection W) Bool) (delay : ℕ) (outcome : Attempt)
      → ((later : ℕ) → Preserves Inv (again later))
      → Preserves Inv (after_attempt host fuel again delay outcome)
  unfolding after_attempt
  Preserves-after_attempt fuel again delay connected rest = Preserves-pure true
  Preserves-after_attempt fuel again delay rejected rest =
      Preserves-retry fuel again max_backoff rest
  Preserves-after_attempt fuel again delay failed rest = Preserves-retry fuel again delay rest

  Preserves-connect_from : (fuel delay : ℕ) → Preserves Inv (connect_from host fuel delay)
  unfolding connect_from
  Preserves-connect_from zero delay = Preserves-pure false
  Preserves-connect_from (suc fuel) delay =
      Preserves-bind (Preserves-on_world (reading host.shutdown) (λ _ _ _ i. i)) λ stopped.
        Preserves-elim stopped (Preserves-pure true) (
          Preserves-bind Preserves-attempt λ outcome.
            Preserves-after_attempt fuel (connect_from host fuel) delay outcome
              (Preserves-connect_from fuel))

  -- Whether the connection is made, given up or fails on the way, the transport still sends the
  -- secret that the settings hold, to the same server, and revision and identity are as they were.
  pub connect-Agree :
      (fuel : ℕ) (http : HttpTransport) (settings : Settings) (w : W)
      → Agree url revision identity (http, settings)
      → Ensures
          (λ _ s'. Agree url revision identity s'.0)
          (λ _ s'. Agree url revision identity s'.0)
          (connect host fuel ((http, settings), w))
  unfolding connect
  connect-Agree fuel http settings w h =
      (Preserves-connect_from fuel (secs 1)).preserved ((http, settings), w) h

module _ {W : Type 0} (host : Host W) where
  -- The server was found healthy, it then accepted the name and the secret of the client, or
  -- enrolled it, and what is to be done on that has been done: nothing but the storing of new
  -- credentials.
  pub record IsAccepted (s' : Connection W) : Type 0 where
    pub http : HttpTransport
    pub settings : Settings
    pub start : W
    pub healthy : (Http.health host.wire http start).0 ≡ true
    pub outcome : AuthOutcome
    pub answered : W
    pub accepted :
        Http.authenticate host.wire http settings.client_name (Http.health host.wire http start).1
        ≡ (ok outcome, answered)
    pub settled : settle host (ok outcome) ((http, settings), answered) ≡ (ok connected, s')

  -- The last thing read was the flag for the shutdown, set.
  abbrev pub IsStopped : Connection W → Type 0
  IsStopped (c, w') = (w : W) × (host.shutdown w ≡ (true, w'))

  abbrev Reason : Bool → Connection W → Type 0
  Reason ended s = (ended ≡ false) ⊎ (IsAccepted s ⊎ IsStopped s)

  -- What an attempt that connected has been told.
  abbrev Told : Attempt → Connection W → Type 0
  Told connected s' = IsAccepted s'
  Told rejected s' = Unit {0}
  Told failed s' = Unit {0}

  settle-Told :
      (http : HttpTransport) (settings : Settings) (start : W)
      → (Http.health host.wire http start).0 ≡ true
      → (r : Result Error AuthOutcome × W)
      → Http.authenticate host.wire http settings.client_name (Http.health host.wire http start).1
        ≡ r
      → Ensures Told (λ _ _. Unit {0}) (settle host r.0 ((http, settings), r.1))
  unfolding settle
  settle-Told http settings start healthy (ok outcome, w) e =
      told (settle host (ok outcome) ((http, settings), w)) refl
    where
      told :
          (r : Result Error Attempt × Connection W)
          → settle host (ok outcome) ((http, settings), w) ≡ r
          → Ensures Told (λ _ _. Unit {0}) r
      told (ok connected, s') h = record {
        post = record {
          http = http;
          settings = settings;
          start = start;
          healthy = healthy;
          outcome = outcome;
          answered = w;
          accepted = e;
          settled = h;
        };
      }
      told (ok rejected, s') h = record { post = tt }
      told (ok failed, s') h = record { post = tt }
      told (err e, s') h = record { post = tt }
  settle-Told http settings start healthy (err e, w) h = refused (is_auth_rejected e)
    where
      refused :
          (b : Bool)
          → Ensures {E = Error} Told
              (λ _ _. Unit {0})
              (ok (if b then rejected else failed), ((http, settings), w))
      refused true = record { post = tt }
      refused false = record { post = tt }

  attempt-Told : (s : Connection W) → Ensures Told (λ _ _. Unit {0}) (attempt host s)
  unfolding attempt
  attempt-Told ((http, settings), w) = elim (Bool-cases (Http.health host.wire http w).0) [
    | inl healthy ↦ rw healthy (settle-Told http settings w healthy _ refl)
    | inr unhealthy ↦ rw unhealthy (record { post = tt })
  ]

  retry-Reason :
      (fuel : ℕ) (again : ℕ → Any (Connection W) Bool) (delay : ℕ) (s : Connection W)
      → ((later : ℕ) (s1 : Connection W) → Ensures Reason (λ _ _. Unit {0}) (again later s1))
      → Ensures Reason (λ _ _. Unit {0}) (retry host fuel again delay s)
  unfolding retry
  retry-Reason fuel again delay s rest =
      let now : ℕ × W = host.now s.1 in
      Ensures-continue (on_world (wait_until host fuel (now.0 + delay)) (s.0, now.1)) _ (anything _)
        λ ended s2 _. elim (Bool-cases ended) [
          | inl e ↦ rw e (rest (min (delay * 2) max_backoff) s2)
          | inr e ↦ rw e (record { post = inl refl })
        ]

  after_attempt-Reason :
      (fuel : ℕ) (again : ℕ → Any (Connection W) Bool) (delay : ℕ) (outcome : Attempt)
      (s1 : Connection W)
      → Told outcome s1
      → ((later : ℕ) (s1 : Connection W) → Ensures Reason (λ _ _. Unit {0}) (again later s1))
      → Ensures Reason (λ _ _. Unit {0}) (after_attempt host fuel again delay outcome s1)
  unfolding after_attempt
  after_attempt-Reason fuel again delay connected s1 h rest = record { post = inr (inl h) }
  after_attempt-Reason fuel again delay rejected s1 h rest =
      retry-Reason fuel again max_backoff s1 rest
  after_attempt-Reason fuel again delay failed s1 h rest = retry-Reason fuel again delay s1 rest

  connect_from-Reason :
      (fuel delay : ℕ) (s : Connection W)
      → Ensures Reason (λ _ _. Unit {0}) (connect_from host fuel delay s)
  unfolding connect_from
  connect_from-Reason zero delay s = record { post = inl refl }
  connect_from-Reason (suc fuel) delay s =
      let s1 : Connection W = (s.0, (host.shutdown s.1).1) in
      elim (Bool-cases (host.shutdown s.1).0) [
        | inl e ↦ rw e (record { post = inr (inr (s.1, ap (λ b. (b, (host.shutdown s.1).1)) e)) })
        | inr e ↦ rw e (
            Ensures-continue (attempt host s1) _ (attempt-Told s1) λ outcome s2 accepted.
              after_attempt-Reason fuel (connect_from host fuel) delay outcome s2 accepted
                (connect_from-Reason fuel))
      ]

  pub connect_lem :
      (fuel : ℕ) (s : Connection W)
      → Ensures
          (λ ended s'. (ended ≡ false) ⊎ (IsAccepted s' ⊎ IsStopped s'))
          (λ _ _. Unit {0})
          (connect host fuel s)
  unfolding connect
  connect_lem fuel s = connect_from-Reason fuel (secs 1) s

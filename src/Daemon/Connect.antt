-- ===== src/Daemon/Connect.antt =====
-- rust-client/src/daemon.rs: the connection to the server, before the engine is built.
use obsidian_sync_engine.Base.{
  ℕ, zero, suc, ◌+◌, ◌*◌, Bool, true, false, if◌then◌else◌, ltb, min, ok, err, pure, ◌>>=◌, ◌>>◌,
  on_world, gets, update, catch, Result,
}
use obsidian_sync_engine.Error.{Error, Any, is_auth_rejected}
use obsidian_sync_engine.Settings.{Settings, save_credentials}
use obsidian_sync_engine.Http
use obsidian_sync_engine.Http.{HttpTransport, AuthOutcome, verified, enrolled}
use obsidian_sync_engine.Engine.State.{reading}
use obsidian_sync_engine.Daemon.Schedule.{millis, secs, max_backoff}
use obsidian_sync_engine.Daemon.Host.{Host}

-- `transport` and `settings`, which `connect` changes, beside the world.
abbrev pub Connection : Type 0 → Type 0
Connection W = (HttpTransport × Settings) × W

pub data Attempt : Type 0 where
  connected rejected failed : Attempt

module _ {W : Type 0} (host : Host W) where
  abbrev pub sleep : ℕ → Any W (Unit {0})
  sleep duration w = (ok tt, host.sleep duration w)

  -- The inner `while`, with fuel for its rounds; false where it is still running.
  unfoldable pub wait_until : ℕ → ℕ → Any W Bool
  wait_until zero wake = pure false
  wait_until (suc fuel) wake = do
    now ← reading host.now
    elim (ltb now wake) [
      | false ↦ pure true
      | true ↦ do
        stopped ← reading host.shutdown
        elim stopped [ true ↦ pure true | false ↦ do sleep (millis 200); wait_until fuel wake ]
    ]

  -- The arms of the `match` on `authenticate`.
  unfoldable pub settle : Result Error AuthOutcome → Any (Connection W) Attempt
  unfolding save_credentials Http.set_secret
  settle (ok verified) = pure connected
  settle (ok (enrolled client_name client_secret)) = do
    (http, settings) ← gets (λ c. c)
    saved ←
        on_world (save_credentials host.files host.object_codec client_name client_secret settings)
    update (λ c. (Http.set_secret client_secret http, saved))
    pure connected
  settle (err error) = pure (if is_auth_rejected error then rejected else failed)

  unfoldable pub attempt : Any (Connection W) Attempt
  unfolding settle Http.health Http.authenticate
  attempt = do
    (http, settings) ← gets (λ c. c)
    healthy ← on_world (reading (Http.health host.wire http))
    if healthy
        then (do
          result ← on_world (catch (Http.authenticate host.wire http settings.client_name))
          settle result)
        else pure failed

  -- The end of a round that did not connect: `again` is the next round, from its delay.
  unfoldable pub retry : ℕ → (ℕ → Any (Connection W) Bool) → ℕ → Any (Connection W) Bool
  unfolding wait_until
  retry fuel again delay = do
    now ← on_world (reading host.now)
    ended ← on_world (wait_until fuel (now + delay))
    elim ended [ true ↦ again (min (delay * 2) max_backoff) | false ↦ pure false ]

  -- What follows an attempt.
  unfoldable pub after_attempt :
      ℕ → (ℕ → Any (Connection W) Bool) → ℕ → Attempt → Any (Connection W) Bool
  unfolding retry
  after_attempt fuel again delay connected = pure true
  after_attempt fuel again delay rejected = retry fuel again max_backoff
  after_attempt fuel again delay failed = retry fuel again delay

  -- The outer `while` of `connect`, from the delay so far. Both loops have fuel for their rounds:
  -- false where one is still running.
  unfoldable pub connect_from : ℕ → ℕ → Any (Connection W) Bool
  unfolding attempt after_attempt
  connect_from zero delay = pure false
  connect_from (suc fuel) delay = do
    stopped ← on_world (reading host.shutdown)
    elim stopped [
      | true ↦ pure true
      | false ↦ do outcome ← attempt; after_attempt fuel (connect_from fuel) delay outcome
    ]

  unfoldable pub connect : ℕ → Any (Connection W) Bool
  unfolding connect_from
  connect fuel = connect_from fuel (secs 1)

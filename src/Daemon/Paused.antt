-- ===== src/Daemon/Paused.antt =====
-- rust-client/src/daemon.rs: while Obsidian runs, the client touches nothing.
use mathlib.Core.List.{List, [], ◌∷◌}
use obsidian_sync_engine.Base.{
  ℕ, zero, suc, ◌-◌, ◌≡◌, refl, ◌∙◌, Bool, true, false, min, Bool-cases, inl, inr, Result, ok, err,
  ◌>>=◌, on_world, for_each, Ensures, Ensures-continue,
}
use obsidian_sync_engine.Base.Preserves.{
  Preserves, Preserves-pure, Preserves-fail, Preserves-bind, Preserves-elim, Preserves-beside,
  Preserves-gets, Preserves-update,
}
use obsidian_sync_engine.Error.{Error}
use obsidian_sync_engine.Settings.{Settings}
use obsidian_sync_engine.Http.{HttpTransport}
use obsidian_sync_engine.Watcher.{FsEvent, changed, rescan}
use obsidian_sync_engine.Engine.State.{SyncEngine, State, reading}
use obsidian_sync_engine.Daemon.Schedule.{millis}
use obsidian_sync_engine.Daemon.Host.{Host, World, Received, event, timeout, disconnected}
use obsidian_sync_engine.Daemon.Turn.{
  Loop, Turn, note_change, request_rescan, on_host, instant, absorb, receive, wait_for_exit,
  pause_for_obsidian,
}
use obsidian_sync_engine.Daemon.MainLoop.{
  start_over, pause_step, sync_step, turn, turns, initial, without_loop, main_loop,
}

-- Obsidian runs, a shutdown that was asked for stays so, and the clock, the events, the flags and
-- the sleep leave a view of the world alone.
pub record IsPaused {W V : Type 0} (host : Host W) (view : W → V) : Type 0 where
  pub runs : (w : W) → (host.obsidian w).0 ≡ true
  pub sticky : (w : W) → (host.shutdown w).0 ≡ true → (host.shutdown (host.shutdown w).1).0 ≡ true
  pub on_obsidian : (w : W) → view (host.obsidian w).1 ≡ view w
  pub on_shutdown : (w : W) → view (host.shutdown w).1 ≡ view w
  pub on_now : (w : W) → view (host.now w).1 ≡ view w
  pub on_sleep : (duration : ℕ) (w : W) → view (host.sleep duration w) ≡ view w
  pub on_recv_timeout : (wait : ℕ) (w : W) → view (host.recv_timeout wait w).1 ≡ view w
  pub on_try_iter : (w : W) → view (host.try_iter w).1 ≡ view w

module _ {W V : Type 0} (host : Host W) (http : HttpTransport) (view : W → V)
    (P : IsPaused host view) (e : SyncEngine) (settings : Settings) (v : V) where
  -- The engine, the settings and the view are these.
  abbrev Untouched : State (World W) → Type 0
  Untouched (e', (settings', w)) = (e' ≡ e) × (settings' ≡ settings) × (view w ≡ v)

  abbrev Inv : Turn W → Type 0
  Inv s = Untouched s.1

  quiet :
      {A : Type 0} (f : W → A × W)
      → ((w : W) → view (f w).1 ≡ view w)
      → Preserves Untouched (on_host host http (reading f))
  quiet f same = record {
    preserved = λ (e', (settings', w)) i. record { post = (i.0, i.1, same w ∙ i.2) };
  }

  Preserves-instant : Preserves Inv (instant host http)
  Preserves-instant = Preserves-beside (quiet host.now P.on_now)

  Preserves-absorb : (event : FsEvent) → Preserves Inv (absorb host http event)
  unfolding absorb
  Preserves-absorb (changed path) =
      Preserves-bind Preserves-instant λ now. Preserves-update (note_change path now) (λ _ _ i. i)
  Preserves-absorb rescan = Preserves-update request_rescan (λ _ _ i. i)

  Preserves-absorb_all : (more : List FsEvent) → Preserves Inv (for_each more (absorb host http))
  unfolding for_each
  Preserves-absorb_all [] = Preserves-pure tt
  Preserves-absorb_all (e' ∷ more) =
      Preserves-bind (Preserves-absorb e') λ _. Preserves-absorb_all more

  Preserves-receive : (received : Received) → Preserves Inv (receive host http received)
  unfolding receive
  Preserves-receive (event e') = Preserves-bind (Preserves-absorb e') λ _.
      Preserves-bind (Preserves-beside (quiet host.try_iter P.on_try_iter))
        λ more. Preserves-absorb_all more
  Preserves-receive timeout = Preserves-pure tt
  Preserves-receive disconnected = Preserves-fail _

  -- The wait ends by the shutdown alone.
  wait_for_exit_lem :
      (fuel : ℕ) (s : State (World W))
      → Untouched s
      → Ensures
          (λ ended s'. Untouched s' × (ended ≡ true → (host.shutdown s'.1.1).0 ≡ true))
          (λ _ s'. Untouched s')
          (wait_for_exit host http fuel s)
  unfolding wait_for_exit
  wait_for_exit_lem zero s i = record { post = (i, λ h. cc) }
  wait_for_exit_lem (suc fuel) (e', (settings', w)) i =
      let w1 : W = (host.obsidian w).1 in
      let w2 : W = (host.shutdown w1).1 in
      let w3 : W = (host.try_iter (host.sleep (millis 500) w2)).1 in
      let same : view w2 ≡ view w = P.on_shutdown w1 ∙ P.on_obsidian w in
      rw (P.runs w) (elim (Bool-cases (host.shutdown w1).0) [
        | inl stopped ↦
            rw stopped (record { post = ((i.0, i.1, same ∙ i.2), λ _. P.sticky w1 stopped) })
        | inr going ↦ rw going (
            wait_for_exit_lem fuel (e', (settings', w3))
              (i.0, i.1, P.on_try_iter _ ∙ P.on_sleep (millis 500) w2 ∙ same ∙ i.2))
      ])

  Preserves-pause_for_obsidian :
      (fuel : ℕ) → Preserves Untouched (pause_for_obsidian host http fuel)
  unfolding pause_for_obsidian
  Preserves-pause_for_obsidian fuel = record {
    preserved = λ s i.
        Ensures-continue (wait_for_exit host http fuel s) _ (wait_for_exit_lem fuel s i)
          λ ended s1 q. elim (Bool-cases ended) [
            | inl e' ↦
                rw (e', q.1 e') (record { post = (q.0.0, q.0.1, P.on_shutdown s1.1.1 ∙ q.0.2) })
            | inr e' ↦ rw e' (record { post = q.0 })
          ];
  }

  Preserves-pause_step : (fuel : ℕ) → Preserves Inv (pause_step host http fuel)
  unfolding pause_step
  Preserves-pause_step fuel =
      Preserves-bind (Preserves-beside (Preserves-pause_for_obsidian fuel)) λ ended.
        Preserves-elim ended
          (Preserves-bind Preserves-instant λ now.
            Preserves-bind (Preserves-update (start_over now) (λ _ _ i. i))
              λ _. Preserves-pure true)
          (Preserves-pure false)

  Preserves-turn : (fuel : ℕ) → Preserves Inv (turn host http fuel)
  unfolding turn
  Preserves-turn fuel = Preserves-bind Preserves-instant λ now.
      Preserves-bind (Preserves-gets (λ (l : Loop). l)) λ l.
        Preserves-bind
          (Preserves-beside (
            quiet (host.recv_timeout (min (l.schedule.next - now) (millis 100)))
              (P.on_recv_timeout _)))
          λ received. Preserves-bind (Preserves-receive received) λ _. paused
    where
      paused : Preserves Inv {E = Error} (do
        running ← on_world (on_host host http (reading host.obsidian))
        elim running [ true ↦ pause_step host http fuel | false ↦ sync_step host http fuel ])
      paused = record {
        preserved = λ (l, (e', (settings', w))) i. rw (P.runs w) (
            (Preserves-pause_step fuel).preserved (l, (e', (settings', (host.obsidian w).1)))
              (i.0, i.1, P.on_obsidian w ∙ i.2));
      }

  Preserves-turns : (fuel : ℕ) → Preserves Inv (turns host http fuel)
  unfolding turns
  Preserves-turns zero = Preserves-pure false
  Preserves-turns (suc fuel) =
      Preserves-bind (Preserves-beside (quiet host.shutdown P.on_shutdown)) λ stopped.
        Preserves-elim stopped (Preserves-pure true) (
          Preserves-bind (Preserves-turn fuel)
            λ ended. Preserves-elim ended (Preserves-turns fuel) (Preserves-pure false))

  Untouched-without_loop :
      (r : Result Error Bool × Turn W)
      → Ensures (λ _ s'. Inv s') (λ _ s'. Inv s') r
      → Ensures (λ _ s'. Untouched s') (λ _ s'. Untouched s') (without_loop host http r)
  Untouched-without_loop (ok b, s) h = record { post = h.post }
  Untouched-without_loop (err error, s) h = record { post = h.post }

-- While Obsidian runs, the main loop, for however many rounds and whatever events come, leaves the
-- engine, the settings and every part of the world alone that the clock, the flags, the events and
-- the sleep do not change: it neither reconciles nor ticks, and it does not write a journal.
pub main_loop_paused :
    {W V : Type 0} (host : Host W) (http : HttpTransport) (view : W → V)
    → IsPaused host view
    → (fuel : ℕ) (e : SyncEngine) (settings : Settings) (w : W)
    → Ensures
        (λ _ s'. (s'.0 ≡ e) × (s'.1.0 ≡ settings) × (view s'.1.1 ≡ view w))
        (λ _ s'. (s'.0 ≡ e) × (s'.1.0 ≡ settings) × (view s'.1.1 ≡ view w))
        (main_loop host http fuel (e, (settings, w)))
unfolding main_loop
main_loop_paused {W} host http view P fuel e settings w =
    let w1 : W = (host.now w).1 in
    let w2 : W = (host.now w1).1 in
    Untouched-without_loop host http view P e settings (view w) _ (
      (Preserves-turns host http view P e settings (view w) fuel).preserved
        (initial host http (host.now w).0 (host.now w1).0, (e, (settings, w2)))
        (refl, refl, P.on_now w1 ∙ P.on_now w))

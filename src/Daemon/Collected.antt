-- ===== src/Daemon/Collected.antt =====
-- rust-client/src/daemon.rs: what the watcher reports is collected.
use mathlib.Core.List.{List, [], ◌∷◌}
use obsidian_sync_engine.Base.{
  ℕ, Text, ◌≡◌, refl, true, All, for_each, Ensures, Ensures-continue, Ensures-both, Ensures-weaken,
  arith,
}
use obsidian_sync_engine.Base.Tests.{nat_eq, list_eq, text_eq_refl}
use obsidian_sync_engine.Base.Set
use obsidian_sync_engine.Base.Preserves.{
  Preserves, Preserves-pure, Preserves-bind, Preserves-update, Preserves-on_world,
}
use obsidian_sync_engine.Http.{HttpTransport}
use obsidian_sync_engine.Watcher.{FsEvent, changed, rescan}
use obsidian_sync_engine.Engine.State.{SyncEngine, reading}
use obsidian_sync_engine.Settings.{Settings}
use obsidian_sync_engine.Daemon.Schedule
use obsidian_sync_engine.Daemon.Host.{Host, event}
use obsidian_sync_engine.Daemon.Turn.{
  Loop, Turn, note_change, request_rescan, on_host, absorb, receive,
}

-- What an event asks for is on the loop's list.
abbrev pub IsCollected : Loop → FsEvent → Type 0
IsCollected l (changed path) = Set.contains path l.dirty.paths ≡ true
IsCollected l rescan = l.rescan_requested ≡ true

IsCollected-note_change :
    (e : FsEvent) (p : Text) (now : ℕ) (l : Loop)
    → IsCollected l e
    → IsCollected (note_change p now l) e
unfolding Schedule.add
IsCollected-note_change (changed path) p now l h =
    ground (arith, Set.contains-insert p path l.dirty.paths)
IsCollected-note_change rescan p now l h = h

IsCollected-request_rescan :
    (e : FsEvent) (l : Loop) → IsCollected l e → IsCollected (request_rescan l) e
IsCollected-request_rescan (changed path) l h = h
IsCollected-request_rescan rescan l h = refl

module _ {W : Type 0} (host : Host W) (http : HttpTransport) where
  absorb-Preserves :
      (e e' : FsEvent) → Preserves (λ (s : Turn W). IsCollected s.0 e) (absorb host http e')
  unfolding absorb
  absorb-Preserves e (changed p) =
      Preserves-bind (Preserves-on_world (on_host host http (reading host.now)) (λ _ _ _ i. i))
        λ now. Preserves-update (note_change p now) (λ l _ i. IsCollected-note_change e p now l i)
  absorb-Preserves e rescan =
      Preserves-update request_rescan (λ l _ i. IsCollected-request_rescan e l i)

  absorb_all-Preserves :
      (e : FsEvent) (events : List FsEvent)
      → Preserves (λ (s : Turn W). IsCollected s.0 e) (for_each events (absorb host http))
  unfolding for_each
  absorb_all-Preserves e [] = Preserves-pure tt
  absorb_all-Preserves e (e' ∷ events) =
      Preserves-bind (absorb-Preserves e e') λ _. absorb_all-Preserves e events

  absorb-IsCollected :
      (e : FsEvent) (s : Turn W)
      → Ensures (λ _ s'. IsCollected s'.0 e) (λ _ _. Unit {0}) (absorb host http e s)
  unfolding absorb Schedule.add
  absorb-IsCollected (changed path) (l, (engine, (settings, w))) = record {
    post = rw (Set.contains-insert path path l.dirty.paths, text_eq_refl path) refl;
  }
  absorb-IsCollected rescan s = record { post = refl }

  IsCollected-too :
      (e : FsEvent) (events : List FsEvent) (s : Turn W)
      → IsCollected s.0 e
      → Ensures
          (λ _ s'. All (IsCollected s'.0) events)
          (λ _ _. Unit {0})
          (for_each events (absorb host http) s)
      → Ensures
          (λ _ s'. All (IsCollected s'.0) (e ∷ events))
          (λ _ _. Unit {0})
          (for_each events (absorb host http) s)
  IsCollected-too e events s first others =
      Ensures-both (for_each events (absorb host http) s)
        (Ensures-weaken (for_each events (absorb host http) s)
          ((absorb_all-Preserves e events).preserved s first) (λ _ _ q. q) (λ _ _ _. tt))
        others

  absorb-All-IsCollected :
      (events : List FsEvent) (s : Turn W)
      → Ensures
          (λ _ s'. All (IsCollected s'.0) events)
          (λ _ _. Unit {0})
          (for_each events (absorb host http) s)
  unfolding for_each
  absorb-All-IsCollected [] s = record { post = tt }
  absorb-All-IsCollected (e ∷ events) s =
      Ensures-continue (absorb host http e s) _ (absorb-IsCollected e s)
        λ _ s1 first. IsCollected-too e events s1 first (absorb-All-IsCollected events s1)

  -- The events that have come when an event has been absorbed; a path is noted with its time.
  abbrev pub since : FsEvent → W → List FsEvent
  since (changed path) w = (host.try_iter (host.now w).1).0
  since rescan w = (host.try_iter w).0

  pub receive_collects :
      (e : FsEvent) (l : Loop) (engine : SyncEngine) (settings : Settings) (w : W)
      → Ensures
          (λ _ s'. All (IsCollected s'.0) (e ∷ since e w))
          (λ _ _. Unit {0})
          (receive host http (event e) (l, (engine, (settings, w))))
  unfolding receive absorb
  receive_collects (changed path) l engine settings w =
      let s1 : Turn W = (
        note_change path (host.now w).0 l,
        (engine, (settings, (host.try_iter (host.now w).1).1)),
      ) in
      IsCollected-too (changed path) (since (changed path) w) s1
        (absorb-IsCollected (changed path) (l, (engine, (settings, w)))).post
        (absorb-All-IsCollected (since (changed path) w) s1)
  receive_collects rescan l engine settings w =
      let s1 : Turn W = (request_rescan l, (engine, (settings, (host.try_iter w).1))) in
      IsCollected-too rescan (since rescan w) s1 refl (absorb-All-IsCollected (since rescan w) s1)

-- ===== src/Daemon/Noticed.antt =====
-- rust-client/src/daemon.rs: a change that was noticed is not lost.
use mathlib.Core.List.{List, [], ◌∷◌}
use obsidian_sync_engine.Base.{
  subst, ℕ, ◌-◌, Bool, Text, ◌≡◌, refl, true, false, ◌||◌, min, leb, ◌==◌, Bool-cases, ◌⊎◌, inl,
  inr, ap, sym, ◌∙◌, Ensures-run, Result, ok, err, ◌>>=◌, on_world, catch, for_each, Ensures,
  Ensures-continue, Ensures-on_world, Ensures-catch, Ensures-weaken, Option, none, some, arith,
}
use obsidian_sync_engine.Base.Tests.{nat_eq, list_eq}
use obsidian_sync_engine.Base.Set
use obsidian_sync_engine.Base.Preserves.{
  Preserves, Preserves-pure, Preserves-fail, Preserves-bind, Preserves-if, Preserves-gets,
  Preserves-update, Preserves-on_world, anything,
}
use obsidian_sync_engine.Error.{Error, Any}
use obsidian_sync_engine.Http.{HttpTransport}
use obsidian_sync_engine.Watcher.{FsEvent, changed, rescan}
use obsidian_sync_engine.Engine.State.{SyncEngine, State, reading}
use obsidian_sync_engine.Settings.{Settings}
use obsidian_sync_engine.Engine.Reconcile
use obsidian_sync_engine.Engine.Tick.{TickResult}
use obsidian_sync_engine.Daemon.Collected.{receive_collects}
use obsidian_sync_engine.Daemon.Schedule
use obsidian_sync_engine.Daemon.Schedule.{millis, rescan_interval}
use obsidian_sync_engine.Daemon.Host.{Host, World, Received, event, timeout, disconnected}
use obsidian_sync_engine.Daemon.Turn.{
  Loop, Turn, note_change, request_rescan, env, on_host, instant, absorb, receive,
}
use obsidian_sync_engine.Daemon.MainLoop.{
  begin_rescan, local_change, take_dirty, logged, ended_tick, after_rescan, rescan_step,
  after_reconcile, reconcile_step, after_tick, ticked, tick_step, sync_step, pause_step, turn,
}

-- The path is collected for the next reconciliation.
abbrev pub IsDirty : Text → Loop → Type 0
IsDirty path l = Set.contains path l.dirty.paths ≡ true

module _ {W : Type 0} (host : Host W) (http : HttpTransport) (path : Text) where
  -- The part of a sync step from `s` to `s'` that hands the path to the engine: after the rescan,
  -- the collected paths, this one among them, were reconciled, which returned, and the tick
  -- followed.
  pub record Handed (fuel : ℕ) (s s' : Turn W) : Type 0 where
    pub now : ℕ
    pub clock : Turn W
    pub read : instant host http s ≡ (ok now, clock)
    pub loop : Loop
    pub before : State (World W)
    pub rescanned : rescan_step host http now clock ≡ (ok tt, (loop, before))
    pub among : IsDirty path loop
    pub queued : ℕ
    pub after : State (World W)
    pub returned :
        Reconcile.reconcile_paths (env host http) loop.dirty.paths before ≡ (ok queued, after)
    pub later : Turn W
    pub noted : after_reconcile host http now (ok queued) (take_dirty loop, after) ≡ (ok tt, later)
    pub go_on : Bool
    pub ended : tick_step host http fuel later ≡ (ok go_on, s')

  -- The path is collected, or everything is to be looked at, or this step has handed it over.
  abbrev pub IsNoticed : ℕ → Turn W → Turn W → Type 0
  IsNoticed fuel s s' = IsDirty path s'.0 ⊎ ((s'.0.rescan_requested ≡ true) ⊎ Handed fuel s s')

  abbrev Dirty : Turn W → Type 0
  Dirty s = IsDirty path s.0

  -- The path is collected, or everything is to be looked at.
  abbrev KeptIn : Loop → Type 0
  KeptIn l = IsDirty path l ⊎ (l.rescan_requested ≡ true)

  abbrev Kept : Turn W → Type 0
  Kept s = KeptIn s.0

  -- An action on the engine's state leaves the loop's variables.
  beside_loop :
      (Inv : Loop → Type 0) {A : Type 0} (m : Any (State (World W)) A)
      → Preserves (λ (s : Turn W). Inv s.0) (on_world m)
  beside_loop Inv m = Preserves-on_world m (λ l s s' i. i)

  IsDirty-note_change :
      (p : Text) (now : ℕ) (l : Loop) → IsDirty path l → IsDirty path (note_change p now l)
  unfolding Schedule.add
  IsDirty-note_change p now l h = ground (arith, Set.contains-insert p path l.dirty.paths)

  Dirty-absorb : (e : FsEvent) → Preserves Dirty (absorb host http e)
  unfolding absorb
  Dirty-absorb (changed p) =
      Preserves-bind (beside_loop (IsDirty path) (on_host host http (reading host.now)))
        λ now. Preserves-update (note_change p now) (λ l s i. IsDirty-note_change p now l i)
  Dirty-absorb rescan = Preserves-update request_rescan (λ l s i. i)

  Dirty-absorb_all : (more : List FsEvent) → Preserves Dirty (for_each more (absorb host http))
  unfolding for_each
  Dirty-absorb_all [] = Preserves-pure tt
  Dirty-absorb_all (e ∷ more) = Preserves-bind (Dirty-absorb e) λ _. Dirty-absorb_all more

  Dirty-after_rescan :
      (now : ℕ) (result : Result Error ℕ) → Preserves Dirty (after_rescan host http now result)
  unfolding after_rescan
  Dirty-after_rescan now (ok queued) =
      Preserves-if (queued == 0) (Preserves-pure tt)
        (Preserves-update (local_change now) (λ _ _ i. i))
  Dirty-after_rescan now (err e) = Preserves-pure tt

  Dirty-rescan_step : (now : ℕ) → Preserves Dirty (rescan_step host http now)
  unfolding rescan_step
  Dirty-rescan_step now = Preserves-bind (Preserves-gets (λ (l : Loop). l)) λ l.
      Preserves-if (l.rescan_requested || leb rescan_interval (now - l.last_rescan))
        (Preserves-bind (Preserves-update (begin_rescan now) (λ _ _ i. i)) λ _.
          Preserves-bind (beside_loop (IsDirty path) (catch (Reconcile.rescan (env host http))))
            λ result. Dirty-after_rescan now result)
        (Preserves-pure tt)

  Dirty-receive : (received : Received) → Preserves Dirty (receive host http received)
  unfolding receive
  Dirty-receive (event e) = Preserves-bind (Dirty-absorb e) λ _.
      Preserves-bind (beside_loop (IsDirty path) (on_host host http (reading host.try_iter)))
        λ more. Dirty-absorb_all more
  Dirty-receive timeout = Preserves-pure tt
  Dirty-receive disconnected = Preserves-fail _

  Kept-after_tick : (result : Option TickResult) → Preserves Kept (after_tick host http result)
  unfolding after_tick
  Kept-after_tick none = Preserves-pure false
  Kept-after_tick (some result) =
      Preserves-bind (Preserves-update (logged result) (λ _ _ i. i)) λ _.
        Preserves-bind (beside_loop KeptIn (on_host host http (reading host.now))) λ now.
          Preserves-bind (Preserves-update (ended_tick result now) (λ _ _ i. i))
            λ _. Preserves-pure true

  Kept-tick_step : (fuel : ℕ) → Preserves Kept (tick_step host http fuel)
  unfolding tick_step
  Kept-tick_step fuel =
      Preserves-bind (beside_loop KeptIn (on_host host http (reading host.now))) λ now.
        Preserves-bind (Preserves-gets (λ (l : Loop). l)) λ l.
          Preserves-if (Schedule.due now l.schedule)
            (Preserves-bind (beside_loop KeptIn (ticked host http fuel))
              λ result. Kept-after_tick result)
            (Preserves-pure true)

  -- What the reconciliation of a round leaves: the path is kept, or it was handed over.
  abbrev Given : ℕ → Loop → State (World W) → Turn W → Type 0
  Given now l before later =
      Kept later
      ⊎ ((queued : ℕ) × (after : State (World W)) × (Reconcile.reconcile_paths (env host http)
              l.dirty.paths before
            ≡ (ok queued, after))
          × (after_reconcile host http now (ok queued) (take_dirty l, after) ≡ (ok tt, later)))

  abbrev Returned : Loop → State (World W) → Result Error ℕ → Turn W → Type 0
  Returned l before (ok queued) s =
      (s.0 ≡ take_dirty l)
      × (Reconcile.reconcile_paths (env host http) l.dirty.paths before ≡ (ok queued, s.1))
  Returned l before (err e) s = Unit {0}

  after_reconcile-Given :
      (now : ℕ) (l : Loop) (before : State (World W)) (result : Result Error ℕ) (s : Turn W)
      → Returned l before result s
      → Ensures
          (λ _ later. Given now l before later)
          (λ _ _. Unit {0})
          (after_reconcile host http now result s)
  unfolding after_reconcile
  after_reconcile-Given now l before (ok queued) (l', after) (e, h) =
      Ensures-weaken (after_reconcile host http now (ok queued) (l', after))
        (Ensures-run (after_reconcile host http now (ok queued)) (l', after) (anything _))
        (λ _ later q. inr (
          queued,
          after,
          h,
          ap (λ k. after_reconcile host http now (ok queued) (k, after)) (sym e) ∙ q.1,
        ))
        (λ _ _ _. tt)
  after_reconcile-Given now l before (err e) s h = record { post = inl (inr refl) }

  reconcile_step-Given :
      (now : ℕ) (l : Loop) (before : State (World W))
      → IsDirty path l
      → Ensures
          (λ _ later. Given now l before later)
          (λ _ _. Unit {0})
          (reconcile_step host http now (l, before))
  unfolding reconcile_step Schedule.take
  reconcile_step-Given now l before i = elim (Bool-cases (Schedule.ready now l.dirty)) [
    | inl r ↦ rw r (
        Ensures-continue
          (on_world (catch (Reconcile.reconcile_paths (env host http) l.dirty.paths))
            (take_dirty l, before))
          _
          (Ensures-on_world (take_dirty l) {Q' = Returned l before}
            (catch (Reconcile.reconcile_paths (env host http) l.dirty.paths)) before
            (Ensures-catch {Q' = λ result s. Returned l before result (take_dirty l, s)}
              {R' = λ _ _. Unit {0}} (Reconcile.reconcile_paths (env host http) l.dirty.paths)
              before
              (Ensures-run (Reconcile.reconcile_paths (env host http) l.dirty.paths) before
                (anything _))
              (λ queued after q. (refl, q.1)) (λ _ _ _. tt))
            (λ _ _ q. q) (λ _ _ _. tt))
          λ result s1 q. after_reconcile-Given now l before result s1 q)
    | inr r ↦ rw r (record { post = inl (inl i) })
  ]

  -- What a sync step makes of a path that is collected.
  sync_step_keeps_change :
      (fuel : ℕ) (s : Turn W)
      → IsDirty path s.0
      → Ensures (λ _ s'. IsNoticed fuel s s') (λ _ _. Unit {0}) (sync_step host http fuel s)
  unfolding sync_step
  sync_step_keeps_change fuel (l, (e, (settings, w))) i =
      let now : ℕ = (host.now w).0 in
      let clock : Turn W = (l, (e, (settings, (host.now w).1))) in
      Ensures-continue (rescan_step host http now clock) _
        (Ensures-run (rescan_step host http now) clock (
          Ensures-weaken (rescan_step host http now clock)
            ((Dirty-rescan_step now).preserved clock i) (λ _ _ q. q) (λ _ _ _. tt)))
        λ _ (l1, before) (i1, rescanned).
          Ensures-continue (reconcile_step host http now (l1, before)) _
            (reconcile_step-Given now l1 before i1)
            λ _ later given. noticed now clock l1 before later refl rescanned i1 given
    where
      noticed :
          (now : ℕ) (clock : Turn W) (l1 : Loop) (before : State (World W)) (later : Turn W)
          → instant host http (l, (e, (settings, w))) ≡ (ok now, clock)
          → rescan_step host http now clock ≡ (ok tt, (l1, before))
          → IsDirty path l1
          → Given now l1 before later
          → Ensures
              (λ _ s'. IsNoticed fuel (l, (e, (settings, w))) s')
              (λ _ _. Unit {0})
              (tick_step host http fuel later)
      noticed now clock l1 before later read rescanned i1 (inl kept) =
          Ensures-weaken (tick_step host http fuel later)
            ((Kept-tick_step fuel).preserved later kept)
            (λ _ s' k. elim k [ inl d ↦ inl d | inr r ↦ inr (inl r) ]) (λ _ _ _. tt)
      noticed now clock l1 before later read rescanned i1 (inr (queued, after, returned, noted)) =
          Ensures-weaken (tick_step host http fuel later)
            (Ensures-run (tick_step host http fuel) later (anything _))
            (λ go_on s' q. inr (
              inr (record {
                now = now;
                clock = clock;
                read = read;
                loop = l1;
                before = before;
                rescanned = rescanned;
                among = i1;
                queued = queued;
                after = after;
                returned = returned;
                later = later;
                noted = noted;
                go_on = go_on;
                ended = q.1;
              })))
            (λ _ _ _. tt)

  -- The flag for Obsidian has been read.
  abbrev flag_read : Turn W → Turn W
  flag_read (l, (e, (settings, w))) = (l, (e, (settings, (host.obsidian w).1)))

  abbrev waited : Loop → W → Received × W
  waited l w =
      host.recv_timeout (min (l.schedule.next - (host.now w).0) (millis 100)) (host.now w).1

  -- The path is collected, or the watcher reports it to the round that now begins.
  abbrev pub IsComing : Loop → W → Type 0
  IsComing l w = IsDirty path l ⊎ ((waited l w).0 ≡ event (changed path))

  received-Dirty :
      (l : Loop) (e : SyncEngine) (settings : Settings) (w : W)
      → IsComing l w
      → Ensures
          (λ _ s'. Dirty s')
          (λ _ _. Unit {0})
          (receive host http (waited l w).0 (l, (e, (settings, (waited l w).1))))
  received-Dirty l e settings w (inl i) =
      Ensures-weaken (receive host http (waited l w).0 (l, (e, (settings, (waited l w).1))))
        ((Dirty-receive (waited l w).0).preserved (l, (e, (settings, (waited l w).1))) i)
        (λ _ _ q. q) (λ _ _ _. tt)
  received-Dirty l e settings w (inr h) =
      subst
        (λ r.
          Ensures (λ _ s'. Dirty s') (λ _ _. Unit {0})
            (receive host http r (l, (e, (settings, (waited l w).1)))))
        (sym h)
        (Ensures-weaken
          (receive host http (event (changed path)) (l, (e, (settings, (waited l w).1))))
          (receive_collects host http (changed path) l e settings (waited l w).1) (λ _ _ q. q.0)
          (λ _ _ _. tt))

  -- A round of the main loop has received what there was, with the path then collected, and its
  -- sync step, from there to the round's end `s'`, has kept the path.
  pub record KeepsChange (fuel : ℕ) (l : Loop) (e : SyncEngine) (settings : Settings) (w : W)
      (s' : Turn W) : Type 0 where
    pub start : Turn W
    pub received :
        receive host http (waited l w).0 (l, (e, (settings, (waited l w).1))) ≡ (ok tt, start)
    pub dirty : IsDirty path start.0
    pub noticed : IsNoticed fuel (flag_read start) s'

  module _ (idle : (w : W) → (host.obsidian w).0 ≡ false) where
    synced :
        (fuel : ℕ) (s : Turn W)
        → IsDirty path s.0
        → Ensures
            (λ _ s'. IsNoticed fuel (flag_read s) s')
            (λ _ _. Unit {0})
            ((do
              running ← on_world (on_host host http (reading host.obsidian))
              elim running [ true ↦ pause_step host http fuel | false ↦ sync_step host http fuel ])
              s)
    synced fuel (l, (e, (settings, w))) i =
        rw (idle w) (sync_step_keeps_change fuel (l, (e, (settings, (host.obsidian w).1))) i)

    -- Where Obsidian does not run, a round of the main loop keeps a path that is collected or that
    -- the watcher has just reported: where it returns, the path is collected, or a rescan is asked
    -- for, or the engine was given the path in this round, by a reconciliation that returned, whose
    -- tick then ended the round. A failed reconciliation is thus never the end of a change.
    pub turn-KeepsChange :
        (fuel : ℕ) (l : Loop) (e : SyncEngine) (settings : Settings) (w : W)
        → IsComing l w
        → Ensures
            (λ _ s'. KeepsChange fuel l e settings w s')
            (λ _ _. Unit {0})
            (turn host http fuel (l, (e, (settings, w))))
    unfolding turn
    turn-KeepsChange fuel l e settings w i =
        let r : Received × W = waited l w in
        let s : Turn W = (l, (e, (settings, r.1))) in
        Ensures-continue (receive host http r.0 s) _
          (Ensures-run (receive host http r.0) s (received-Dirty l e settings w i))
          λ _ start (dirty, received).
            Ensures-weaken _ (synced fuel start dirty)
              (λ _ s' noticed. record {
                start = start;
                received = received;
                dirty = dirty;
                noticed = noticed;
              })
              (λ _ _ _. tt)

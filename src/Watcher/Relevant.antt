-- ===== src/Watcher/Relevant.antt =====
-- rust-client/src/watcher.rs: what is sent for an event of the filesystem.
use obsidian_sync_engine.Base.{
  Text, ◌≡◌, ◌⊎◌, refl, ap, sym, Bool, true, false, ◌||◌, if◌then◌else◌, subst, Option, none, some,
  List, [], ◌∷◌, ◌++◌, is_empty, ok, arith, All, All-append, inl, inr,
}
use obsidian_sync_engine.Base.Tests.{nat_eq, list_eq, text_eq_iff, text_eq_refl}
use obsidian_sync_engine.Paths.{is_sync_excluded_path}
use obsidian_sync_engine.Watcher.{
  FsEvent, changed, rescan, Event, strip_prefix, to_str, visible, visible_in, relative_event_path,
  is_relevant, sent, send_paths, rescans, handle,
}

abbrev pub IsIn : {A : Type 0} → A → List A → Type 0
IsIn x [] = ⊥
IsIn x (y ∷ ys) = (x ≡ y) ⊎ IsIn x ys

IsIn-append : {A : Type 0} (x : A) (xs ys : List A) → IsIn x ys → IsIn x (xs ++ ys)
IsIn-append x [] ys h = h
IsIn-append x (y ∷ xs) ys h = inr (IsIn-append x xs ys h)

strip_prefix-append :
    (root relative : List Text) → strip_prefix root (root ++ relative) ≡ some relative
unfolding strip_prefix
strip_prefix-append [] relative = refl
strip_prefix-append (c ∷ root) relative = rw (text_eq_refl c, strip_prefix-append root relative)

append-strip_prefix :
    (root path relative : List Text)
    → strip_prefix root path ≡ some relative
    → path ≡ root ++ relative
unfolding strip_prefix
append-strip_prefix [] path relative h = cc
append-strip_prefix (c ∷ root) [] relative h = cc
append-strip_prefix (c ∷ root) (d ∷ path) relative h =
    ground (arith, text_eq_iff c d, append-strip_prefix root path relative)

-- A path that may be reported: it is inside the vault, and not the client's own.
abbrev pub IsVisible : Text → Type 0
IsVisible relative = (is_empty relative ≡ false) × (is_sync_excluded_path relative ≡ false)

All-mono :
    {A : Type 0} {P Q : A → Type 0} → ((x : A) → P x → Q x) → (xs : List A) → All P xs → All Q xs
All-mono f [] h = tt
All-mono f (x ∷ xs) (p, h) = (f x p, All-mono f xs h)

kept_cases :
    (a b : Bool) (q p : Text)
    → ◌≡◌ {A = Option Text} (if a || b then none else some q) (some p)
    → (a ≡ false) × (b ≡ false) × (q ≡ p)
kept_cases a b q p h = ground arith

module _ (root : List Text) where
  relative_event_path-append :
      (relative : List Text)
      → IsVisible (to_str relative)
      → relative_event_path root (some (root ++ relative)) ≡ some (to_str relative)
  unfolding relative_event_path
  relative_event_path-append relative (nonempty, included) =
      rw (strip_prefix-append root relative, nonempty, included)

  -- Where a reported path comes from.
  abbrev pub IsFrom : List (Option (List Text)) → Text → Type 0
  IsFrom paths p =
      IsVisible p
      × ((relative : List Text) × (to_str relative ≡ p) × IsIn (some (root ++ relative)) paths)

  -- A path comes from the event's paths, and a rescan from its flag.
  abbrev pub Comes : Bool → List (Option (List Text)) → FsEvent → Type 0
  Comes need_rescan paths (changed p) = IsFrom paths p
  Comes need_rescan paths rescan = need_rescan ≡ true

  Names : Option (List Text) → Text → Type 0
  Names path p =
      IsVisible p
      × ((relative : List Text) × (to_str relative ≡ p) × (path ≡ some (root ++ relative)))

  of_visible : (q p : Text) → visible q ≡ some p → (q ≡ p) × IsVisible p
  unfolding visible
  of_visible q p h =
      let (a, b, e) = kept_cases (is_empty q) (is_sync_excluded_path q) q p h in
      (e, subst IsVisible e (a, b))

  of_stripped :
      (path : List Text) (stripped : Option (List Text)) (p : Text)
      → strip_prefix root path ≡ stripped
      → visible_in stripped ≡ some p
      → Names (some path) p
  unfolding Names visible_in visible
  of_stripped path none p e h = cc
  of_stripped path (some relative) p e h =
      let v : (to_str relative ≡ p) × IsVisible p = of_visible (to_str relative) p h in
      (v.1, (relative, v.0, ap some (append-strip_prefix root path relative e)))

  of_path :
      (path : Option (List Text)) (p : Text) → relative_event_path root path ≡ some p → Names path p
  unfolding relative_event_path
  of_path none p h = cc
  of_path (some path) p h = of_stripped path (strip_prefix root path) p refl h

  module _ (need_rescan : Bool) where
    Comes-later :
        (path : Option (List Text)) (paths : List (Option (List Text))) (e : FsEvent)
        → Comes need_rescan paths e
        → Comes need_rescan (path ∷ paths) e
    Comes-later path paths (changed p) (v, (relative, e, h)) = (v, (relative, e, inr h))
    Comes-later path paths rescan h = h

    sent-Comes :
        (path : Option (List Text)) (paths : List (Option (List Text))) (o : Option Text)
        (later : List FsEvent)
        → relative_event_path root path ≡ o
        → All (Comes need_rescan (path ∷ paths)) later
        → All (Comes need_rescan (path ∷ paths)) (sent o later)
    unfolding Names
    sent-Comes path paths none later e h = h
    sent-Comes path paths (some p) later e h =
        let (v, (relative, q, here_path)) = of_path path p e in
        ((v, (relative, q, inl (sym here_path))), h)

    send_paths-Comes :
        (paths : List (Option (List Text))) → All (Comes need_rescan paths) (send_paths root paths)
    unfolding send_paths
    send_paths-Comes [] = tt
    send_paths-Comes (path ∷ paths) =
        sent-Comes path paths (relative_event_path root path) (send_paths root paths) refl
          (All-mono (Comes-later path paths) (send_paths root paths) (send_paths-Comes paths))

  sent-has :
      (o : Option Text) (e : FsEvent) (later : List FsEvent) → IsIn e later → IsIn e (sent o later)
  sent-has none e later h = h
  sent-has (some p) e later h = inr h

  send_paths-has :
      (paths : List (Option (List Text))) (relative : List Text)
      → IsIn (some (root ++ relative)) paths
      → IsVisible (to_str relative)
      → IsIn (changed (to_str relative)) (send_paths root paths)
  unfolding send_paths
  send_paths-has [] relative h v = elim h [ ]
  send_paths-has (path ∷ paths) relative (inl e) v =
      rw (← e, relative_event_path-append relative v) (inl refl)
  send_paths-has (path ∷ paths) relative (inr h) v =
      sent-has (relative_event_path root path) (changed (to_str relative)) (send_paths root paths)
        (send_paths-has paths relative h v)

  rescans-Comes : (b : Bool) (paths : List (Option (List Text))) → All (Comes b paths) (rescans b)
  rescans-Comes true paths = (refl, tt)
  rescans-Comes false paths = tt

  -- For an event, the main loop is told to rescan only where the event asks for it, and otherwise
  -- only of paths that the event names below the vault's folder and that are neither the folder
  -- itself nor the client's own state. An event that names only the client's own state, and does
  -- not ask for a rescan, thus tells it nothing.
  pub handle-Comes :
      (event : Event) → All (Comes event.need_rescan event.paths) (handle root (ok event))
  unfolding handle
  handle-Comes event =
      All-append (Comes event.need_rescan event.paths) (rescans event.need_rescan) _
        (rescans-Comes event.need_rescan event.paths)
        (elim (is_relevant event.kind)
          as (λ b.
            All (Comes event.need_rescan event.paths)
              (if b then send_paths root event.paths else [])) [
                | true ↦ send_paths-Comes event.need_rescan event.paths
                | false ↦ tt
              ])

  pub handle_complete :
      (event : Event) (relative : List Text)
      → is_relevant event.kind ≡ true
      → IsIn (some (root ++ relative)) event.paths
      → IsVisible (to_str relative)
      → IsIn (changed (to_str relative)) (handle root (ok event))
  unfolding handle
  handle_complete event relative relevant h v =
      IsIn-append _ (rescans event.need_rescan) _
        (rw relevant (send_paths-has event.paths relative h v))

-- ===== src/Daemon/Release.antt =====
-- rust-client/src/daemon.rs: which changed paths are released, and when.
use obsidian_sync_engine.Base.{
  ℕ, ◌-◌, Text, ◌≡◌, refl, ap, false, ◌||◌, some, List, [], ◌∷◌, leb, ◌==◌, any,
}
use obsidian_sync_engine.Base.Tests.{nat_eq, list_eq}
use obsidian_sync_engine.Base.Set
use obsidian_sync_engine.Daemon.Schedule.{
  DirtyPaths, clean, held, add, ready, take, event_quiet, event_max_hold,
}

-- The collection after these changes, the last one first.
abbrev pub collected : List (Text × ℕ) → DirtyPaths
collected [] = clean
collected ((path, now) ∷ earlier) = add path now (collected earlier)

-- The instant of the first change, of those that came before this one.
abbrev pub oldest : ℕ → List (Text × ℕ) → ℕ
oldest at [] = at
oldest at ((path, before) ∷ earlier) = oldest before earlier

first-collected :
    (path : Text) (at : ℕ) (earlier : List (Text × ℕ))
    → (collected ((path, at) ∷ earlier)).first ≡ some (oldest at earlier)
unfolding add
first-collected path at [] = refl
first-collected path at ((p, before) ∷ earlier) = rw (first-collected p before earlier)

contains-collected :
    (j : Text) (changes : List (Text × ℕ))
    → Set.contains j (collected changes).paths ≡ any (λ (c : Text × ℕ). c.0 == j) changes
unfolding add Set.contains
contains-collected j [] = refl
contains-collected j ((path, at) ∷ earlier) =
    rw (Set.contains-insert path j (collected earlier).paths, contains-collected j earlier)

ready-collected :
    (path : Text) (at : ℕ) (earlier : List (Text × ℕ)) (now : ℕ)
    → ready now (collected ((path, at) ∷ earlier))
      ≡ (leb event_quiet (now - at) || leb event_max_hold (now - oldest at earlier))
unfolding ready add
ready-collected path at earlier now =
    ap (λ first. held now first (some at)) (first-collected path at earlier)

-- The changes are released when none came for a quarter of a second, or three seconds after the
-- first of them, however many follow it. Exactly the changed paths are then handed on, and the
-- collection is empty again, which is never ready.
pub release_lem :
    (path : Text) (at : ℕ) (earlier : List (Text × ℕ)) (now : ℕ)
    → (ready now (collected ((path, at) ∷ earlier))
        ≡ (leb event_quiet (now - at) || leb event_max_hold (now - oldest at earlier)))
      × ((j : Text)
          → Set.contains j (take (collected ((path, at) ∷ earlier))).0
            ≡ any (λ (c : Text × ℕ). c.0 == j) ((path, at) ∷ earlier))
      × (ready now (take (collected ((path, at) ∷ earlier))).1 ≡ false)
unfolding ready take
release_lem path at earlier now =
    (ready-collected path at earlier now, λ j. contains-collected j ((path, at) ∷ earlier), refl)

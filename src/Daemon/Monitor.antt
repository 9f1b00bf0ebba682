-- ===== src/Daemon/Monitor.antt =====
-- rust-client/src/daemon.rs: the thread that watches for Obsidian, and how soon its flags follow.
-- What it reads, the flag `shutdown` and the entries of `/proc`, is an argument of each iteration.
use obsidian_sync_engine.Base.{
  ℕ, zero, suc, ◌+◌, ◌-◌, ◌%◌, ◌<◌, ◌≤◌, ◌≡◌, refl, Bool, ◌||◌, Option, none, some, List,
  if◌then◌else◌, ◌==◌, Bool-cases, inl, inr, arith,
}
use obsidian_sync_engine.Base.Tests.{nat_eq}
use obsidian_sync_engine.Guard.Process.{Entry, obsidian_running}

abbrev obsidian_poll_every : ℕ
obsidian_poll_every = 10

abbrev pub u32_mod : ℕ
u32_mod = 0x100000000

-- The variable `iteration`, a `u32`, and the flags that the thread stores.
pub record Monitor : Type 0 where
  pub iteration : ℕ
  pub obsidian : Bool
  pub suspended : Bool

-- The flag `obsidian` after the test in front of the loop's body.
unfoldable pub polled : Option ℕ → List Entry → Monitor → Bool
unfolding obsidian_running
polled none entries monitor = monitor.obsidian
polled (some uid) entries monitor =
    if monitor.iteration % obsidian_poll_every == 0
    then obsidian_running uid entries
    else monitor.obsidian

unfoldable pub iterate : Option ℕ → List Entry → Bool → Monitor → Monitor
unfolding polled
iterate obsidian_uid entries shutdown monitor =
    let obsidian = polled obsidian_uid entries monitor in
    record {
      iteration = (monitor.iteration + 1) % u32_mod;
      obsidian = obsidian;
      suspended = shutdown || obsidian;
    }

-- Some iterations that read the same.
pub iterations : ℕ → Option ℕ → List Entry → Bool → Monitor → Monitor
iterations zero obsidian_uid entries shutdown monitor = monitor
iterations (suc n) obsidian_uid entries shutdown monitor =
    iterations n obsidian_uid entries shutdown (iterate obsidian_uid entries shutdown monitor)

module _ (uid : ℕ) (entries : List Entry) (shutdown : Bool) where
  abbrev Follows : Monitor → Type 0
  Follows monitor =
      (monitor.obsidian ≡ obsidian_running uid entries)
      × (monitor.suspended ≡ (shutdown || obsidian_running uid entries))

  iterate-Follows :
      (monitor : Monitor)
      → monitor.obsidian ≡ obsidian_running uid entries
      → Follows (iterate (some uid) entries shutdown monitor)
  unfolding iterate
  iterate-Follows monitor h = elim (Bool-cases (monitor.iteration % obsidian_poll_every == 0)) [
    | inl e ↦ rw e (refl, refl)
    | inr e ↦ rw (e, h) (refl, refl)
  ]

  iterate-polls :
      (monitor : Monitor)
      → monitor.iteration % 10 ≡ 0
      → Follows (iterate (some uid) entries shutdown monitor)
  unfolding iterate
  iterate-polls monitor h = rw h (refl, refl)

  iterations-Follows :
      (n : ℕ) (monitor : Monitor)
      → Follows monitor
      → Follows (iterations n (some uid) entries shutdown monitor)
  unfolding iterations
  iterations-Follows zero monitor h = h
  iterations-Follows (suc n) monitor h = iterations-Follows n _ (iterate-Follows monitor h.0)

  -- The iterations to the next multiple of ten; a wrap of the counter only shortens them.
  iterations-reach :
      (n : ℕ) (monitor : Monitor)
      → monitor.iteration < u32_mod
      → (10 - monitor.iteration % 10) % 10 < n
      → Follows (iterations n (some uid) entries shutdown monitor)
  unfolding iterations iterate
  iterations-reach zero monitor small h = absurd (omega arith)
  iterations-reach (suc n) monitor small h = elim (Bool-cases (monitor.iteration % 10 == 0)) [
    | inl e ↦ iterations-Follows n _ (iterate-polls monitor (ground arith))
    | inr e ↦
        iterations-reach n (iterate (some uid) entries shutdown monitor) (advances.0)
          (advances.1 (ground arith))
  ]
    where
      advances :
          ((monitor.iteration + 1) % u32_mod < u32_mod)
          × (0 < monitor.iteration % 10 → (10 - (monitor.iteration + 1) % u32_mod % 10) % 10 < n)
      advances = (omega arith, λ p. omega arith)

  -- After ten iterations or more that find the same, so in a second, both flags are what was found:
  -- the one for Obsidian is set exactly if it runs, and the engine is suspended exactly if it runs
  -- or the shutdown is asked for. This is so wherever the counter stands, also where it wraps.
  pub monitor_follows :
      (n : ℕ) (monitor : Monitor)
      → 10 ≤ n
      → monitor.iteration < u32_mod
      → ((iterations n (some uid) entries shutdown monitor).obsidian ≡ obsidian_running uid entries)
        × ((iterations n (some uid) entries shutdown monitor).suspended
            ≡ (shutdown || obsidian_running uid entries))
  monitor_follows n monitor h small = iterations-reach n monitor small (omega arith)

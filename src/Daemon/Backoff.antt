-- ===== src/Daemon/Backoff.antt =====
-- rust-client/src/daemon.rs: how long the client waits after failures, and that a tick comes.
use native.Mathlib.Nat.{pow-suc}
use native.Mathlib.Decide.{dec_lt}
use obsidian_sync_engine.Base.{
  ℕ, zero, suc, ◌+◌, ◌-◌, ◌*◌, ◌^◌, ◌≤◌, ◌<◌, ◌≡◌, refl, sym, ap, ◌∙◌, Bool, true, false, List, [],
  ◌∷◌, length, arith, min, if◌then◌else◌, ◌==◌, Bool-cases, inl, inr,
}
use obsidian_sync_engine.Base.Tests.{nat_eq}
use obsidian_sync_engine.Daemon.Schedule.{
  TickSchedule, new, due, local_change, factor, completed, one_more, tick_interval, max_backoff,
  u32_max,
}

sixteen-le-pow : (n : ℕ) → 16 ≤ 2 ^ (n + 4)
sixteen-le-pow zero = omega arith
sixteen-le-pow (suc n) =
    let e : suc n + 4 ≡ suc (n + 4) = omega arith in
    rw (e, pow-suc 2 (n + 4)) (omega (arith, sixteen-le-pow n))

min_large : (a b : ℕ) → b ≤ a → min a b ≡ b
min_large a b h = ground arith

min_small : (a b : ℕ) → a ≤ b → min a b ≡ a
min_small a b h = ground arith

-- Past the fourth doubling the wait is the longest one, whatever the factor is.
capped : (n : ℕ) → 4 ≤ n → min (tick_interval * 2 ^ n) max_backoff ≡ max_backoff
capped n h =
    let e : n ≡ n - 4 + 4 = omega arith in
    min_large (tick_interval * 2 ^ n) max_backoff (rw e (omega (arith, sixteen-le-pow (n - 4))))

factor_small : (f : ℕ) → f < 4 → factor (one_more f) ≡ 2 ^ f
unfolding factor
factor_small zero h = refl
factor_small (suc zero) h = refl
factor_small (suc (suc zero)) h = refl
factor_small (suc (suc (suc zero))) h = refl
factor_small (suc (suc (suc (suc f)))) h = absurd (omega arith)

factor_large : (f : ℕ) → 4 ≤ f → min (tick_interval * factor (one_more f)) max_backoff ≡ max_backoff
unfolding factor
factor_large f h = capped (min (one_more f - 1) 6) (ground arith)

-- The wait after a failure: the interval, doubled for each failure in front of it.
failed_wait :
    (f : ℕ)
    → min (tick_interval * factor (one_more f)) max_backoff
      ≡ min (tick_interval * 2 ^ f) max_backoff
failed_wait f = elim (dec_lt f 4) [
  | yes h ↦ rw (factor_small f h)
  | no h ↦ factor_large f (omega arith) ∙ sym (capped f (omega arith))
]

-- The schedule after failures at these instants, the last one first.
abbrev pub after_failures : TickSchedule → List ℕ → TickSchedule
after_failures schedule [] = schedule
after_failures schedule (now ∷ earlier) = completed false now (after_failures schedule earlier)

failures-after_failures :
    (schedule : TickSchedule) (nows : List ℕ)
    → schedule.failures ≡ 0
    → (after_failures schedule nows).failures ≡ min (length nows) u32_max
unfolding completed
failures-after_failures schedule [] h = ground arith
failures-after_failures schedule (now ∷ nows) h =
    ground (arith, failures-after_failures schedule nows h)

saturated :
    (n : ℕ)
    → min (tick_interval * 2 ^ min n u32_max) max_backoff ≡ min (tick_interval * 2 ^ n) max_backoff
saturated n = elim (dec_lt n 4) [
  | yes h ↦ rw (min_small n u32_max (omega arith))
  | no h ↦ capped (min n u32_max) (ground arith) ∙ sym (capped n (omega arith))
]

-- From a schedule without failures, the wait after a failure that any number of failures precede
-- is the interval of three seconds doubled for each of them, or thirty seconds where that is more:
-- neither the bound on the exponent nor the saturation of the count changes it.
pub completed_backoff :
    (schedule : TickSchedule) (earlier : List ℕ) (now : ℕ)
    → schedule.failures ≡ 0
    → (completed false now (after_failures schedule earlier)).next
      ≡ now + min (tick_interval * 2 ^ length earlier) max_backoff
unfolding completed
completed_backoff schedule earlier now h =
    let f : ℕ = (after_failures schedule earlier).failures in
    ap (λ wait. now + wait)
      (failed_wait f
        ∙ ap (λ n. min (tick_interval * 2 ^ n) max_backoff)
            (failures-after_failures schedule earlier h)
        ∙ saturated (length earlier))

-- The schedules that the main loop can have, at the instant of its last call of the schedule. The
-- clock does not run backwards, and only a tick that is due is run and completed.
pub data Reach : ℕ → TickSchedule → Type 0 where
  started : (now : ℕ) → Reach now (new now)
  changed :
      {before : ℕ} {schedule : TickSchedule}
      → Reach before schedule
      → (now : ℕ) → before ≤ now
      → Reach now (local_change now schedule)
  ticked :
      {before : ℕ} {schedule : TickSchedule}
      → Reach before schedule
      → (began now : ℕ) → before ≤ began
      → began ≤ now
      → due began schedule ≡ true
      → (ok : Bool) → Reach now (completed ok now schedule)

record IsPrompt (now : ℕ) (schedule : TickSchedule) : Type 0 where
  within : schedule.next ≤ now + max_backoff
  quiet : schedule.failures ≡ 0 → schedule.next ≤ now + tick_interval
  counted : schedule.failures ≤ u32_max

Reach-IsPrompt : {now : ℕ} {schedule : TickSchedule} → Reach now schedule → IsPrompt now schedule
unfolding new local_change completed
Reach-IsPrompt (started now) = record {
  within = omega arith;
  quiet = λ _. omega arith;
  counted = omega arith;
}
Reach-IsPrompt (changed {before} {schedule} r now later) =
    let p : IsPrompt before schedule = Reach-IsPrompt r in
    record {
      within = ground (arith, p.within);
      quiet = λ h. ground (arith, p.quiet);
      counted = ground (arith, p.counted);
    }
Reach-IsPrompt (ticked {before} {schedule} r began now a b d true) = record {
  within = omega arith;
  quiet = λ _. omega arith;
  counted = omega arith;
}
Reach-IsPrompt (ticked {before} {schedule} r began now a b d false) =
    let p : IsPrompt before schedule = Reach-IsPrompt r in
    record { within = ground arith; quiet = λ h. ground arith; counted = ground arith }

-- From every schedule that the main loop can have, a tick is due thirty seconds after the last
-- change or tick at the latest, and three seconds after it where the last tick did not fail.
pub Reach-due :
    {now : ℕ} {schedule : TickSchedule}
    → Reach now schedule
    → (due (now + (if schedule.failures == 0 then tick_interval else max_backoff)) schedule ≡ true)
      × (schedule.failures ≤ u32_max)
unfolding due
Reach-due {now} {schedule} r =
    let p : IsPrompt now schedule = Reach-IsPrompt r in
    (
      elim (Bool-cases (schedule.failures == 0)) [
        | inl e ↦ rw e (ground (arith, p.quiet (ground arith)))
        | inr e ↦ rw e (ground (arith, p.within))
      ],
      p.counted,
    )

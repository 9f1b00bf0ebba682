-- ===== src/Guard.antt =====
-- rust-client/src/guard.rs: the mass-push guard. An `Instant` is a number of nanoseconds, and a
-- `VecDeque` a list whose front is its head.
pub mod Window
pub mod Process
use obsidian_sync_engine.Base.{
  ℕ, ◌+◌, ◌-◌, ◌*◌, Bool, true, false, ◌||◌, Option, none, some, List, [], ◌∷◌, ◌++◌, ltb,
  if◌then◌else◌, ◌==◌, length, filter,
}
use obsidian_sync_engine.Op.{OpKind, delete, op_eq}

abbrev pub default_max_deletes : ℕ
default_max_deletes = 50

abbrev pub default_max_puts : ℕ
default_max_puts = 300

abbrev pub window : ℕ
window = 10 * 60 * 1_000_000_000

pub record Tripped : Type 0 where
  pub deletes : ℕ
  pub puts : ℕ

pub record MassPushGuard : Type 0 where
  pub max_deletes : ℕ
  pub max_puts : ℕ
  pub recent : List (ℕ × OpKind)
  pub approved : Bool

unfoldable pub new : ℕ → ℕ → MassPushGuard
new max_deletes max_puts = record {
  max_deletes = max_deletes;
  max_puts = max_puts;
  recent = [];
  approved = false;
}

-- The `while let` of `check`. `duration_since` is 0 where `at` is the later one.
unfoldable pub drop_expired : ℕ → List (ℕ × OpKind) → List (ℕ × OpKind)
drop_expired now [] = []
drop_expired now ((at, kind) ∷ recent) =
    let later = drop_expired now recent in
    if ltb window (now - at) then later else (at, kind) ∷ recent

abbrev pub is_delete : ℕ × OpKind → Bool
is_delete (at, kind) = kind == delete

-- The part of `check` behind the loop.
unfoldable pub verdict : MassPushGuard → ℕ → ℕ → Option Tripped
verdict g pending_deletes pending_puts =
    if g.approved
    then none
    else let recent_deletes = length (filter is_delete g.recent) in
      let recent_puts = length g.recent - recent_deletes in
      let deletes = pending_deletes + recent_deletes in
      let puts = pending_puts + recent_puts in
      if ltb g.max_deletes deletes || ltb g.max_puts puts
      then some (record { deletes = deletes; puts = puts })
      else none

unfoldable pub check : MassPushGuard → ℕ → ℕ → ℕ → Option Tripped × MassPushGuard
unfolding drop_expired verdict
check g pending_deletes pending_puts now =
    let g' : MassPushGuard = record g { recent = drop_expired now g.recent } in
    (verdict g' pending_deletes pending_puts, g')

unfoldable pub record_pushed : MassPushGuard → OpKind → ℕ → MassPushGuard
record_pushed g kind now = record g { recent = g.recent ++ ((now, kind) ∷ []) }

unfoldable pub approve : MassPushGuard → MassPushGuard
approve g = record g { approved = true }

unfoldable pub outbox_emptied : MassPushGuard → MassPushGuard
outbox_emptied g = if g.approved then record g { approved = false; recent = [] } else g

-- ===== src/Guard/Window.antt =====
-- rust-client/src/guard.rs: what the guard lets through.
use obsidian_sync_engine.Base.{
  ℕ, ◌+◌, ◌-◌, ◌≤◌, ◌≡◌, refl, ap, ◌∙◌, Bool, false, not, none, List, [], ◌∷◌, ◌++◌, append-nil,
  append_assoc, arith, ltb, length, filter, filter-append, length-append, length-filter-le,
}
use obsidian_sync_engine.Op.{OpKind, op_eq}
use obsidian_sync_engine.Guard.{
  window, MassPushGuard, is_delete, drop_expired, verdict, check, record_pushed,
}

-- Pushes stand in order of their times, from a time on.
abbrev pub AscendsFrom : ℕ → List (ℕ × OpKind) → Type 0
AscendsFrom t [] = Unit
AscendsFrom t ((at, kind) ∷ recent) = (t ≤ at) × AscendsFrom at recent

abbrev pub is_recent : ℕ → ℕ × OpKind → Bool
is_recent now (at, kind) = not (ltb window (now - at))

all_recent :
    (now t : ℕ) (recent : List (ℕ × OpKind))
    → now ≤ t + window
    → AscendsFrom t recent
    → filter (is_recent now) recent ≡ recent
all_recent now t [] h k = refl
all_recent now t ((at, kind) ∷ recent) h (le, up) = ground (arith, all_recent now at recent)

-- On pushes in order of their times, dropping from the front until one is inside the window is to
-- keep those inside the window.
pub drop_expired-eq-filter :
    (now t : ℕ) (recent : List (ℕ × OpKind))
    → AscendsFrom t recent
    → drop_expired now recent ≡ filter (is_recent now) recent
unfolding drop_expired
drop_expired-eq-filter now t [] h = refl
drop_expired-eq-filter now t ((at, kind) ∷ recent) (le, up) =
    ground (arith, drop_expired-eq-filter now at recent, all_recent now at recent)

abbrev pub deletes_in : List (ℕ × OpKind) → ℕ
deletes_in recent = length (filter is_delete recent)

abbrev pub puts_in : List (ℕ × OpKind) → ℕ
puts_in recent = length recent - deletes_in recent

-- The pushes of a batch, recorded one by one.
abbrev pub record_all : MassPushGuard → List (ℕ × OpKind) → MassPushGuard
record_all g [] = g
record_all g ((at, kind) ∷ pushed) = record_all (record_pushed g kind at) pushed

record_all-recent :
    (g : MassPushGuard) (pushed : List (ℕ × OpKind))
    → record_all g pushed ≡ record g { recent = g.recent ++ pushed }
unfolding record_pushed
record_all-recent g [] = rw append-nil
record_all-recent g ((at, kind) ∷ pushed) =
    record_all-recent (record_pushed g kind at) pushed ∙ rw append_assoc

deletes_in-append :
    (xs ys : List (ℕ × OpKind)) → deletes_in (xs ++ ys) ≡ deletes_in xs + deletes_in ys
deletes_in-append xs ys =
    ap length (filter-append is_delete xs ys)
    ∙ length-append (filter is_delete xs) (filter is_delete ys)

puts_in-append : (xs ys : List (ℕ × OpKind)) → puts_in (xs ++ ys) ≡ puts_in xs + puts_in ys
puts_in-append xs ys = omega (
  arith,
  deletes_in-append xs ys,
  length-append xs ys,
  length-filter-le is_delete xs,
  length-filter-le is_delete ys,
)

-- The guard limits what has really been pushed. Where it remembers the pushes of a history in
-- order of their times, and lets a batch through unapproved, then after the batch's pushes, each
-- recorded, it remembers those of the history inside the window and the batch, none else and none
-- missing; and of these there are at most `max_deletes` deletes and `max_puts` puts.
pub check-IsWithin :
    (g : MassPushGuard) (history pushed : List (ℕ × OpKind)) (t now : ℕ)
    → AscendsFrom t history
    → g.recent ≡ history
    → g.approved ≡ false
    → (check g (deletes_in pushed) (puts_in pushed) now).0 ≡ none
    → ((record_all (check g (deletes_in pushed) (puts_in pushed) now).1 pushed).recent
        ≡ filter (is_recent now) history ++ pushed)
      × (deletes_in (filter (is_recent now) history ++ pushed) ≤ g.max_deletes)
      × (puts_in (filter (is_recent now) history ++ pushed) ≤ g.max_puts)
unfolding check verdict
check-IsWithin g history pushed t now up remembered h passed =
    let kept : drop_expired now g.recent ≡ filter (is_recent now) history =
      rw remembered (drop_expired-eq-filter now t history up) in
    (
      ap (λ (g : MassPushGuard). g.recent) (record_all-recent _ pushed)
          ∙ ap (λ l. l ++ pushed) kept,
      rw (← kept) (ground (arith, deletes_in-append (drop_expired now g.recent) pushed)),
      rw (← kept) (ground (arith, puts_in-append (drop_expired now g.recent) pushed)),
    )

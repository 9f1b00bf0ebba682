-- ===== src/Inbox/Effects.antt =====
-- rust-client/src/inbox.rs: what lines of the inbox do to the vault and to the revision.
use obsidian_sync_engine.Base.{
  ℕ, Text, ◌≡◌, Bool, true, false, List, [], ◌∷◌, ◌++◌, leb, if◌then◌else◌,
}
use obsidian_sync_engine.Op.{OpKind, InboxOp}

abbrev pub Effect : Type 0
Effect = OpKind × Text

module _ (skip : InboxOp → Bool) where
  abbrev pub effect_of : InboxOp → List Effect
  effect_of line = if skip line then [] else (line.op, line.path) ∷ []

  -- What the lines do to the vault, from a revision on: a line that the revision covers does
  -- nothing.
  abbrev pub effects : ℕ → List InboxOp → List Effect
  effects current [] = []
  effects current (line ∷ lines) =
      let later = effects line.rev lines in
      let same = effects current lines in
      if leb line.rev current then same else effect_of line ++ later

-- The revision that the lines reach.
abbrev pub reached : ℕ → List InboxOp → ℕ
reached current [] = current
reached current (line ∷ lines) =
    let later = reached line.rev lines in
    let same = reached current lines in if leb line.rev current then same else later

module _ (skip : InboxOp → Bool) (line : InboxOp) (rest : List InboxOp) (current : ℕ) where
  pub adds_nothing :
      leb line.rev current ≡ true
      → (done : List InboxOp) → effects skip current (line ∷ done) ≡ [] ++ effects skip current done
  adds_nothing e done = rw e

  pub stays :
      leb line.rev current ≡ true
      → (done : List InboxOp) → reached current (line ∷ done) ≡ reached current done
  stays e done = rw e

  pub adds_effect :
      leb line.rev current ≡ false
      → (done : List InboxOp)
      → effects skip current (line ∷ done) ≡ effect_of skip line ++ effects skip line.rev done
  adds_effect e done = rw e

  pub advances :
      leb line.rev current ≡ false
      → (done : List InboxOp) → reached current (line ∷ done) ≡ reached line.rev done
  advances e done = rw e

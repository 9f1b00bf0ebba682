-- ===== src/Outbox/Coalesce.antt =====
-- rust-client/src/outbox.rs: what `coalesce` keeps.
use obsidian_sync_engine.Base.{
  Text, ◌≡◌, refl, ap, ◌∙◌, sym, false, Option, none, some, List, [], ◌∷◌, ◌++◌, append_assoc,
  append-nil, arith, if◌then◌else◌, ◌==◌,
}
use obsidian_sync_engine.Base.Tests.{nat_eq, list_eq, text_eq_iff}
use obsidian_sync_engine.Outbox.{OutboxOp, supersedes, push_coalesced, coalesce_onto, coalesce}

abbrev or_later : Option OutboxOp → Option OutboxOp → Option OutboxOp
or_later none earlier = earlier
or_later (some op) earlier = some op

-- The newest operation on a path.
abbrev pub newest : Text → List OutboxOp → Option OutboxOp
newest p [] = none
newest p (op ∷ ops) = or_later (newest p ops) (if op.path == p then some op else none)

-- No put stands directly behind a put of the same path.
abbrev pub HasNoRepeat : List OutboxOp → Type 0
HasNoRepeat [] = Unit
HasNoRepeat (op ∷ []) = Unit
HasNoRepeat (op ∷ next ∷ ops) = (supersedes op next ≡ false) × HasNoRepeat (next ∷ ops)

newest-push_coalesced :
    (p : Text) (result : List OutboxOp) (op : OutboxOp)
    → newest p (push_coalesced result op) ≡ newest p (result ++ (op ∷ []))
unfolding push_coalesced
newest-push_coalesced p [] op = refl
newest-push_coalesced p (last ∷ []) op =
    ground (arith, text_eq_iff last.path op.path, text_eq_iff last.path p, text_eq_iff op.path p)
newest-push_coalesced p (a ∷ b ∷ result) op =
    ap (λ o. or_later o (if a.path == p then some a else none))
      (newest-push_coalesced p (b ∷ result) op)

newest-append :
    (p : Text) (xs ys : List OutboxOp) → newest p (xs ++ ys) ≡ or_later (newest p ys) (newest p xs)
newest-append p [] ys = ground arith
newest-append p (x ∷ xs) ys = ground (arith, newest-append p xs ys)

newest-coalesce_onto :
    (p : Text) (result ops : List OutboxOp)
    → newest p (coalesce_onto result ops) ≡ newest p (result ++ ops)
unfolding coalesce_onto
newest-coalesce_onto p result [] = rw append-nil
newest-coalesce_onto p result (op ∷ ops) =
    newest-coalesce_onto p (push_coalesced result op) ops
    ∙ newest-append p (push_coalesced result op) ops
    ∙ ap (or_later (newest p ops)) (newest-push_coalesced p result op)
    ∙ sym (newest-append p (result ++ (op ∷ [])) ops)
    ∙ ap (newest p) (append_assoc result (op ∷ []) ops)

HasNoRepeat-push_coalesced :
    (result : List OutboxOp) (op : OutboxOp)
    → HasNoRepeat result
    → HasNoRepeat (push_coalesced result op)
unfolding push_coalesced
HasNoRepeat-push_coalesced [] op h = tt
HasNoRepeat-push_coalesced (last ∷ []) op h = ground (arith, text_eq_iff last.path op.path)
HasNoRepeat-push_coalesced (a ∷ last ∷ []) op (e, h) =
    ground (
      arith,
      text_eq_iff last.path op.path,
      text_eq_iff a.path op.path,
      text_eq_iff a.path last.path,
    )
HasNoRepeat-push_coalesced (a ∷ b ∷ c ∷ result) op (e, h) =
    (e, HasNoRepeat-push_coalesced (b ∷ c ∷ result) op h)

HasNoRepeat-coalesce_onto :
    (result ops : List OutboxOp) → HasNoRepeat result → HasNoRepeat (coalesce_onto result ops)
unfolding coalesce_onto
HasNoRepeat-coalesce_onto result [] h = h
HasNoRepeat-coalesce_onto result (op ∷ ops) h =
    HasNoRepeat-coalesce_onto (push_coalesced result op) ops
      (HasNoRepeat-push_coalesced result op h)

push_coalesced-eq-append :
    (result : List OutboxOp) (op : OutboxOp) (ops : List OutboxOp)
    → HasNoRepeat (result ++ (op ∷ ops))
    → push_coalesced result op ≡ result ++ (op ∷ [])
unfolding push_coalesced
push_coalesced-eq-append [] op ops h = refl
push_coalesced-eq-append (last ∷ []) op ops (e, h) = rw e
push_coalesced-eq-append (a ∷ b ∷ result) op ops (e, h) =
    ap (◌∷◌ a) (push_coalesced-eq-append (b ∷ result) op ops h)

coalesce_onto-eq-append :
    (result ops : List OutboxOp)
    → HasNoRepeat (result ++ ops)
    → coalesce_onto result ops ≡ result ++ ops
unfolding coalesce_onto
coalesce_onto-eq-append result [] h = rw append-nil
coalesce_onto-eq-append result (op ∷ ops) h = rw (push_coalesced-eq-append result op ops h) (
    coalesce_onto-eq-append (result ++ (op ∷ [])) ops (rw append_assoc h)
    ∙ append_assoc result (op ∷ []) ops)

-- The coalesced outbox has the newest operation of every path, holds no put directly behind a put
-- of the same path, and is not changed by coalescing it again.
pub coalesce_keeps_newest :
    (ops : List OutboxOp)
    → ((p : Text) → newest p (coalesce ops) ≡ newest p ops)
      × HasNoRepeat (coalesce ops)
      × (coalesce (coalesce ops) ≡ coalesce ops)
unfolding coalesce
coalesce_keeps_newest ops =
    let plain = HasNoRepeat-coalesce_onto [] ops tt in
    (
      λ p. newest-coalesce_onto p [] ops,
      plain,
      coalesce_onto-eq-append [] (coalesce_onto [] ops) plain,
    )

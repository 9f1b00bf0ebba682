-- ===== src/Inbox/Settle.antt =====
-- rust-client/src/inbox.rs: what `settle` has done with a line when it returns or fails.
use obsidian_sync_engine.Base.{
  ℕ, Text, ◌≡◌, refl, sym, ap, ◌∙◌, ◌⊎◌, inl, inr, Bool, true, false, Option, List, [], ◌∷◌, ◌++◌,
  append-nil, if◌then◌else◌, Ensures, Ensures-continue, Ensures-weaken, pure,
}
use obsidian_sync_engine.Op.{OpKind, put, delete, InboxOp}
use obsidian_sync_engine.Inbox.{InboxHandler, apply_op, settle}
use obsidian_sync_engine.Inbox.Effects.{Effect, effect_of}
use obsidian_sync_engine.Inbox.Outcome.{Kept, IsHandler}

module _ {S : Type 0} (render : InboxOp → Text) (path : Text) (content : S → Text → Option Text)
    (progress : S → ℕ × List Effect) (skip : InboxOp → Bool) (handler : InboxHandler S)
    (K : IsHandler render path content progress skip handler) where
  apply_kind_lem :
      (kind : OpKind) (p : Text) (s : S)
      → Ensures
          (λ _ s'.
            (content s' path ≡ content s path)
            × (progress s' ≡ ((progress s).0, (progress s).1 ++ ((kind, p) ∷ []))))
          (λ _ s'. Kept render path content progress skip s s')
          (apply_op handler (record { rev = 0; op = kind; path = p }) s)
  apply_kind_lem put p s = K.on_put p s
  apply_kind_lem delete p s = K.on_delete p s

  apply_unless_skipped :
      (b : Bool) (line : InboxOp) (s s1 : S)
      → (b ≡ skip line) × Kept render path content progress skip s s1
      → Ensures
          (λ _ s'.
            (content s' path ≡ content s path)
            × (progress s' ≡ ((progress s).0, (progress s).1 ++ effect_of skip line)))
          (λ _ s'. Kept render path content progress skip s s')
          ((if b then pure tt else apply_op handler line) s1)
  apply_unless_skipped true line s s1 (e, k) = record {
    post = (
      k.inbox,
      k.others ∙ rw (← e) (ap (λ l. ((progress s).0, l)) (sym (append-nil (progress s).1))),
    );
  }
  apply_unless_skipped false line s s1 (e, k) = rw (← e) (
      Ensures-weaken (apply_op handler line s1) (apply_kind_lem line.op line.path s1)
        (λ _ s2 q. (
          q.0 ∙ k.inbox,
          q.1 ∙ ap (λ (g : ℕ × List Effect). (g.0, g.1 ++ ((line.op, line.path) ∷ []))) k.others,
        ))
        (λ _ s2 q. record { inbox = q.inbox ∙ k.inbox; others = q.others ∙ k.others }))

  -- What a failed `settle` may have done.
  pub record Unsettled (line : InboxOp) (s s' : S) : Type 0 where
    pub inbox : content s' path ≡ content s path
    pub others :
        (progress s' ≡ progress s)
        ⊎ ((r : ℕ) × (progress s' ≡ (r, (progress s).1 ++ effect_of skip line))
            × ((r ≡ (progress s).0) ⊎ (r ≡ line.rev)))

  pub settle_lem :
      (line : InboxOp) (s : S)
      → Ensures
          (λ _ s'.
            (content s' path ≡ content s path)
            × (progress s' ≡ (line.rev, (progress s).1 ++ effect_of skip line)))
          (λ _ s'. Unsettled line s s')
          (settle handler line s)
  unfolding settle
  settle_lem line s =
      Ensures-continue (handler.should_skip_apply line s) _
        (Ensures-weaken (handler.should_skip_apply line s) (K.on_skip line s) (λ b s1 q. q)
          (λ _ s1 q. record { inbox = q.inbox; others = inl q.others }))
        λ b s1 q.
          Ensures-continue ((if b then pure tt else apply_op handler line) s1) _
            (Ensures-weaken ((if b then pure tt else apply_op handler line) s1)
              (apply_unless_skipped b line s s1 q) (λ _ s2 a. a)
              (λ _ s2 a. record { inbox = a.inbox; others = inl a.others }))
            λ _ s2 a.
              Ensures-weaken (handler.set_revision line.rev s2) (K.on_set line.rev s2)
                (λ _ s3 t. (t.0 ∙ a.0, t.1 ∙ ap (λ (g : ℕ × List Effect). (line.rev, g.1)) a.1))
                (λ _ s3 t. record {
                  inbox = t.0 ∙ a.0;
                  others = elim (t.1) [
                    | inl same ↦ inr ((progress s).0, same ∙ a.1, inl refl)
                    | inr set ↦ inr (
                      line.rev,
                      set ∙ ap (λ (g : ℕ × List Effect). (line.rev, g.1)) a.1,
                      inr refl,
                    )
                  ];
                })

-- ===== src/Inbox/Outcome.antt =====
-- rust-client/src/inbox.rs: how a run of `apply_inbox` can end, and what its handler is to do.
use obsidian_sync_engine.Base.{
  ℕ, ◌<◌, Text, ◌≡◌, refl, sym, ap, ◌∙◌, ◌⊎◌, inl, Bool, Option, List, [], ◌∷◌, ◌++◌, append-nil,
  Ensures,
}
use obsidian_sync_engine.Op.{put, delete, InboxOp}
use obsidian_sync_engine.Jsonl.Journal.{Holds}
use obsidian_sync_engine.Inbox.{InboxHandler}
use obsidian_sync_engine.Inbox.Effects.{Effect, effects, reached}

module _ {S : Type 0} (render : InboxOp → Text) (path : Text) (content : S → Text → Option Text)
    (progress : S → ℕ × List Effect) (skip : InboxOp → Bool) where
  -- Neither the inbox nor the progress has changed.
  pub record Kept (s s' : S) : Type 0 where
    pub inbox : content s' path ≡ content s path
    pub others : progress s' ≡ progress s

  -- What `apply_inbox` expects of its handler. `progress` is the revision and the list of what was
  -- applied to the vault.
  pub record IsHandler (handler : InboxHandler S) : Type 0 where
    pub on_put :
        (p : Text) (s : S)
        → Ensures
            (λ _ s'.
              (content s' path ≡ content s path)
              × (progress s' ≡ ((progress s).0, (progress s).1 ++ ((put, p) ∷ []))))
            (λ _ s'. Kept s s')
            (handler.apply_put p s)
    pub on_delete :
        (p : Text) (s : S)
        → Ensures
            (λ _ s'.
              (content s' path ≡ content s path)
              × (progress s' ≡ ((progress s).0, (progress s).1 ++ ((delete, p) ∷ []))))
            (λ _ s'. Kept s s')
            (handler.apply_delete p s)
    pub on_get :
        (s : S)
        → Ensures
            (λ r s'. (r ≡ (progress s).0) × Kept s s')
            (λ _ s'. Kept s s')
            (handler.get_revision s)
    pub on_set :
        (r : ℕ) (s : S)
        → Ensures
            (λ _ s'. (content s' path ≡ content s path) × (progress s' ≡ (r, (progress s).1)))
            (λ _ s'.
              (content s' path ≡ content s path)
              × ((progress s' ≡ progress s) ⊎ (progress s' ≡ (r, (progress s).1))))
            (handler.set_revision r s)
    pub on_skip :
        (line : InboxOp) (s : S)
        → Ensures
            (λ b s'. (b ≡ skip line) × Kept s s')
            (λ _ s'. Kept s s')
            (handler.should_skip_apply line s)
    pub on_defer :
        (line : InboxOp) (s : S)
        → Ensures (λ _ s'. Kept s s') (λ _ s'. Kept s s') (handler.should_defer_apply line s)

  -- The journal after `done` of the lines: as it was (`start`) if there are none, else the lines
  -- that are left.
  abbrev pub File : Option Text → List InboxOp → List InboxOp → S → Type 0
  File start done left s =
      ((done ≡ []) × (content s path ≡ start)) ⊎ Holds render content path s left

  module _ (start : Option Text) (current : ℕ) (lines : List InboxOp) (s s' : S) where
    -- A run that returns: the lines `done` are applied, the revision is theirs, and the file holds
    -- the others. It goes on to the end, or to a line that is new and was deferred.
    pub record Applied : Type 0 where
      pub done : List InboxOp
      pub left : List InboxOp
      pub split : lines ≡ done ++ left
      pub progressed :
          progress s' ≡ (reached current done, (progress s).1 ++ effects skip current done)
      pub file : File start done left s'
      pub ended :
          (left ≡ [])
          ⊎ ((line : InboxOp) × (more : List InboxOp) × (left ≡ line ∷ more)
              × (reached current done < line.rev))

    -- A run that fails: the lines `done` are applied, and at most the last of them is still to be
    -- settled, its revision or its removal from the file.
    pub record Stopped : Type 0 where
      pub done : List InboxOp
      pub left : List InboxOp
      pub split : lines ≡ done ++ left
      pub applied : (progress s').1 ≡ (progress s).1 ++ effects skip current done
      pub settled :
          (((progress s').0 ≡ reached current done) × File start done left s')
          ⊎ ((init : List InboxOp) × (last : InboxOp) × (done ≡ init ++ (last ∷ []))
              × (((progress s').0 ≡ reached current init)
                  ⊎ ((progress s').0 ≡ reached current done))
              × File start init (last ∷ left) s')

  pub stopped_before :
      (start : Option Text) (current : ℕ) (lines : List InboxOp) (s s' : S)
      → content s path ≡ start
      → (progress s).0 ≡ current
      → Kept s s'
      → Stopped start current lines s s'
  stopped_before start current lines s s' file at k = record {
    done = [];
    left = lines;
    split = refl;
    applied = ap (λ (g : ℕ × List Effect). g.1) k.others ∙ sym (append-nil (progress s).1);
    settled = inl (ap (λ (g : ℕ × List Effect). g.0) k.others ∙ at, inl (refl, k.inbox ∙ file));
  }

  pub applied_before :
      (start : Option Text) (current : ℕ) (lines : List InboxOp) (s s' : S)
      → content s path ≡ start
      → (progress s).0 ≡ current
      → Kept s s'
      → (lines ≡ [])
        ⊎ ((line : InboxOp) × (more : List InboxOp) × (lines ≡ line ∷ more) × (current < line.rev))
      → Applied start current lines s s'
  applied_before start current lines s s' file at k ended = record {
    done = [];
    left = lines;
    split = refl;
    progressed = k.others ∙ (λ i. (at i, sym (append-nil (progress s).1) i));
    file = inl (refl, k.inbox ∙ file);
    ended = ended;
  }

  pub Applied-from :
      (start : Option Text) (current : ℕ) (lines : List InboxOp) (s s1 s' : S)
      → progress s1 ≡ progress s
      → Applied start current lines s1 s'
      → Applied start current lines s s'
  Applied-from start current lines s s1 s' e a = record {
    done = a.done;
    left = a.left;
    split = a.split;
    progressed =
        a.progressed
        ∙ ap (λ (g : ℕ × List Effect). (reached current a.done, g.1 ++ effects skip current a.done))
            e;
    file = a.file;
    ended = a.ended;
  }

  pub Stopped-from :
      (start : Option Text) (current : ℕ) (lines : List InboxOp) (s s1 s' : S)
      → progress s1 ≡ progress s
      → Stopped start current lines s1 s'
      → Stopped start current lines s s'
  Stopped-from start current lines s s1 s' e a = record {
    done = a.done;
    left = a.left;
    split = a.split;
    applied = a.applied ∙ ap (λ (g : ℕ × List Effect). g.1 ++ effects skip current a.done) e;
    settled = a.settled;
  }

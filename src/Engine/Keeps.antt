-- ===== src/Engine/Keeps.antt =====
-- Runs that leave a view of the state as it is, for the rounds of rust-client/src/engine.rs.
use obsidian_sync_engine.Base.{
  Text, Option, ◌≡◌, refl, sym, ◌∙◌, subst, Bool, true, false, if◌then◌else◌, Exec, pure, fail,
  ◌>>=◌, catch, update, on_world, Ensures, Ensures-continue, Ensures-weaken, Ensures-on_world,
  Ensures-catch,
}
use obsidian_sync_engine.Fs.{SyncFs}
use obsidian_sync_engine.Fs.Contents.{Same, SameBut, HasContents}
use obsidian_sync_engine.Engine.State.{beside_fs}
use obsidian_sync_engine.Error.{Io, io, Ensures-io}

module _ {S V : Type 0} (view : S → V) (Inv : V → Type 0) where
  -- From a state whose view is admitted, the view of the state stays the same.
  pub record Keeps {E A : Type 0} (m : Exec E S A) : Type 0 where
    pub kept :
        (s : S) → Inv (view s) → Ensures (λ _ s'. view s' ≡ view s) (λ _ s'. view s' ≡ view s) (m s)

module _ {S V : Type 0} {view : S → V} {Inv : V → Type 0} where
  pub Keeps-pure : {E A : Type 0} (a : A) → Keeps view Inv {E = E} (pure a)
  Keeps-pure a = record { kept = λ s inv. record { post = refl } }

  pub Keeps-fail : {E A : Type 0} (e : E) → Keeps view Inv {E = E} {A = A} (fail e)
  Keeps-fail e = record { kept = λ s inv. record { post = refl } }

  pub Keeps-bind :
      {E A B : Type 0} {m : Exec E S A} {f : A → Exec E S B}
      → Keeps view Inv m
      → ((a : A) → Keeps view Inv (f a))
      → Keeps view Inv (m >>= f)
  Keeps-bind {m} {f} h k = record {
    kept = λ s inv. Ensures-continue (m s) _ (h.kept s inv) λ a s1 q.
        Ensures-weaken (f a s1) ((k a).kept s1 (subst Inv (sym q) inv)) (λ _ s2 r. r ∙ q)
          (λ _ s2 r. r ∙ q);
  }

  pub Keeps-if :
      {E A : Type 0} (b : Bool) {m n : Exec E S A}
      → Keeps view Inv m
      → Keeps view Inv n
      → Keeps view Inv (if b then m else n)
  Keeps-if true h k = h
  Keeps-if false h k = k

  pub Keeps-catch :
      {E F A : Type 0} {m : Exec E S A} → Keeps view Inv m → Keeps view Inv {E = F} (catch m)
  Keeps-catch {m} h = record {
    kept = λ s inv. Ensures-catch m s (h.kept s inv) (λ _ s1 q. q) (λ _ s1 q. q);
  }

  pub Keeps-io : {A : Type 0} {m : Io S A} → Keeps view Inv m → Keeps view Inv (io m)
  Keeps-io {m} h = record { kept = λ s inv. Ensures-io m s (h.kept s inv) }

module _ {T S V V' : Type 0} {view : S → V} {Inv : V → Type 0} {view' : T × S → V'}
    {Inv' : V' → Type 0} where
  pub Keeps-on_world :
      {E A : Type 0} {m : Exec E S A}
      → ((t : T) (s s' : S) → view s' ≡ view s → view' (t, s') ≡ view' (t, s))
      → ((t : T) (s : S) → Inv' (view' (t, s)) → Inv (view s))
      → Keeps view Inv m
      → Keeps view' Inv' (on_world m)
  Keeps-on_world {m} same admits h = record {
    kept = λ s inv.
        Ensures-on_world (s.0) m (s.1) (h.kept s.1 (admits s.0 s.1 inv))
          (λ _ s1 q. same s.0 s.1 s1 q) (λ _ s1 q. same s.0 s.1 s1 q);
  }

module _ {T S V : Type 0} (view : T × S → V) (Inv : V → Type 0) where
  pub Keeps-update :
      {E : Type 0} (f : T → T)
      → ((t : T) (s : S) → view (f t, s) ≡ view (t, s))
      → Keeps view Inv {E = E} (update f)
  Keeps-update f same = record { kept = λ s inv. record { post = same s.0 s.1 } }

module _ {T S : Type 0} where
  abbrev pub beside_content : (S → Text → Option Text) → T × S → Text → Option Text
  beside_content content (t, s) = content s

-- The files beside an object hold the same texts; of the rest, what `seen` tells of the pair.
module _ {T S G G' : Type 0} {content : S → Text → Option Text} {rest : S → G} {fs : SyncFs S}
    {seen : T × S → G'} (same : (t : T) (s s' : S) → rest s' ≡ rest s → seen (t, s') ≡ seen (t, s))
    (H : HasContents content rest fs) where
  Same-beside :
      (t : T) (s s' : S)
      → Same content rest s s'
      → Same (beside_content content) seen (t, s) (t, s')
  Same-beside t s s' h = record { files = h.files; others = same t s s' h.others }

  SameBut-beside :
      (t : T) (p : Text) (s s' : S)
      → SameBut content rest p s s'
      → SameBut (beside_content content) seen p (t, s) (t, s')
  SameBut-beside t p s s' h = record { files = h.files; others = same t s s' h.others }

  pub HasContents-beside : HasContents (beside_content content) seen (beside_fs fs)
  HasContents-beside = record {
    on_exists = λ p s.
        Ensures-on_world (s.0) (fs.exists p) (s.1) (H.on_exists p s.1)
          (λ b s' q. (q.0, Same-beside s.0 s.1 s' q.1)) (λ _ s' q. Same-beside s.0 s.1 s' q);
    on_read = λ p s.
        Ensures-on_world (s.0) (fs.read p) (s.1) (H.on_read p s.1)
          (λ b s' q. (q.0, Same-beside s.0 s.1 s' q.1)) (λ _ s' q. Same-beside s.0 s.1 s' q);
    on_write = λ p t s.
        Ensures-on_world (s.0) (fs.write p t) (s.1) (H.on_write p t s.1)
          (λ b s' q. (q.0, SameBut-beside s.0 p s.1 s' q.1))
          (λ _ s' q. (q.0, SameBut-beside s.0 p s.1 s' q.1));
    on_append = λ p t s.
        Ensures-on_world (s.0) (fs.append p t) (s.1) (H.on_append p t s.1)
          (λ b s' q. (q.0, SameBut-beside s.0 p s.1 s' q.1))
          (λ _ s' q. (q.0, SameBut-beside s.0 p s.1 s' q.1));
  }

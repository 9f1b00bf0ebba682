-- ===== src/Base/Preserves.antt =====
-- Runs that preserve an invariant of the state, whether they return or fail.
use mathlib.Core.Bool.{Bool, true, false}
use obsidian_sync_engine.Base.Tests.{if◌then◌else◌}
use obsidian_sync_engine.Base.Run.{
  Exec, Result, ok, err, pure, fail, lift, ◌>>=◌, catch, on_world, update, gets, Ensures,
  Ensures-continue, Ensures-weaken, Ensures-catch, Ensures-on_world,
}

-- Any run returns or fails.
pub anything : {E S A : Type 0} (r : Result E A × S) → Ensures (λ _ _. Unit {0}) (λ _ _. Unit {0}) r
anything (ok a, s) = record { post = tt }
anything (err e, s) = record { post = tt }

module _ {S : Type 0} (Inv : S → Type 0) where
  pub record Preserves {E A : Type 0} (m : Exec E S A) : Type 0 where
    pub preserved : (s : S) → Inv s → Ensures (λ _ s'. Inv s') (λ _ s'. Inv s') (m s)

module _ {S : Type 0} {Inv : S → Type 0} where
  pub Preserves-pure : {E A : Type 0} (a : A) → Preserves Inv {E = E} (pure a)
  Preserves-pure a = record { preserved = λ s h. record { post = h } }

  pub Preserves-fail : {E A : Type 0} (e : E) → Preserves Inv {E = E} {A = A} (fail e)
  Preserves-fail e = record { preserved = λ s h. record { post = h } }

  pub Preserves-bind :
      {E A B : Type 0} {m : Exec E S A} {f : A → Exec E S B}
      → Preserves Inv m
      → ((a : A) → Preserves Inv (f a))
      → Preserves Inv (m >>= f)
  Preserves-bind {m} h k = record {
    preserved = λ s i. Ensures-continue (m s) _ (h.preserved s i) λ a s1 j. (k a).preserved s1 j;
  }

  pub Preserves-if :
      {E A : Type 0} (b : Bool) {m n : Exec E S A}
      → Preserves Inv m
      → Preserves Inv n
      → Preserves Inv (if b then m else n)
  Preserves-if true h k = h
  Preserves-if false h k = k

  pub Preserves-lift : {E A : Type 0} (r : Result E A) → Preserves Inv (lift r)
  Preserves-lift (ok a) = record { preserved = λ s h. record { post = h } }
  Preserves-lift (err e) = record { preserved = λ s h. record { post = h } }

  pub Preserves-catch :
      {E F A : Type 0} {m : Exec E S A} → Preserves Inv m → Preserves Inv {E = F} (catch m)
  Preserves-catch {m} h = record {
    preserved = λ s i. Ensures-catch m s (h.preserved s i) (λ _ s1 j. j) (λ _ s1 j. j);
  }

module _ {T S : Type 0} {Inv : T × S → Type 0} where
  -- An action on the world, where the invariant is of the object alone.
  pub Preserves-on_world :
      {E A : Type 0} (m : Exec E S A)
      → ((t : T) (s s' : S) → Inv (t, s) → Inv (t, s'))
      → Preserves Inv (on_world m)
  Preserves-on_world m h = record {
    preserved = λ (t, s) i.
        Ensures-on_world t m s (anything (m s)) (λ _ s' _. h t s s' i) (λ _ s' _. h t s s' i);
  }

  pub Preserves-gets : {E A : Type 0} (f : T → A) → Preserves Inv {E = E} (gets f)
  Preserves-gets f = record { preserved = λ s h. record { post = h } }

  pub Preserves-update :
      {E : Type 0} (f : T → T)
      → ((t : T) (s : S) → Inv (t, s) → Inv (f t, s))
      → Preserves Inv {E = E} (update f)
  Preserves-update f h = record { preserved = λ (t, s) i. record { post = h t s i } }

-- Both cases of an `elim` on a flag.
pub Preserves-elim :
    {S : Type 0} {Inv : S → Type 0} {E A : Type 0} (b : Bool) {m n : Exec E S A}
    → Preserves Inv m
    → Preserves Inv n
    → Preserves Inv (elim b as (λ _. Exec E S A) [ true ↦ m | false ↦ n ])
Preserves-elim true h k = h
Preserves-elim false h k = k

-- An action on the world keeps an invariant of the world, beside an object.
pub Preserves-beside :
    {T S E A : Type 0} {Inv : S → Type 0} {m : Exec E S A}
    → Preserves Inv m
    → Preserves (λ (s : T × S). Inv s.1) (on_world m)
Preserves-beside {m} h = record {
  preserved = λ (t, s) i. Ensures-on_world t m s (h.preserved s i) (λ _ s' j. j) (λ _ s' j. j);
}

-- Runs that turn one property of the state into another, if they return.
module _ {S : Type 0} (P Q : S → Type 0) where
  pub record Leads {E A : Type 0} (m : Exec E S A) : Type 0 where
    pub led : (s : S) → P s → Ensures (λ _ s'. Q s') (λ _ _. Unit {0}) (m s)

module _ {S : Type 0} {P Q : S → Type 0} where
  pub Leads-after :
      {E A B : Type 0} {m : Exec E S A} {f : A → Exec E S B}
      → Preserves P m
      → ((a : A) → Leads P Q (f a))
      → Leads P Q (m >>= f)
  Leads-after {m} h k = record {
    led = λ s i.
        Ensures-continue (m s) _
          (Ensures-weaken (m s) (h.preserved s i) (λ _ s1 j. j) (λ _ s1 _. tt))
          λ a s1 j. (k a).led s1 j;
  }

  pub Leads-before :
      {E A B : Type 0} {m : Exec E S A} {f : A → Exec E S B}
      → Leads P Q m
      → ((a : A) → Preserves Q (f a))
      → Leads P Q (m >>= f)
  Leads-before {m} {f} h k = record {
    led = λ s i.
        Ensures-continue (m s) _ (h.led s i)
          λ a s1 j. Ensures-weaken (f a s1) ((k a).preserved s1 j) (λ _ s2 q. q) (λ _ s2 _. tt);
  }

  pub Leads-weaken :
      {E A : Type 0} {m : Exec E S A} → Preserves P m → ((s : S) → P s → Q s) → Leads P Q m
  Leads-weaken {m} h f = record {
    led = λ s i. Ensures-weaken (m s) (h.preserved s i) (λ _ s1 j. f s1 j) (λ _ s1 _. tt);
  }

-- Runs that fail, and preserve an invariant.
module _ {S : Type 0} (Inv : S → Type 0) where
  pub record Fails {E A : Type 0} (m : Exec E S A) : Type 0 where
    pub fails : (s : S) → Inv s → Ensures (λ _ _. ⊥) (λ _ s'. Inv s') (m s)

module _ {S : Type 0} {Inv : S → Type 0} where
  pub Fails-first :
      {E A B : Type 0} {m : Exec E S A} (f : A → Exec E S B) → Fails Inv m → Fails Inv (m >>= f)
  Fails-first {m} f h = record {
    fails = λ s i. Ensures-continue (m s) _ (h.fails s i) λ a s1 none. absurd none;
  }

  pub Fails-after :
      {E A B : Type 0} {m : Exec E S A} {f : A → Exec E S B}
      → Preserves Inv m
      → ((a : A) → Fails Inv (f a))
      → Fails Inv (m >>= f)
  Fails-after {m} h k = record {
    fails = λ s i. Ensures-continue (m s) _ (h.preserved s i) λ a s1 j. (k a).fails s1 j;
  }

pub Fails-beside :
    {T S E A : Type 0} {Inv : S → Type 0} {m : Exec E S A}
    → Fails Inv m
    → Fails (λ (s : T × S). Inv s.1) (on_world m)
Fails-beside {m} h = record {
  fails = λ (t, s) i. Ensures-on_world t m s (h.fails s i) (λ _ _ none. none) (λ _ s' j. j);
}

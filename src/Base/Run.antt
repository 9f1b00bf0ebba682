-- ===== src/Base/Run.antt =====
-- Fallible code over a state. A method returns a result and the state that it leaves, also
-- where it fails: what was written before an error stays written.
use mathlib.Core.Path.{◌≡◌, refl}
use mathlib.Core.List.{List, [], ◌∷◌}

pub data Result (E : Type 0) (A : Type 0) : Type 0 where
  ok : A → Result E A
  err : E → Result E A

abbrev pub Exec : Type 0 → Type 0 → Type 0 → Type 0
Exec E S A = S → Result E A × S

module _ {E S A : Type 0} where
  abbrev pub pure : A → Exec E S A
  pure a s = (ok a, s)

  abbrev pub fail : E → Exec E S A
  fail e s = (err e, s)

  -- A computation that does not touch the state.
  abbrev pub lift : Result E A → Exec E S A
  lift r s = (r, s)

module _ {E S A B : Type 0} where
  abbrev pub continue : Result E A × S → (A → Exec E S B) → Result E B × S
  continue (ok a, s) f = f a s
  continue (err e, s) f = (err e, s)

  infixl 10 ◌>>=◌ ◌>>◌
  abbrev pub ◌>>=◌ : Exec E S A → (A → Exec E S B) → Exec E S B
  ◌>>=◌ m f s = continue (m s) f

  abbrev pub ◌>>◌ : Exec E S A → Exec E S B → Exec E S B
  m >> n = m >>= λ _. n

module _ {E S A : Type 0} where
  -- `for x in xs { body }`, with `?` in the body.
  unfoldable pub for_each : List A → (A → Exec E S (Unit {0})) → Exec E S (Unit {0})
  for_each [] body = pure tt
  for_each (x ∷ xs) body = body x >> for_each xs body

module _ {E F S A : Type 0} where
  abbrev as_value : Result E A × S → Result F (Result E A) × S
  as_value (r, s) = (ok r, s)

  -- The result as a value, where the code matches on it.
  abbrev pub catch : Exec E S A → Exec F S (Result E A)
  catch m s = as_value (m s)

abbrev pub result_map : {E A B : Type 0} → (A → B) → Result E A → Result E B
result_map f (ok a) = ok (f a)
result_map f (err e) = err e

-- The postcondition of a run: `Q` of the value and the state if it returns, `R` of the error and
-- the state if it fails.
module _ {E S A : Type 0} (Q : A → S → Type 0) (R : E → S → Type 0) where
  abbrev pub Post : Result E A × S → Type 0
  Post (ok a, s) = Q a s
  Post (err e, s) = R e s

  pub record Ensures (r : Result E A × S) : Type 0 where
    pub post : Post r

module _ {E S A B : Type 0} {Q : A → S → Type 0} {Q' : B → S → Type 0} {R : E → S → Type 0} where
  pub Ensures-continue :
      (r : Result E A × S) (f : A → Exec E S B)
      → Ensures Q R r
      → ((a : A) (s : S) → Q a s → Ensures Q' R (f a s))
      → Ensures Q' R (continue r f)
  Ensures-continue (ok a, s) f h k = k a s h.post
  Ensures-continue (err e, s) f h k = record { post = h.post }

module _ {E S A : Type 0} {Q Q' : A → S → Type 0} {R R' : E → S → Type 0} where
  pub Ensures-weaken :
      (r : Result E A × S)
      → Ensures Q R r
      → ((a : A) (s : S) → Q a s → Q' a s)
      → ((e : E) (s : S) → R e s → R' e s)
      → Ensures Q' R' r
  Ensures-weaken (ok a, s) h f g = record { post = f a s h.post }
  Ensures-weaken (err e, s) h f g = record { post = g e s h.post }

module _ {E S A : Type 0} {Q Q' : A → S → Type 0} where
  pub Ensures-both :
      (r : Result E A × S)
      → Ensures Q (λ _ _. Unit {0}) r
      → Ensures Q' (λ _ _. Unit {0}) r
      → Ensures (λ a s. Q a s × Q' a s) (λ _ _. Unit {0}) r
  Ensures-both (ok a, s) h k = record { post = (h.post, k.post) }
  Ensures-both (err e, s) h k = record { post = tt }

-- A run that returns has returned what it does.
module _ {E S A : Type 0} {Q : A → S → Type 0} {R : E → S → Type 0} (m : Exec E S A) (s : S) where
  pub Ensures-run : Ensures Q R (m s) → Ensures (λ a s'. Q a s' × (m s ≡ (ok a, s'))) R (m s)
  Ensures-run h = by_result (m s) refl h
    where
      by_result :
          (r : Result E A × S)
          → m s ≡ r
          → Ensures Q R r
          → Ensures (λ a s'. Q a s' × (m s ≡ (ok a, s'))) R r
      by_result (ok a, s') e h = record { post = (h.post, e) }
      by_result (err e, s') _ h = record { post = h.post }

-- A state of two parts: the fields of an object, and the world that it acts on.
module _ {E T S A : Type 0} where
  abbrev beside : T → Result E A × S → Result E A × (T × S)
  beside t (r, s) = (r, (t, s))

  -- An action on the world.
  abbrev pub on_world : Exec E S A → Exec E (T × S) A
  on_world m (t, s) = beside t (m s)

  abbrev pub gets : (T → A) → Exec E (T × S) A
  gets f (t, s) = (ok (f t), (t, s))

module _ {E T S : Type 0} where
  abbrev pub update : (T → T) → Exec E (T × S) (Unit {0})
  update f (t, s) = (ok tt, (f t, s))

module _ {E T U S A : Type 0} (part : T → U) (with_part : T → U → T) where
  abbrev pub put_back : T → Result E A × (U × S) → Result E A × (T × S)
  put_back t (r, (u, s)) = (r, (with_part t u, s))

  -- An action on a field of the object and the world.
  abbrev pub zoom : Exec E (U × S) A → Exec E (T × S) A
  zoom m (t, s) = put_back t (m (part t, s))

module _ {E S T A : Type 0} {Q : A → S → Type 0} {R : E → S → Type 0} (t : T)
    {Q' : A → T × S → Type 0} {R' : E → T × S → Type 0} where
  Ensures-beside :
      (r : Result E A × S)
      → Ensures Q R r
      → ((a : A) (s : S) → Q a s → Q' a (t, s))
      → ((e : E) (s : S) → R e s → R' e (t, s))
      → Ensures Q' R' (beside t r)
  Ensures-beside (ok a, s) h f g = record { post = f a s h.post }
  Ensures-beside (err e, s) h f g = record { post = g e s h.post }

  -- What an action on the world ensures, beside an object.
  pub Ensures-on_world :
      (m : Exec E S A) (s : S)
      → Ensures Q R (m s)
      → ((a : A) (s' : S) → Q a s' → Q' a (t, s'))
      → ((e : E) (s' : S) → R e s' → R' e (t, s'))
      → Ensures Q' R' (on_world m (t, s))
  Ensures-on_world m s h f g = Ensures-beside (m s) h f g

module _ {E F S A : Type 0} {Q : A → S → Type 0} {R : E → S → Type 0} {Q' : Result E A → S → Type 0}
    {R' : F → S → Type 0} where
  Ensures-as_value :
      (r : Result E A × S)
      → Ensures Q R r
      → ((a : A) (s : S) → Q a s → Q' (ok a) s)
      → ((e : E) (s : S) → R e s → Q' (err e) s)
      → Ensures Q' R' (as_value r)
  Ensures-as_value (ok a, s) h f g = record { post = f a s h.post }
  Ensures-as_value (err e, s) h f g = record { post = g e s h.post }

  -- Caught, an action only returns.
  pub Ensures-catch :
      (m : Exec E S A) (s : S)
      → Ensures Q R (m s)
      → ((a : A) (s' : S) → Q a s' → Q' (ok a) s')
      → ((e : E) (s' : S) → R e s' → Q' (err e) s')
      → Ensures Q' R' (catch m s)
  Ensures-catch m s h f g = Ensures-as_value (m s) h f g

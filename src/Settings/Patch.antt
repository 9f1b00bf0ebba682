-- ===== src/Settings/Patch.antt =====
-- rust-client/src/settings.rs: a change of one field of `data.json`, for files that are replaced as
-- a whole.
use obsidian_sync_engine.Base.{
  Text, ◌≡◌, ◌⊎◌, inl, refl, some, [], ◌∷◌, if◌then◌else◌, ◌==◌, ok, arith, Ensures,
  Ensures-continue, Ensures-weaken,
}
use obsidian_sync_engine.Base.Tests.{nat_eq, list_eq, text_eq_iff}
use obsidian_sync_engine.Jsonl.{Codec}
use obsidian_sync_engine.Settings.{
  Value, Object, Files, find, put, read_object, write_object, patch,
}

pub find-put :
    (key k : Text) (value : Value) (object : Object)
    → find k (put key value object) ≡ (if key == k then some value else find k object)
unfolding find put
find-put key k value [] = ground (arith, text_eq_iff key k)
find-put key k value ((j, old) ∷ object) =
    ground
      (arith, text_eq_iff key k, text_eq_iff j key, text_eq_iff j k, find-put key k value object)

module _ (codec : Codec Object) (render : Object → Text) (P : Object → Type 0) where
  -- `serde_json` reads back what it prints of an object in `P`.
  pub record IsPrinter : Type 0 where
    pub prints : (o : Object) → P o → codec.to_string o ≡ ok (render o)
    pub parses : (o : Object) → P o → codec.from_str (render o) ≡ ok o

  module _ {W : Type 0} (files : Files W) (Is : Text → W → Type 0) where
    -- The files read a text in `T` as it is, and replace it by another as a whole or not at all.
    pub record Replaces (T : Text → Type 0) : Type 0 where
      pub on_read :
          (t : Text) (w : W)
          → T t
          → Is t w
          → Ensures (λ t' w'. (t' ≡ t) × Is t w') (λ _ w'. Is t w') (files.read w)
      pub on_replace :
          (old new : Text) (w : W)
          → Is old w
          → Ensures (λ _ w'. Is new w') (λ _ w'. Is old w' ⊎ Is new w') (files.replace new w)

    module _ (printer : IsPrinter) {T : Text → Type 0} (replaces : Replaces T) (object : Object)
        (old_printable : P object) (readable : T (render object)) where
      read_object_lem :
          (w : W)
          → Is (render object) w
          → Ensures
              (λ o w'. (o ≡ object) × Is (render object) w')
              (λ _ w'. Is (render object) w')
              (read_object files codec w)
      unfolding read_object
      read_object_lem w holds =
          Ensures-continue (files.read w) _ (replaces.on_read (render object) w readable holds)
            λ t w1 q.
              rw (q.0) (rw (printer.parses object old_printable) (record { post = (refl, q.1) }))

      write_object_lem :
          (new : Object) (w : W)
          → P new
          → Is (render object) w
          → Ensures
              (λ _ w'. Is (render new) w')
              (λ _ w'. Is (render object) w' ⊎ Is (render new) w')
              (write_object files codec new w)
      unfolding write_object
      write_object_lem new w printable holds =
          rw (printer.prints new printable)
            (replaces.on_replace (render object) (render new) w holds)

      pub patch_lem :
          (key : Text) (value : Value) (w : W)
          → P (put key value object)
          → Is (render object) w
          → Ensures
              (λ _ w'. Is (render (put key value object)) w')
              (λ _ w'. Is (render object) w' ⊎ Is (render (put key value object)) w')
              (patch files codec key value w)
      unfolding patch
      patch_lem key value w printable holds =
          Ensures-continue (read_object files codec w) _
            (Ensures-weaken (read_object files codec w) (read_object_lem w holds) (λ o w1 q. q)
              (λ _ w1 q. inl q))
            λ o w1 q. rw (q.0) (write_object_lem (put key value object) w1 printable q.1)

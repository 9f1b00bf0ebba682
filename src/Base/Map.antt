-- ===== src/Base/Map.antt =====
-- `BTreeMap` over texts: an association list in key order, so that iteration is in the
-- program's order. The laws hold for every list.
use mathlib.Core.Path.{◌≡◌}
use mathlib.Core.Logic.{◌≢◌}
use mathlib.Core.Bool.{Bool, true, false}
use mathlib.Core.Option.{Option, none, some}
use mathlib.Core.List.{List, [], ◌∷◌}
use native.Mathlib.Omega.{arith}
use obsidian_sync_engine.Base.Tests.{
  if◌then◌else◌, ◌==◌, nat_eq, list_eq, list_beq_iff, text_eq_refl, text_ne_false,
}
use obsidian_sync_engine.Base.Str.{Text, text_ltb}

abbrev pub TextMap {ℓ} : Type ℓ → Type ℓ
TextMap V = List (Text × V)

module _ {ℓ} {V : Type ℓ} where
  unfoldable pub get : Text → TextMap V → Option V
  get k [] = none
  get k ((j, v) ∷ m) = if j == k then some v else get k m

  unfoldable pub insert : Text → V → TextMap V → TextMap V
  insert k v [] = (k, v) ∷ []
  insert k v ((j, w) ∷ m) =
      let later = insert k v m in
      if j == k then (k, v) ∷ m else if text_ltb k j then (k, v) ∷ (j, w) ∷ m else (j, w) ∷ later

  -- Every entry of the key goes; the map has at most one.
  unfoldable pub remove : Text → TextMap V → TextMap V
  remove k [] = []
  remove k ((j, w) ∷ m) = let rest = remove k m in if j == k then rest else (j, w) ∷ rest

  abbrev pub is_some : Option V → Bool
  is_some none = false
  is_some (some v) = true

  abbrev pub contains_key : Text → TextMap V → Bool
  contains_key k m = is_some (get k m)

  abbrev pub keys : TextMap V → List Text
  keys [] = []
  keys ((k, v) ∷ m) = k ∷ keys m

module _ {ℓ} {V : Type ℓ} where
  pub get-insert :
      (k j : Text) (v : V) (m : TextMap V)
      → get j (insert k v m) ≡ (if k == j then some v else get j m)
  unfolding get insert list_eq
  get-insert k j v [] = ground arith
  get-insert k j v ((i, w) ∷ m) =
      ground (arith, list_beq_iff i k, list_beq_iff i j, list_beq_iff k j, get-insert k j v m)

  pub get-remove :
      (k j : Text) (m : TextMap V) → get j (remove k m) ≡ (if k == j then none else get j m)
  unfolding get remove list_eq
  get-remove k j [] = ground arith
  get-remove k j ((i, w) ∷ m) =
      ground (arith, list_beq_iff i k, list_beq_iff i j, list_beq_iff k j, get-remove k j m)

  pub get-insert_self : (k : Text) (v : V) (m : TextMap V) → get k (insert k v m) ≡ some v
  get-insert_self k v m = rw (get-insert, text_eq_refl)

  pub get-insert_ne : (k j : Text) (v : V) (m : TextMap V) → k ≢ j → get j (insert k v m) ≡ get j m
  get-insert_ne k j v m h = rw (get-insert, text_ne_false k j h)

  pub get-remove_ne : (k j : Text) (m : TextMap V) → k ≢ j → get j (remove k m) ≡ get j m
  get-remove_ne k j m h = rw (get-remove, text_ne_false k j h)

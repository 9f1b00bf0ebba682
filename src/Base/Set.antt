-- ===== src/Base/Set.antt =====
-- `BTreeSet` over texts: a list in order.
use mathlib.Core.Path.{◌≡◌, refl}
use mathlib.Core.Bool.{Bool, true, false, ◌||◌}
use mathlib.Core.List.{List, [], ◌∷◌}
use native.Mathlib.Omega.{arith}
use obsidian_sync_engine.Base.Tests.{if◌then◌else◌, ◌==◌, nat_eq, list_eq, list_beq_iff}
use obsidian_sync_engine.Base.Str.{Text, text_ltb}

abbrev pub TextSet : Type 0
TextSet = List Text

unfoldable pub contains : Text → TextSet → Bool
contains k [] = false
contains k (j ∷ s) = j == k || contains k s

unfoldable pub insert : Text → TextSet → TextSet
insert k [] = k ∷ []
insert k (j ∷ s) =
    let later = insert k s in
    if j == k then j ∷ s else if text_ltb k j then k ∷ j ∷ s else j ∷ later

-- Every copy of the item goes; the set has at most one.
unfoldable pub remove : Text → TextSet → TextSet
remove k [] = []
remove k (j ∷ s) = let rest = remove k s in if j == k then rest else j ∷ rest

unfoldable pub extend : List Text → TextSet → TextSet
unfolding insert
extend [] s = s
extend (k ∷ ks) s = extend ks (insert k s)

pub contains-insert :
    (k j : Text) (s : TextSet) → contains j (insert k s) ≡ (k == j || contains j s)
unfolding contains insert list_eq
contains-insert k j [] = refl
contains-insert k j (i ∷ s) =
    ground (arith, list_beq_iff i k, list_beq_iff i j, list_beq_iff k j, contains-insert k j s)

pub contains-remove :
    (k j : Text) (s : TextSet) → contains j (remove k s) ≡ (if k == j then false else contains j s)
unfolding contains remove list_eq
contains-remove k j [] = ground arith
contains-remove k j (i ∷ s) =
    ground (arith, list_beq_iff i k, list_beq_iff i j, list_beq_iff k j, contains-remove k j s)

pub contains-extend_mono :
    (ks : List Text) (j : Text) (s : TextSet)
    → contains j s ≡ true
    → contains j (extend ks s) ≡ true
unfolding extend
contains-extend_mono [] j s h = h
contains-extend_mono (k ∷ ks) j s h =
    contains-extend_mono ks j (insert k s) (ground (arith, contains-insert k j s))

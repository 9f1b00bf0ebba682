-- ===== src/Paths/Segments.antt =====
-- rust-client/src/paths.rs: paths compared by their segments.
use obsidian_sync_engine.Base.{
  ℕ, Text, starts_with, split, ◌≡◌, refl, ap, ap, ◌∙◌, sym, Bool, true, false, ◌&&◌, ◌||◌, List, [],
  ◌∷◌, ◌++◌, arith, ◌==◌, ◌⊎◌, inl, inr,
}
use obsidian_sync_engine.Base.Tests.{nat_eq, list_eq, text_eq_iff, list_beq_iff, Bool-cases}
use obsidian_sync_engine.Paths.{join, paths_structurally_conflict}

abbrev pub segments : Text → List Text
segments path = split b'/' path

abbrev pub is_prefix : List Text → List Text → Bool
is_prefix [] ts = true
is_prefix (s ∷ ss) [] = false
is_prefix (s ∷ ss) (t ∷ ts) = s == t && is_prefix ss ts

-- `path` is `dir` or stands below it.
abbrev pub is_at_or_below : Text → Text → Bool
is_at_or_below dir path = path == dir || starts_with (join dir []) path

split_cons : (sep : ℕ) (t : Text) → (s : Text) × (ss : List Text) × (split sep t ≡ s ∷ ss)
split_cons sep [] = ([], [], refl)
split_cons sep (c ∷ cs) =
    let (s, ss, e) = split_cons sep cs in
    elim (Bool-cases (c == sep)) [
      | inl same ↦ ([], split sep cs, rw same)
      | inr other ↦ (c ∷ s, ss, rw (other, e))
    ]

-- Being at or below a path is having its segments first.
pub is_at_or_below-eq-is_prefix :
    (dir path : Text) → is_at_or_below dir path ≡ is_prefix (segments dir) (segments path)
unfolding list_eq
is_at_or_below-eq-is_prefix [] [] = refl
is_at_or_below-eq-is_prefix [] (c ∷ cs) = let (t, q, f) = split_cons b'/' cs in ground (arith, f)
is_at_or_below-eq-is_prefix (d ∷ ds) [] = let (s, r, e) = split_cons b'/' ds in ground (arith, e)
is_at_or_below-eq-is_prefix (d ∷ ds) (c ∷ cs) =
    let (s, r, e) = split_cons b'/' ds in
    let (t, q, f) = split_cons b'/' cs in
    ground (arith, e, f, is_at_or_below-eq-is_prefix ds cs, list_beq_iff cs ds, list_beq_iff s t)

-- Two paths conflict exactly if the segments of one of them begin with those of the other.
pub paths_structurally_conflict-eq-is_prefix :
    (left right : Text)
    → paths_structurally_conflict left right
      ≡ (is_prefix (segments right) (segments left) || is_prefix (segments left) (segments right))
unfolding paths_structurally_conflict
paths_structurally_conflict-eq-is_prefix left right =
    rw (← is_at_or_below-eq-is_prefix right left, ← is_at_or_below-eq-is_prefix left right)
      (ground (arith, text_eq_iff left right, text_eq_iff right left))

pub is_prefix_total :
    (xs ys zs : List Text)
    → is_prefix xs zs ≡ true
    → is_prefix ys zs ≡ true
    → (is_prefix xs ys ≡ true) ⊎ (is_prefix ys xs ≡ true)
is_prefix_total [] ys zs h k = inl refl
is_prefix_total (x ∷ xs) [] zs h k = inr refl
is_prefix_total (x ∷ xs) (y ∷ ys) [] h k = cc
is_prefix_total (x ∷ xs) (y ∷ ys) (z ∷ zs) h k = ground (
  arith,
  text_eq_iff x z,
  text_eq_iff y z,
  text_eq_iff x y,
  text_eq_iff y x,
  is_prefix_total xs ys zs,
)

pub is_prefix_trans :
    (xs ys zs : List Text)
    → is_prefix xs ys ≡ true
    → is_prefix ys zs ≡ true
    → is_prefix xs zs ≡ true
is_prefix_trans [] ys zs h k = refl
is_prefix_trans (x ∷ xs) [] zs h k = cc
is_prefix_trans (x ∷ xs) (y ∷ ys) [] h k = cc
is_prefix_trans (x ∷ xs) (y ∷ ys) (z ∷ zs) h k =
    ground (arith, text_eq_iff x z, text_eq_iff y z, text_eq_iff x y, is_prefix_trans xs ys zs)

-- A prefix of a list with one more item is a prefix of the list, or all of it.
pub is_prefix-append_one :
    (xs ys : List Text) (y : Text)
    → is_prefix xs (ys ++ (y ∷ [])) ≡ true
    → (is_prefix xs ys ≡ true) ⊎ (is_prefix (ys ++ (y ∷ [])) xs ≡ true)
is_prefix-append_one [] ys y h = inl refl
is_prefix-append_one (x ∷ []) [] y h = inr (ground (arith, text_eq_iff x y, text_eq_iff y x))
is_prefix-append_one (x ∷ x' ∷ xs) [] y h = ground arith
is_prefix-append_one (x ∷ xs) (z ∷ ys) y h =
    ground (arith, text_eq_iff x z, text_eq_iff z x, is_prefix-append_one xs ys y)

pub is_prefix_antisym :
    (xs ys : List Text) → is_prefix xs ys ≡ true → is_prefix ys xs ≡ true → xs ≡ ys
is_prefix_antisym [] [] h k = refl
is_prefix_antisym [] (y ∷ ys) h k = cc
is_prefix_antisym (x ∷ xs) [] h k = cc
is_prefix_antisym (x ∷ xs) (y ∷ ys) h k = ground (arith, text_eq_iff x y, is_prefix_antisym xs ys)

abbrev unsplit : ℕ → List Text → Text
unsplit sep [] = []
unsplit sep (s ∷ []) = s
unsplit sep (s ∷ t ∷ ts) = s ++ (sep ∷ unsplit sep (t ∷ ts))

unsplit_first :
    (sep c : ℕ) (s : Text) (ss : List Text) → unsplit sep ((c ∷ s) ∷ ss) ≡ c ∷ unsplit sep (s ∷ ss)
unsplit_first sep c s [] = refl
unsplit_first sep c s (t ∷ ts) = refl

unsplit-split : (sep : ℕ) (t : Text) → unsplit sep (split sep t) ≡ t
unsplit-split sep [] = refl
unsplit-split sep (c ∷ cs) =
    let (s, ss, e) = split_cons sep cs in
    ground (arith, e, unsplit-split sep cs, unsplit_first sep c s ss)

-- A path is known by its segments.
pub segments_injective : (left right : Text) → segments left ≡ segments right → left ≡ right
segments_injective left right e =
    sym (unsplit-split b'/' left) ∙ ap (unsplit b'/') e ∙ unsplit-split b'/' right

-- ===== src/Base/Sort.antt =====
-- `sort_by_key` of the Rust standard library, as `rust-client/src/inbox.rs` uses it: a stable sort.
use mathlib.Core.List.{Perm}
use mathlib.Core.List.Perm
use obsidian_sync_engine.Base.{
  ℕ, ◌≤◌, ◌≡◌, refl, List, [], ◌∷◌, leb, arith, inl, inr, ◌==◌, filter, All, if◌then◌else◌,
}
use obsidian_sync_engine.Base.Tests.{Bool-cases, nat_eq}

module _ {A : Type 0} (key : A → ℕ) where
  -- An item goes in front of those of its own key that stood behind it.
  unfoldable insert_by_key : A → List A → List A
  insert_by_key item [] = item ∷ []
  insert_by_key item (first ∷ items) =
      let later = insert_by_key item items in
      if leb (key item) (key first) then item ∷ first ∷ items else first ∷ later

  unfoldable pub sort_by_key : List A → List A
  unfolding insert_by_key
  sort_by_key [] = []
  sort_by_key (item ∷ items) = insert_by_key item (sort_by_key items)

  abbrev pub AscendsFrom : ℕ → List A → Type 0
  AscendsFrom r [] = Unit
  AscendsFrom r (item ∷ items) = (r ≤ (key item)) × AscendsFrom (key item) items

  abbrev pub IsAscending : List A → Type 0
  IsAscending items = AscendsFrom 0 items

  insert_by_key-AscendsFrom :
      (item : A) (items : List A) (r : ℕ)
      → r ≤ (key item)
      → AscendsFrom r items
      → AscendsFrom r (insert_by_key item items)
  unfolding insert_by_key
  insert_by_key-AscendsFrom item [] r h k = (h, tt)
  insert_by_key-AscendsFrom item (first ∷ items) r h (k, up) =
      ground (arith, insert_by_key-AscendsFrom item items (key first))

  insert_by_key-perm : (item : A) (items : List A) → Perm (insert_by_key item items) (item ∷ items)
  unfolding insert_by_key
  insert_by_key-perm item [] = Perm.refl (item ∷ [])
  insert_by_key-perm item (first ∷ items) = elim (Bool-cases (leb (key item) (key first))) [
    | inl e ↦ rw e (Perm.refl (item ∷ first ∷ items))
    | inr e ↦
        rw e (
          Perm.trans (Perm.cons first (insert_by_key-perm item items)) (Perm.swap item first items))
  ]

  -- The items of one key, in the order of the list.
  abbrev pub with_key : ℕ → List A → List A
  with_key r = filter (λ item. (key item) == r)

  with_key-insert_by_key :
      (r : ℕ) (item : A) (items : List A)
      → with_key r (insert_by_key item items) ≡ with_key r (item ∷ items)
  unfolding insert_by_key
  with_key-insert_by_key r item [] = refl
  with_key-insert_by_key r item (first ∷ items) =
      ground (arith, with_key-insert_by_key r item items)

  with_key-sort_by_key :
      (r : ℕ) (items : List A) → with_key r (sort_by_key items) ≡ with_key r items
  unfolding sort_by_key
  with_key-sort_by_key r [] = refl
  with_key-sort_by_key r (item ∷ items) =
      ground
        (arith, with_key-insert_by_key r item (sort_by_key items), with_key-sort_by_key r items)

  sort_by_key-AscendsFrom : (items : List A) → IsAscending (sort_by_key items)
  unfolding sort_by_key
  sort_by_key-AscendsFrom [] = tt
  sort_by_key-AscendsFrom (item ∷ items) =
      insert_by_key-AscendsFrom item (sort_by_key items) 0 (omega arith)
        (sort_by_key-AscendsFrom items)

  sort_by_key-perm : (items : List A) → Perm (sort_by_key items) items
  unfolding sort_by_key
  sort_by_key-perm [] = Perm.refl []
  sort_by_key-perm (item ∷ items) =
      Perm.trans (insert_by_key-perm item (sort_by_key items))
        (Perm.cons item (sort_by_key-perm items))

  -- What the standard library documents of `sort_by_key` holds of it: the keys ascend, each item is
  -- there as often as before, and those of one key keep their order.
  pub sort_by_key_stable :
      (items : List A)
      → IsAscending (sort_by_key items)
        × Perm (sort_by_key items) items
        × ((r : ℕ) → with_key r (sort_by_key items) ≡ with_key r items)
  sort_by_key_stable items =
      (sort_by_key-AscendsFrom items, sort_by_key-perm items, λ r. with_key-sort_by_key r items)

  -- What holds of each item holds of each sorted item.
  module _ (P : A → Type 0) where
    insert_by_key-All :
        (item : A) (items : List A) → P item → All P items → All P (insert_by_key item items)
    unfolding insert_by_key
    insert_by_key-All item [] p h = (p, tt)
    insert_by_key-All item (first ∷ items) p (q, h) =
        elim (Bool-cases (leb (key item) (key first))) [
          | inl e ↦ rw e (p, (q, h))
          | inr e ↦ rw e (q, insert_by_key-All item items p h)
        ]

    pub sort_by_key-All : (items : List A) → All P items → All P (sort_by_key items)
    unfolding sort_by_key
    sort_by_key-All [] h = tt
    sort_by_key-All (item ∷ items) (p, h) =
        insert_by_key-All item (sort_by_key items) p (sort_by_key-All items h)

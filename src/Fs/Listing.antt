-- ===== src/Fs/Listing.antt =====
-- rust-client/src/fs.rs: what `LocalFs::list_files_under` lists.
use obsidian_sync_engine.Base.{
  ℕ, zero, suc, Text, ◌≡◌, refl, Bool, true, false, ◌⊎◌, inl, inr, Option, none, some, List, [],
  ◌∷◌, ◌++◌, append_assoc, ap, sym, ◌∙◌, if◌then◌else◌, starts_with, text_ltb, is_empty, All,
  All-append, Bool-cases, arith, catch, Ensures, Ensures-continue,
}
use obsidian_sync_engine.Base.Tests.{nat_eq, list_eq}
use obsidian_sync_engine.Base.Preserves.{anything}
use obsidian_sync_engine.Fs.Disk.{Disk, Node, file, folder, special, symlink}
use obsidian_sync_engine.Fs.Inbound.{
  Listing, child_of, listed_as, list_entries, entries_or_none, list_stack, insert_sorted, sort,
  sorted_files, check_prefix, list_files_under,
}
use obsidian_sync_engine.Fs.Calls.{read_dir}
use obsidian_sync_engine.Paths.{join, is_sync_excluded_path}

starts_with_self : (p x : Text) → starts_with p (p ++ x) ≡ true
starts_with_self [] x = refl
starts_with_self (c ∷ p) x = ground (arith, starts_with_self p x)

starts_with_longer : (p q x : Text) → starts_with p q ≡ true → starts_with p (q ++ x) ≡ true
starts_with_longer [] q x h = refl
starts_with_longer (c ∷ p) [] x h = cc
starts_with_longer (c ∷ p) (d ∷ q) x h = ground (arith, starts_with_longer p q x)

starts_with_split : (p x : Text) (c : ℕ) → starts_with (p ++ (c ∷ [])) (p ++ (c ∷ x)) ≡ true
starts_with_split [] x c = ground arith
starts_with_split (d ∷ p) x c = ground (arith, starts_with_split p x c)

-- Folders that are not the client's own are put on top of a stack.
abbrev pub OnTop : List Text → List Text → Type 0
OnTop stack later =
    (added : List Text) × (later ≡ added ++ stack)
    × All (λ folder. is_sync_excluded_path folder ≡ false) added

OnTop-trans : (a b c : List Text) → OnTop a b → OnTop b c → OnTop a c
OnTop-trans a b c (xs, e, h) (ys, e', h') =
    (ys ++ xs, e' ∙ ap (λ l. ys ++ l) e ∙ sym (append_assoc ys xs a), All-append _ ys xs h' h)

listed_as-OnTop :
    (child : Text) (node : Node) (listing : Listing)
    → is_sync_excluded_path child ≡ false
    → OnTop listing.stack (listed_as child node listing).stack
listed_as-OnTop child folder listing e = (child ∷ [], refl, (e, tt))
listed_as-OnTop child (file content mode mtime_ns) listing e = ([], refl, tt)
listed_as-OnTop child special listing e = ([], refl, tt)
listed_as-OnTop child (symlink target) listing e = ([], refl, tt)

entry-OnTop :
    (child : Text) (node : Node) (listing : Listing)
    → OnTop listing.stack
        (if is_sync_excluded_path child then listing else listed_as child node listing).stack
entry-OnTop child node listing = elim (Bool-cases (is_sync_excluded_path child)) [
  | inl own ↦ rw own ([], refl, tt)
  | inr other ↦ rw other (listed_as-OnTop child node listing other)
]

list_entries-OnTop :
    (relative : Text) (entries : List (Text × Node)) (listing : Listing)
    → OnTop listing.stack (list_entries relative entries listing).stack
unfolding list_entries
list_entries-OnTop relative [] listing = ([], refl, tt)
list_entries-OnTop relative ((name, node) ∷ entries) listing =
    let child : Text = child_of relative name in
    OnTop-trans _ _ _ (entry-OnTop child node listing) (
      list_entries-OnTop relative entries
        (if is_sync_excluded_path child then listing else listed_as child node listing))

module _ (prefix : Text) where
  -- Below the folder; everything is below the vault's own.
  abbrev pub IsBelow : Text → Type 0
  IsBelow path = (is_empty prefix ≡ true) ⊎ (starts_with (join prefix []) path ≡ true)

  abbrev IsAt : Text → Type 0
  IsAt path = (path ≡ prefix) ⊎ IsBelow path

  -- A path that may be listed.
  abbrev pub IsListed : Text → Type 0
  IsListed path = IsBelow path × (is_sync_excluded_path path ≡ false)

  child-IsBelow : (relative name : Text) → IsAt relative → IsBelow (child_of relative name)
  child-IsBelow [] name (inl e) = inl (rw (← e) refl)
  child-IsBelow (c ∷ relative) name (inl e) =
      inr (rw (← e) (starts_with_split (c ∷ relative) name b'/'))
  child-IsBelow relative name (inr (inl e)) = inl e
  child-IsBelow [] name (inr (inr h)) = below_nothing prefix h
    where
      below_nothing :
          (p : Text)
          → starts_with (join p []) [] ≡ true
          → (is_empty p ≡ true) ⊎ (starts_with (join p []) name ≡ true)
      below_nothing [] h = cc
      below_nothing (c ∷ p) h = cc
  child-IsBelow (c ∷ relative) name (inr (inr h)) =
      inr (starts_with_longer (join prefix []) (c ∷ relative) (b'/' ∷ name) h)

  record IsGood (listing : Listing) : Type 0 where
    folders : All IsAt listing.stack
    paths : All IsListed listing.files

  listed_as-IsGood :
      (child : Text) (node : Node) (listing : Listing)
      → IsListed child
      → IsGood listing
      → IsGood (listed_as child node listing)
  listed_as-IsGood child folder listing h g = record {
    folders = (inr h.0, g.folders);
    paths = g.paths;
  }
  listed_as-IsGood child (file content mode mtime_ns) listing h g = record {
    folders = g.folders;
    paths = All-append IsListed listing.files (child ∷ []) g.paths (h, tt);
  }
  listed_as-IsGood child special listing h g = g
  listed_as-IsGood child (symlink target) listing h g = g

  list_entries-IsGood :
      (relative : Text) (entries : List (Text × Node)) (listing : Listing)
      → IsAt relative
      → IsGood listing
      → IsGood (list_entries relative entries listing)
  unfolding list_entries
  list_entries-IsGood relative [] listing at g = g
  list_entries-IsGood relative ((name, node) ∷ entries) listing at g =
      list_entries-IsGood relative entries _ at
        (chosen (is_sync_excluded_path (child_of relative name)) refl)
    where
      chosen :
          (b : Bool)
          → is_sync_excluded_path (child_of relative name) ≡ b
          → IsGood (if b then listing else listed_as (child_of relative name) node listing)
      chosen true e = g
      chosen false e =
          listed_as-IsGood (child_of relative name) node listing (child-IsBelow relative name at, e)
            g

  abbrev pub AllListed : Option (List Text) → Type 0
  AllListed none = Unit {0}
  AllListed (some files) = All IsListed files

  list_stack-AllListed :
      (fuel : ℕ) (stack files : List Text) (disk : Disk)
      → All IsAt stack
      → All IsListed files
      → Ensures (λ r _. AllListed r) (λ _ _. Unit {0}) (list_stack fuel stack files disk)
  unfolding list_stack
  list_stack-AllListed fuel [] files disk h g = record { post = g }
  list_stack-AllListed zero (relative ∷ stack) files disk h g = record { post = tt }
  list_stack-AllListed (suc fuel) (relative ∷ stack) files disk h g =
      Ensures-continue (catch (read_dir relative) disk) _ (anything _) λ result d1 _.
        Ensures-continue (entries_or_none result d1) _ (anything _) λ entries d2 _.
          let listing : Listing =
            list_entries relative entries (record { stack = stack; files = files }) in
          let good : IsGood listing =
            list_entries-IsGood relative entries _ h.0 (record { folders = h.1; paths = g }) in
          list_stack-AllListed fuel listing.stack listing.files d2 good.folders good.paths

  insert_sorted-All :
      (path : Text) (paths : List Text)
      → IsListed path
      → All IsListed paths
      → All IsListed (insert_sorted path paths)
  insert_sorted-All path [] h g = (h, g)
  insert_sorted-All path (q ∷ paths) h g = elim (Bool-cases (text_ltb q path)) [
    | inl e ↦ rw e (g.0, insert_sorted-All path paths h g.1)
    | inr e ↦ rw e (h, g)
  ]

  sort-All : (paths : List Text) → All IsListed paths → All IsListed (sort paths)
  sort-All [] h = h
  sort-All (path ∷ paths) h = insert_sorted-All path (sort paths) h.0 (sort-All paths h.1)

  sorted_files-AllListed : (r : Option (List Text)) → AllListed r → AllListed (sorted_files r)
  sorted_files-AllListed none h = h
  sorted_files-AllListed (some files) h = sort-All files h

  -- Whatever the folder holds, what is listed is below it, and is neither the client's own data nor
  -- its journals; and of the entries of a folder, whatever they are, a round puts on the stack of
  -- the folders to read none that is the client's own.
  pub list_files_under-AllListed :
      (fuel : ℕ) (disk : Disk)
      → Ensures (λ r _. AllListed r) (λ _ _. Unit {0}) (list_files_under fuel prefix disk)
        × ((relative : Text) (entries : List (Text × Node)) (listing : Listing)
            → OnTop listing.stack (list_entries relative entries listing).stack)
  unfolding list_files_under
  list_files_under-AllListed fuel disk = (
    Ensures-continue (check_prefix prefix disk) _ (anything _) λ _ d1 _.
        Ensures-continue (list_stack fuel (prefix ∷ []) [] d1) _
          (list_stack-AllListed fuel (prefix ∷ []) [] d1 (inl refl, tt) tt)
          λ r d2 q. record { post = sorted_files-AllListed r q },
    list_entries-OnTop,
  )

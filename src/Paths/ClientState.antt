-- ===== src/Paths/ClientState.antt =====
-- rust-client/src/paths.rs: the removal of a path that holds no client state removes none.
use obsidian_sync_engine.Base.{
  Text, codes, ◌≡◌, subst, ◌∙◌, sym, Bool, true, ◌||◌, [], arith, ◌==◌, ◌⊎◌, inl, inr, starts_with,
}
use obsidian_sync_engine.Base.Tests.{nat_eq, list_eq, text_eq_iff}
use obsidian_sync_engine.Paths.{
  join, plugin_dir, state_root, is_sync_excluded_path, contains_client_state,
}
use obsidian_sync_engine.Paths.Segments.{
  segments, is_prefix, is_at_or_below, is_at_or_below-eq-is_prefix, is_prefix_total,
  is_prefix-append_one, is_prefix_antisym, segments_injective,
}

abbrev data_path : Text
data_path = join plugin_dir (codes "data.json")

-- `path` holds `held` or something that holds it.
abbrev Above : Text → Text → Type 0
Above path held = is_prefix (segments path) (segments held) ≡ true

or_last : (a b c : Bool) → (b || c) ≡ true → ((a || b) || c) ≡ true
or_last a b c h = ground arith

or_first : (a b c : Bool) → a ≡ true → ((a || b) || c) ≡ true
or_first a b c h = ground arith

or_cases : (a b c : Bool) → ((a || b) || c) ≡ true → (a ≡ true) ⊎ ((b || c) ≡ true)
or_cases a b c h = ground arith

-- The tests of `is_sync_excluded_path`.
excluded_cases :
    (path : Text) → is_sync_excluded_path path ≡ true → (path ≡ data_path) ⊎ Above state_root path
unfolding is_sync_excluded_path
excluded_cases path h =
    elim (or_cases (path == data_path) (path == state_root) (starts_with (join state_root []) path)
      h) [
        | inl e ↦ inl ((text_eq_iff path data_path).0 e)
        | inr e ↦ inr (sym (is_at_or_below-eq-is_prefix state_root path) ∙ e)
      ]

module _ (path : Text) where
  below_state_root : Above state_root path → is_sync_excluded_path path ≡ true
  unfolding is_sync_excluded_path
  below_state_root h =
      or_last (path == data_path) (path == state_root) (starts_with (join state_root []) path)
        (is_at_or_below-eq-is_prefix state_root path ∙ h)

  at_data_path : path ≡ data_path → is_sync_excluded_path path ≡ true
  unfolding is_sync_excluded_path
  at_data_path e =
      or_first (path == data_path) (path == state_root) (starts_with (join state_root []) path)
        ((text_eq_iff path data_path).1 e)

  of_excluded : is_sync_excluded_path path ≡ true → contains_client_state path ≡ true
  unfolding contains_client_state
  of_excluded h =
      or_first (is_sync_excluded_path path) (plugin_dir == path)
        (starts_with (join path []) plugin_dir) h

  Above-plugin_dir : Above path plugin_dir → contains_client_state path ≡ true
  unfolding contains_client_state
  Above-plugin_dir h =
      or_last (is_sync_excluded_path path) (plugin_dir == path)
        (starts_with (join path []) plugin_dir) (is_at_or_below-eq-is_prefix path plugin_dir ∙ h)

  Above-state_root : Above path state_root → contains_client_state path ≡ true
  Above-state_root h =
      elim (is_prefix-append_one (segments path) (segments plugin_dir) (codes "state") h) [
        | inl above ↦ Above-plugin_dir above
        | inr same ↦ of_excluded (below_state_root same)
      ]

  Above-data_path : Above path data_path → contains_client_state path ≡ true
  Above-data_path h =
      elim (is_prefix-append_one (segments path) (segments plugin_dir) (codes "data.json") h) [
        | inl above ↦ Above-plugin_dir above
        | inr same ↦ of_excluded (
            at_data_path (
              segments_injective path data_path
                (is_prefix_antisym (segments path) (segments data_path) h same)))
      ]

-- A path at or above any client state (the credentials, the journals' folder or a path in it) is
-- one that `contains_client_state` refuses to delete.
pub contains_client_state_complete :
    (path held : Text)
    → is_sync_excluded_path held ≡ true
    → is_at_or_below path held ≡ true
    → contains_client_state path ≡ true
contains_client_state_complete path held excluded below =
    let above : Above path held = sym (is_at_or_below-eq-is_prefix path held) ∙ below in
    elim (excluded_cases held excluded) [
      | inl e ↦ Above-data_path path (subst (Above path) e above)
      | inr e ↦
          elim (is_prefix_total (segments path) (segments state_root) (segments held) above e) [
            | inl up ↦ Above-state_root path up
            | inr down ↦ of_excluded path (below_state_root path down)
          ]
    ]

-- ===== src/Error.antt =====
-- `anyhow::Error`, as far as the client tells errors apart (rust-client/src/engine.rs and
-- transport.rs): the typed errors that a caller downcasts to, and all others by their message.
use obsidian_sync_engine.Base.{
  ℕ, Text, codes, to_decimal, Bool, true, false, ◌++◌, Exec, Result, ok, err, Ensures,
}
use obsidian_sync_engine.Guard.{Tripped}

pub data Error : Type 0 where
  suspended : Error
  mass_push_halted : Tripped → Error
  permanent_remote : Text → ℕ → Error
  remote_file_not_found : Text → Error
  auth_rejected : Text → Error
  other : Text → Error

-- `error.is::<SuspendedError>()` and its like.
abbrev pub is_suspended : Error → Bool
is_suspended suspended = true
is_suspended _ = false

abbrev pub is_mass_push_halted : Error → Bool
is_mass_push_halted (mass_push_halted t) = true
is_mass_push_halted _ = false

abbrev pub is_permanent_remote : Error → Bool
is_permanent_remote (permanent_remote m s) = true
is_permanent_remote _ = false

abbrev pub is_remote_file_not_found : Error → Bool
is_remote_file_not_found (remote_file_not_found p) = true
is_remote_file_not_found _ = false

abbrev pub is_auth_rejected : Error → Bool
is_auth_rejected (auth_rejected reason) = true
is_auth_rejected _ = false

-- `Display`, the text of `format!("{error:#}")`.
unfoldable pub display : Error → Text
unfolding to_decimal
display suspended = codes "Sync is suspended"
display (mass_push_halted t) =
    codes "refusing to push "
    ++ (to_decimal t.deletes
        ++ (codes " deletes and "
            ++ (to_decimal t.puts
                ++ codes
                    " changes without approval; inspect the vault, then run `obsidian-sync-client approve-mass-push`")))
display (permanent_remote message status) = message
display (remote_file_not_found path) = codes "Remote file not found: " ++ path
display (auth_rejected reason) = codes "Auth failed: " ++ reason
display (other message) = message

-- `error.context(context)`, of an error that no caller downcasts.
unfoldable pub with_context : Text → Error → Error
unfolding display
with_context context e = other (context ++ (codes ": " ++ display e))

-- An `io::Error` is its message; `?` makes an `anyhow::Error` of it.
abbrev pub Io : Type 0 → Type 0 → Type 0
Io S A = Exec Text S A

abbrev pub Any : Type 0 → Type 0 → Type 0
Any S A = Exec Error S A

module _ {S A : Type 0} where
  abbrev from_io : Result Text A × S → Result Error A × S
  from_io (ok a, s) = (ok a, s)
  from_io (err e, s) = (err (other e), s)

  abbrev pub io : Io S A → Any S A
  io m s = from_io (m s)

module _ {S A : Type 0} {Q : A → S → Type 0} {R : S → Type 0} where
  -- `?` keeps a postcondition that does not read the error.
  pub Ensures-io :
      (m : Io S A) (s : S) → Ensures Q (λ _ s'. R s') (m s) → Ensures Q (λ _ s'. R s') (io m s)
  Ensures-io m s h = from (m s) h
    where
      from :
          (r : Result Text A × S)
          → Ensures Q (λ _ s'. R s') r
          → Ensures Q (λ _ s'. R s') (from_io r)
      from (ok a, s') h = record { post = h.post }
      from (err e, s') h = record { post = h.post }

-- ===== src/Http/Outcomes.antt =====
-- rust-client/src/transport.rs: how a reply to a push is read.
use obsidian_sync_engine.Base.{
  ℕ, Text, Bytes, codes, ◌≡◌, sym, ◌≤◌, ◌<◌, refl, ◌||◌, Option, none, some, ◌==◌, leb, Result, ok,
  err, arith, inl, inr, Ensures, ◌++◌,
}
use obsidian_sync_engine.Base.Tests.{nat_eq, Bool-cases}
use obsidian_sync_engine.Error.{Error, is_permanent_remote, with_context}
use obsidian_sync_engine.Protocol.{max_revision, parse_revision_response, is_valid_revision}
use obsidian_sync_engine.Http.{
  Wire, HttpTransport, Response, assert_ok, read_text, revision_of, upload_request, upload,
}

-- A reply whose body can be read as text.
abbrev pub reply : ℕ → Text → Result Text Bytes → Response
reply status text bytes = record { status = status; text = ok text; bytes = bytes }

module _ {W : Type 0} (wire : Wire W) where
  -- A reply of this status: a revision in range, or an error that is permanent exactly for 400 and
  -- 413.
  abbrev AnswersTo : ℕ → Result Error ℕ → Type 0
  AnswersTo status (ok r) = (status < 400) × (r ≤ max_revision)
  AnswersTo status (err e) = is_permanent_remote e ≡ (status == 413 || status == 400)

  parse_AnswersTo :
      (status : ℕ) (action text : Text) (field : Result Error (Option ℕ))
      → status < 400
      → wire.revision_field text ≡ field
      → AnswersTo status (elim (parse_revision_response wire.revision_field text) [
        | ok a ↦ ok a
        | err e ↦ err (with_context action e)
      ])
  unfolding parse_revision_response with_context is_valid_revision
  parse_AnswersTo status action text (err e) small h = rw h (ground arith)
  parse_AnswersTo status action text (ok none) small h = rw h (ground arith)
  parse_AnswersTo status action text (ok (some r)) small h =
      elim (Bool-cases (is_valid_revision r)) [
        | inl valid ↦ rw (h, valid) (small, ground arith)
        | inr out ↦ rw (h, out) (ground arith)
      ]

  revision_of_lem :
      (action text : Text) (status : ℕ) (bytes : Result Text Bytes)
      → AnswersTo status (revision_of wire action (reply status text bytes))
  unfolding revision_of read_text assert_ok
  revision_of_lem action text status bytes = elim (Bool-cases (status == 413 || status == 400)) [
    | inl permanent ↦ rw (revision_of, assert_ok, permanent) (sym permanent)
    | inr other ↦ elim (Bool-cases (leb 400 status)) [
      | inl big ↦ rw (revision_of, assert_ok, other, big) (sym other)
      | inr small ↦
          rw (revision_of, assert_ok, other, small)
            (parse_AnswersTo status action text (wire.revision_field text) (ground arith) refl)
    ]
  ]

  module _ (http : HttpTransport) where
    -- A reply whose body can be read decides an upload: a revision is returned only for a status
    -- below 400 and is a safe integer of JavaScript, and an error is one to give up on exactly for
    -- 400 and 413. One request is made.
    pub upload_lem :
        (path text : Text) (body : Bytes) (w w' : W) (status : ℕ) (bytes : Result Text Bytes)
        → wire.call (upload_request wire http path body) w ≡ (ok (reply status text bytes), w')
        → Ensures
            (λ r s'. (s' ≡ w') × (status < 400) × (r ≤ max_revision))
            (λ e s'. (s' ≡ w') × (is_permanent_remote e ≡ (status == 413 || status == 400)))
            (upload wire http path body w)
    unfolding upload
    upload_lem path text body w w' status bytes answered = rw answered (
        told (revision_of wire (codes "Upload of " ++ wire.debug path) (reply status text bytes))
          (revision_of_lem (codes "Upload of " ++ wire.debug path) text status bytes))
      where
        told :
            (r : Result Error ℕ)
            → AnswersTo status r
            → Ensures
                (λ r s'. (s' ≡ w') × (status < 400) × (r ≤ max_revision))
                (λ e s'. (s' ≡ w') × (is_permanent_remote e ≡ (status == 413 || status == 400)))
                (r, w')
        told (ok r) (small, top) = record { post = (refl, small, top) }
        told (err e) same = record { post = (refl, same) }

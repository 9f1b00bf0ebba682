-- ===== src/Fs/Contents.antt =====
-- What `SyncFs` promises of its text files: `content s p` is what a reader finds at `p`, the
-- backup of an interrupted write included, and `rest s` what no operation on a file touches.
-- The temporary file and the backup beside a journal are part of its content, not files of their
-- own. An operation that fails leaves the old content or the new one, and `append` a part of
-- its data.
use obsidian_sync_engine.Base.{
  Text, ◌≡◌, refl, ◌∙◌, ◌≢◌, ◌⊎◌, Option, none, some, [], ◌++◌, Ensures,
}
use obsidian_sync_engine.Base.Map.{is_some}
use obsidian_sync_engine.Fs.{SyncFs}

abbrev pub or_empty : Option Text → Text
or_empty none = []
or_empty (some t) = t

module _ {S G : Type 0} (content : S → Text → Option Text) (rest : S → G) where
  -- Nothing that is observed has changed.
  pub record Same (s s' : S) : Type 0 where
    pub files : (q : Text) → content s' q ≡ content s q
    pub others : rest s' ≡ rest s

  -- Only the file at `p` has changed.
  pub record SameBut (p : Text) (s s' : S) : Type 0 where
    pub files : (q : Text) → p ≢ q → content s' q ≡ content s q
    pub others : rest s' ≡ rest s

  pub record HasContents (fs : SyncFs S) : Type 0 where
    pub on_exists :
        (p : Text) (s : S)
        → Ensures
            (λ b s'. (b ≡ is_some (content s p)) × Same s s')
            (λ _ s'. Same s s')
            (fs.exists p s)
    pub on_read :
        (p : Text) (s : S)
        → Ensures (λ t s'. (content s p ≡ some t) × Same s s') (λ _ s'. Same s s') (fs.read p s)
    pub on_write :
        (p t : Text) (s : S)
        → Ensures
            (λ _ s'. (content s' p ≡ some t) × SameBut p s s')
            (λ _ s'. ((content s' p ≡ content s p) ⊎ (content s' p ≡ some t)) × SameBut p s s')
            (fs.write p t s)
    pub on_append :
        (p t : Text) (s : S)
        → Ensures
            (λ _ s'. (content s' p ≡ some (or_empty (content s p) ++ t)) × SameBut p s s')
            (λ _ s'.
              ((content s' p ≡ content s p)
                ⊎ ((a b : Text) × (t ≡ a ++ b)
                    × (content s' p ≡ some (or_empty (content s p) ++ a))))
              × SameBut p s s')
            (fs.append p t s)

module _ {S G : Type 0} {content : S → Text → Option Text} {rest : S → G} where
  pub Same-refl : (s : S) → Same content rest s s
  Same-refl s = record { files = λ q. refl; others = refl }

  pub Same-trans :
      {s t u : S} → Same content rest s t → Same content rest t u → Same content rest s u
  Same-trans h k = record { files = λ q. k.files q ∙ h.files q; others = k.others ∙ h.others }

  pub SameBut-of_Same : (p : Text) {s t : S} → Same content rest s t → SameBut content rest p s t
  SameBut-of_Same p h = record { files = λ q _. h.files q; others = h.others }

  pub SameBut-trans :
      {p : Text} {s t u : S}
      → SameBut content rest p s t
      → SameBut content rest p t u
      → SameBut content rest p s u
  SameBut-trans h k = record {
    files = λ q d. k.files q d ∙ h.files q d;
    others = k.others ∙ h.others;
  }

-- ===== src/Jsonl/Journal.antt =====
-- rust-client/src/jsonl.rs: what a journal file holds, read and written through a codec that
-- reads back what it writes on one line.
use native.Mathlib.Nat.{add-zero, add_assoc}
use obsidian_sync_engine.Base.{
  ℕ, suc, ◌+◌, Text, split, contains_char, is_blank, Bool, true, false, not, ◌≡◌, ◌≢◌, ◌⊎◌, refl,
  Option, none, some, List, [], ◌∷◌, ◌++◌, append-nil, append_assoc, arith, if◌then◌else◌, map,
  length, All, ok, Ensures, Ensures-continue, Ensures-weaken, pure, ◌>>=◌, ◌∙◌, ap, sym,
}
use obsidian_sync_engine.Base.Tests.{nat_eq}
use obsidian_sync_engine.Base.Map.{is_some}
use obsidian_sync_engine.Error.{io, Ensures-io}
use obsidian_sync_engine.Fs.{SyncFs}
use obsidian_sync_engine.Fs.Contents.{or_empty, Same, SameBut, HasContents, Same-trans}
use obsidian_sync_engine.Jsonl.{
  Codec, non_empty_lines, render_lines, write_lines, parse_lines, read_lines,
}

-- What `serde_json` promises of the values in `P`: a value is printed as one line of JSON, and
-- parsing reads it back.
pub record IsLawful {T : Type 0} (codec : Codec T) (P : T → Type 0) (render : T → Text)
    : Type 0 where
  pub prints : (v : T) → P v → codec.to_string v ≡ ok (render v)
  pub parses : (v : T) → P v → codec.from_str (render v) ≡ ok v
  pub one_line : (v : T) → P v → contains_char b'\n' (render v) ≡ false
  pub not_blank : (v : T) → P v → is_blank (render v) ≡ false

one-add : (n : ℕ) → 1 + n ≡ suc n
one-add n = omega arith

-- A line up to the separator is the first piece of a split.
pub split-append :
    (sep : ℕ) (line text : Text)
    → contains_char sep line ≡ false
    → split sep (line ++ (sep ∷ text)) ≡ line ∷ split sep text
split-append sep [] text h = ground arith
split-append sep (c ∷ line) text h = ground (arith, split-append sep line text)

pub split_whole :
    (sep : ℕ) (line : Text) → contains_char sep line ≡ false → split sep line ≡ line ∷ []
split_whole sep [] h = refl
split_whole sep (c ∷ line) h = ground (arith, split_whole sep line)

module _ {T : Type 0} (render : T → Text) where
  -- The text of a journal of these values.
  abbrev pub journal_text : List T → Text
  journal_text [] = []
  journal_text (v ∷ vs) = render v ++ (b'\n' ∷ journal_text vs)

  pub journal_text-append :
      (vs ws : List T) → journal_text (vs ++ ws) ≡ journal_text vs ++ journal_text ws
  journal_text-append [] ws = refl
  journal_text-append (v ∷ vs) ws = rw (journal_text-append vs ws, append_assoc)

module _ {S T : Type 0} (render : T → Text) (content : S → Text → Option Text) (path : Text) where
  -- The journal at `path` holds these values; a missing file is an empty journal.
  abbrev pub Holds : S → List T → Type 0
  Holds s vs = or_empty (content s path) ≡ journal_text render vs

append-cons-ne-nil : (a b : Text) (c : ℕ) → a ++ (c ∷ b) ≢ []
append-cons-ne-nil [] b c e = cc
append-cons-ne-nil (d ∷ a) b c e = cc

missing :
    {T : Type 0} (render : T → Text) (vs : List T) (o : Option Text)
    → false ≡ is_some o
    → or_empty o ≡ journal_text render vs
    → vs ≡ []
missing render [] o e h = refl
missing render (v ∷ vs) none e h =
    absurd (append-cons-ne-nil (render v) (journal_text render vs) b'\n' (sym h))
missing render (v ∷ vs) (some t) e h = cc

module _ {T : Type 0} {codec : Codec T} {P : T → Type 0} {render : T → Text}
    (L : IsLawful codec P render) where
  pub render_lines-eq :
      (body : Text) (vs : List T)
      → All P vs
      → render_lines codec body vs ≡ ok (body ++ journal_text render vs)
  unfolding render_lines
  render_lines-eq body [] h = rw append-nil
  render_lines-eq body (v ∷ vs) (p, h) =
      rw (L.prints v p, render_lines)
        (render_lines-eq (body ++ (render v ++ (b'\n' ∷ []))) vs h ∙ simp append_assoc)

  pub non_empty_lines-journal :
      (vs : List T) (tail : Text)
      → All P vs
      → non_empty_lines (journal_text render vs ++ tail) ≡ map render vs ++ non_empty_lines tail
  non_empty_lines-journal [] tail h = refl
  non_empty_lines-journal (v ∷ vs) tail (p, h) =
      rw
        (
          append_assoc,
          split-append b'\n' (render v) (journal_text render vs ++ tail) (L.one_line v p),
        )
        (rw (L.not_blank v p) (ap (◌∷◌ (render v)) (non_empty_lines-journal vs tail h)))

  module _ {S : Type 0} (fs : SyncFs S) (path : Text) where
    -- The loop reads the lines of a journal one by one, and goes on with what follows them.
    pub parse_lines-append :
        (total index : ℕ) (parsed vs : List T) (lines : List Text) (s : S)
        → All P vs
        → parse_lines fs codec path total index parsed (map render vs ++ lines) s
          ≡ parse_lines fs codec path total (index + length vs) (parsed ++ vs) lines s
    unfolding parse_lines
    parse_lines-append total index parsed [] lines s h = rw (append-nil, add-zero)
    parse_lines-append total index parsed (v ∷ vs) lines s (p, h) =
        rw (L.parses v p, parse_lines)
          (parse_lines-append total (index + 1) (parsed ++ (v ∷ [])) vs lines s h
            ∙ rw (append_assoc, add_assoc, one-add))

    -- Reading a journal whose last line is whole.
    pub parse_lines_whole :
        (total : ℕ) (vs : List T) (s : S)
        → All P vs
        → parse_lines fs codec path total 0 [] (map render vs) s ≡ (ok vs, s)
    unfolding parse_lines
    parse_lines_whole total vs s h =
        rw (← append-nil (map render vs)) (parse_lines-append total 0 [] vs [] s h)

    parse_lines_text :
        (vs : List T) (text : Text) (s : S)
        → All P vs
        → text ≡ journal_text render vs
        → parse_lines fs codec path (length (non_empty_lines text)) 0 [] (non_empty_lines text) s
          ≡ (ok vs, s)
    parse_lines_text vs text s h e =
        let lines : non_empty_lines text ≡ map render vs =
          ap non_empty_lines (e ∙ sym (append-nil (journal_text render vs)))
          ∙ non_empty_lines-journal vs [] h
          ∙ append-nil (map render vs) in
        rw lines (parse_lines_whole _ vs s h)

    module _ {G : Type 0} {content : S → Text → Option Text} {rest : S → G}
        (H : HasContents content rest fs) where
      read_present :
          (vs : List T) (s : S) (b : Bool) (s' : S)
          → All P vs
          → Holds render content path s vs
          → (b ≡ is_some (content s path)) × Same content rest s s'
          → Ensures
              (λ r s''. (r ≡ vs) × Same content rest s s'')
              (λ _ s''. Same content rest s s'')
              ((if not b then pure [] else (do
                text ← io (fs.read path)
                parse_lines fs codec path
                    (length (non_empty_lines text))
                    0
                    []
                    (non_empty_lines text)))
                s')
      read_present vs s false s' h holds (e, same) = record {
        post = (sym (missing render vs (content s path) e holds), same);
      }
      read_present vs s true s' h holds (e, same) =
          Ensures-continue (io (fs.read path) s') _
            (Ensures-weaken (io (fs.read path) s')
              (Ensures-io (fs.read path) s' (H.on_read path s')) (λ t s'' q. q)
              (λ _ s'' q. Same-trans same q))
            λ t s'' q.
              rw (parse_lines_text vs t s'' h (ap or_empty (sym q.0 ∙ same.files path) ∙ holds))
                (record { post = (refl, Same-trans same q.1) })

      pub read_lines-Holds :
          (vs : List T) (s : S)
          → All P vs
          → Holds render content path s vs
          → Ensures
              (λ r s'. (r ≡ vs) × Same content rest s s')
              (λ _ s'. Same content rest s s')
              (read_lines fs codec path s)
      unfolding read_lines
      read_lines-Holds vs s h holds =
          Ensures-continue (io (fs.exists path) s) _
            (Ensures-io (fs.exists path) s (H.on_exists path s))
            λ b s' q. read_present vs s b s' h holds q

      -- A write that returns leaves these values in the journal, one that fails its old text or
      -- the new one. No other file changes.
      pub write_lines-Holds :
          (vs : List T) (s : S)
          → All P vs
          → Ensures
              (λ _ s'.
                (content s' path ≡ some (journal_text render vs)) × SameBut content rest path s s')
              (λ _ s'.
                ((content s' path ≡ content s path)
                  ⊎ (content s' path ≡ some (journal_text render vs)))
                × SameBut content rest path s s')
              (write_lines fs codec path vs s)
      unfolding write_lines
      write_lines-Holds vs s h = rw (render_lines-eq [] vs h) (
          Ensures-io (fs.write path (journal_text render vs)) s
            (H.on_write path (journal_text render vs) s))

-- ===== src/Tests/Codecs.antt =====
-- A line format for each journal, with the laws that the program relies on.
use obsidian_sync_engine.Base.{
  ℕ, zero, suc, ◌+◌, Text, codes, contains_char, is_blank, ◌≡◌, refl, false, ◌||◌, Option, none,
  some, [], ◌∷◌, if◌then◌else◌, ◌==◌, arith, Result, ok, err, TextMap, ap, sym, ◌∙◌,
}
use obsidian_sync_engine.Base.Tests.{nat_eq}
use obsidian_sync_engine.Op.{OpKind, put, delete, InboxOp}
use obsidian_sync_engine.Error.{Error, other}
use obsidian_sync_engine.Jsonl.{Codec}
use obsidian_sync_engine.Jsonl.Journal.{IsLawful}
use obsidian_sync_engine.Outbox.{OutboxOp}
use obsidian_sync_engine.Tracker.{Entry, ManifestFile}

-- A number as that many marks, and a space.
unary : ℕ → Text → Text
unary zero rest = b' ' ∷ rest
unary (suc n) rest = b'x' ∷ unary n rest

parse_unary : ℕ → Text → ℕ × Text
parse_unary n [] = (n, [])
parse_unary n (c ∷ cs) = let more = parse_unary (suc n) cs in if c == b'x' then more else (n, cs)

parse_unary-unary : (n k : ℕ) (rest : Text) → parse_unary k (unary n rest) ≡ (k + n, rest)
unfolding unary parse_unary
parse_unary-unary zero k rest = ground arith
parse_unary-unary (suc n) k rest = ground (arith, parse_unary-unary n (suc k) rest)

one_line-unary :
    (n : ℕ) (rest : Text)
    → contains_char b'\n' rest ≡ false
    → contains_char b'\n' (unary n rest) ≡ false
unfolding unary
one_line-unary zero rest h = ground arith
one_line-unary (suc n) rest h = ground (arith, one_line-unary n rest h)

abbrev tag : OpKind → ℕ
tag put = b'p'
tag delete = b'd'

abbrev kind : ℕ → OpKind
kind c = if c == b'p' then put else delete

abbrev bad_line : {A : Type 0} → Result Error A
bad_line = err (other (codes "bad line"))

abbrev pub inbox_line : InboxOp → Text
unfolding unary
inbox_line op = tag op.op ∷ unary op.rev op.path

parse_inbox : Text → Result Error InboxOp
unfolding parse_unary
parse_inbox [] = bad_line
parse_inbox (c ∷ cs) =
    if c == b'p' || c == b'd'
    then (let (n, path) = parse_unary 0 cs in ok (record { rev = n; op = kind c; path = path }))
    else bad_line

unfoldable pub inbox_codec : Codec InboxOp
unfolding parse_inbox unary
inbox_codec = record { to_string = λ op. ok (inbox_line op); from_str = parse_inbox }

abbrev pub HasPlainPath : InboxOp → Type 0
HasPlainPath op = contains_char b'\n' op.path ≡ false

parse_inbox_lem :
    (n : ℕ) (op : OpKind) (path : Text)
    → parse_inbox (tag op ∷ unary n path) ≡ ok (record { rev = n; op = op; path = path })
unfolding parse_inbox
parse_inbox_lem n put path = ground (arith, parse_unary-unary n 0 path)
parse_inbox_lem n delete path = ground (arith, parse_unary-unary n 0 path)

one_line_inbox :
    (op : OpKind) (n : ℕ) (path : Text)
    → contains_char b'\n' path ≡ false
    → contains_char b'\n' (tag op ∷ unary n path) ≡ false
one_line_inbox put n path h = one_line-unary n path h
one_line_inbox delete n path h = one_line-unary n path h

solid_inbox : (op : OpKind) (line : Text) → is_blank (tag op ∷ line) ≡ false
solid_inbox put line = refl
solid_inbox delete line = refl

pub inbox_codec-IsLawful : IsLawful inbox_codec HasPlainPath inbox_line
unfolding inbox_codec
inbox_codec-IsLawful = record {
  prints = λ op h. refl;
  parses = λ op h. parse_inbox_lem op.rev op.op op.path;
  one_line = λ op h. one_line_inbox op.op op.rev op.path h;
  not_blank = λ op h. solid_inbox op.op (unary op.rev op.path);
}

-- The base revision of a delete.
base_line : Option ℕ → Text → Text
unfolding unary
base_line none path = b'n' ∷ path
base_line (some r) path = b's' ∷ unary r path

abbrev pub outbox_line : OutboxOp → Text
unfolding unary base_line
outbox_line op = tag op.op ∷ unary op.ts (base_line op.base_revision op.path)

parse_base : OpKind → ℕ → Text → Result Error OutboxOp
unfolding parse_unary
parse_base op ts [] = bad_line
parse_base op ts (c ∷ cs) =
    if c == b'n'
    then ok (record { op = op; path = cs; ts = ts; base_revision = none })
    else (let (r, path) = parse_unary 0 cs in
        ok (record { op = op; path = path; ts = ts; base_revision = some r }))

parse_outbox : Text → Result Error OutboxOp
unfolding parse_unary parse_base
parse_outbox [] = bad_line
parse_outbox (c ∷ cs) =
    if c == b'p' || c == b'd'
    then (let (n, rest) = parse_unary 0 cs in parse_base (kind c) n rest)
    else bad_line

unfoldable pub outbox_codec : Codec OutboxOp
unfolding parse_outbox base_line unary
outbox_codec = record { to_string = λ op. ok (outbox_line op); from_str = parse_outbox }

abbrev pub HasPlainTarget : OutboxOp → Type 0
HasPlainTarget op = contains_char b'\n' op.path ≡ false

parse_base_lem :
    (op : OpKind) (ts : ℕ) (base : Option ℕ) (path : Text)
    → parse_base op ts (base_line base path)
      ≡ ok (record { op = op; path = path; ts = ts; base_revision = base })
unfolding parse_base base_line
parse_base_lem op ts none path = refl
parse_base_lem op ts (some r) path = ground (arith, parse_unary-unary r 0 path)

parse_outbox_lem :
    (op : OpKind) (ts : ℕ) (base : Option ℕ) (path : Text)
    → parse_outbox (tag op ∷ unary ts (base_line base path))
      ≡ ok (record { op = op; path = path; ts = ts; base_revision = base })
unfolding parse_outbox
parse_outbox_lem put ts base path =
    ground (arith, parse_unary-unary ts 0 (base_line base path), parse_base_lem put ts base path)
parse_outbox_lem delete ts base path =
    ground (arith, parse_unary-unary ts 0 (base_line base path), parse_base_lem delete ts base path)

one_line_base :
    (base : Option ℕ) (path : Text)
    → contains_char b'\n' path ≡ false
    → contains_char b'\n' (base_line base path) ≡ false
unfolding base_line
one_line_base none path h = ground arith
one_line_base (some r) path h = ground (arith, one_line-unary r path h)

one_line_outbox :
    (op : OpKind) (ts : ℕ) (base : Option ℕ) (path : Text)
    → contains_char b'\n' path ≡ false
    → contains_char b'\n' (tag op ∷ unary ts (base_line base path)) ≡ false
one_line_outbox put ts base path h =
    one_line-unary ts (base_line base path) (one_line_base base path h)
one_line_outbox delete ts base path h =
    one_line-unary ts (base_line base path) (one_line_base base path h)

pub outbox_codec-IsLawful : IsLawful outbox_codec HasPlainTarget outbox_line
unfolding outbox_codec
outbox_codec-IsLawful = record {
  prints = λ op h. refl;
  parses = λ op h. parse_outbox_lem op.op op.ts op.base_revision op.path;
  one_line = λ op h. one_line_outbox op.op op.ts op.base_revision op.path h;
  not_blank = λ op h. solid_inbox op.op (unary op.ts (base_line op.base_revision op.path));
}

-- A manifest of files that are agreed on: its revision alone is written.
abbrev pub HasFiles : TextMap Entry → ManifestFile → Type 0
HasFiles files m = m ≡ record { version = 1; revision = m.revision; files = files }

abbrev pub manifest_line : ManifestFile → Text
unfolding unary
manifest_line m = b'm' ∷ unary m.revision []

parse_manifest : TextMap Entry → Text → Result Error ManifestFile
unfolding parse_unary
parse_manifest files [] = bad_line
parse_manifest files (c ∷ cs) =
    let (n, rest) = parse_unary 0 cs in ok (record { version = 1; revision = n; files = files })

unfoldable pub manifest_codec : TextMap Entry → Codec ManifestFile
unfolding parse_manifest unary
manifest_codec files = record {
  to_string = λ m. ok (manifest_line m);
  from_str = parse_manifest files;
}

parse_manifest_lem :
    (files : TextMap Entry) (n : ℕ)
    → parse_manifest files (b'm' ∷ unary n [])
      ≡ ok (record { version = 1; revision = n; files = files })
unfolding parse_manifest
parse_manifest_lem files n = ground (arith, parse_unary-unary n 0 [])

pub manifest_codec-IsLawful :
    (files : TextMap Entry) → IsLawful (manifest_codec files) (HasFiles files) manifest_line
unfolding manifest_codec
manifest_codec-IsLawful files = record {
  prints = λ m h. refl;
  parses = λ m h. parse_manifest_lem files m.revision ∙ ap ok (sym h);
  one_line = λ m h. one_line-unary m.revision [] refl;
  not_blank = λ m h. refl;
}

-- ===== src/Paths/Encode.antt =====
-- rust-client/src/paths.rs: `encode_uri_component` against a decoder.
use obsidian_sync_engine.Base.{
  ℕ, ◌+◌, ◌-◌, ◌*◌, ◌/◌, ◌%◌, ◌<◌, Text, Bytes, utf8_char, to_bytes, ◌≡◌, refl, ap, subst, inl, inr,
  true, false, ◌||◌, [], ◌∷◌, arith, ltb, if◌then◌else◌, ◌==◌, All, All-append,
}
use obsidian_sync_engine.Base.Tests.{nat_eq, nat_beq_iff, Bool-cases}
use obsidian_sync_engine.Paths.{is_unreserved, hex_digit, encode_bytes, encode_uri_component}

-- The value of an upper-case hexadecimal digit.
abbrev hex_value : ℕ → ℕ
hex_value c = if ltb c 65 then c - b'0' else c - 55

-- `decodeURIComponent`, up to the bytes.
pub decode_bytes : Text → Bytes
decode_bytes [] = []
decode_bytes (c ∷ []) = c ∷ []
decode_bytes (c ∷ d ∷ []) = c ∷ d ∷ []
decode_bytes (c ∷ d ∷ e ∷ cs) =
    let plain = decode_bytes (d ∷ e ∷ cs) in
    let escaped = decode_bytes cs in
    if c == b'%' then (hex_value d * 16 + hex_value e) ∷ escaped else c ∷ plain

decode-plain :
    (c : ℕ) (cs : Text) → (c == b'%') ≡ false → decode_bytes (c ∷ cs) ≡ c ∷ decode_bytes cs
unfolding decode_bytes
decode-plain c [] h = refl
decode-plain c (d ∷ []) h = refl
decode-plain c (d ∷ e ∷ cs) h = rw h

hex_value-hex_digit : (d : ℕ) → d < 16 → hex_value (hex_digit d) ≡ d
hex_value-hex_digit d h = ground arith

decode-escaped :
    (b : ℕ) (cs : Text)
    → b < 256
    → decode_bytes (b'%' ∷ hex_digit (b / 16) ∷ hex_digit (b % 16) ∷ cs) ≡ b ∷ decode_bytes cs
unfolding decode_bytes
decode-escaped b cs h =
    rw (hex_value-hex_digit (b / 16) (omega arith), hex_value-hex_digit (b % 16) (omega arith))
      (ap (λ x. x ∷ decode_bytes cs) (omega arith))

unreserved_plain : (b : ℕ) → is_unreserved b ≡ true → (b == b'%') ≡ false
unreserved_plain b h = elim (Bool-cases (b == b'%')) [
  | inl e ↦ absurd_unreserved (subst (λ c. is_unreserved c ≡ true) ((nat_beq_iff b b'%').0 e) h)
  | inr e ↦ e
]
  where
    absurd_unreserved : is_unreserved b'%' ≡ true → (b == b'%') ≡ false
    absurd_unreserved k = cc

decode-encode_bytes :
    (bytes : Bytes) → All (λ b. b < 256) bytes → decode_bytes (encode_bytes bytes) ≡ bytes
unfolding encode_bytes
decode-encode_bytes [] h = unfold decode_bytes in refl
decode-encode_bytes (b ∷ bytes) (p, h) = elim (Bool-cases (is_unreserved b)) [
  | inl plain ↦
      rw (plain, decode-plain b (encode_bytes bytes) (unreserved_plain b plain))
        (ap (◌∷◌ b) (decode-encode_bytes bytes h))
  | inr other ↦
      rw (other, decode-escaped b (encode_bytes bytes) p) (ap (◌∷◌ b) (decode-encode_bytes bytes h))
]

abbrev pub IsSafe : ℕ → Type 0
IsSafe c = (is_unreserved c || c == b'%') ≡ true

IsSafe-digit : (d : ℕ) → d < 16 → IsSafe (hex_digit d)
IsSafe-digit d h = ground arith

IsSafe-unreserved : (c : ℕ) → is_unreserved c ≡ true → IsSafe c
IsSafe-unreserved c h = rw h

encode_bytes-IsSafe : (bytes : Bytes) → All (λ b. b < 256) bytes → All IsSafe (encode_bytes bytes)
unfolding encode_bytes
encode_bytes-IsSafe [] h = tt
encode_bytes-IsSafe (b ∷ bytes) (p, h) = elim (Bool-cases (is_unreserved b)) [
  | inl plain ↦ rw plain (IsSafe-unreserved b plain, encode_bytes-IsSafe bytes h)
  | inr other ↦ rw other (
    refl,
    (
      IsSafe-digit (b / 16) (omega arith),
      (IsSafe-digit (b % 16) (omega arith), encode_bytes-IsSafe bytes h),
    ),
  )
]

-- A character is a Unicode code point.
abbrev pub IsChar : ℕ → Type 0
IsChar c = c < 0x110000

utf8_char-bytes : (c : ℕ) → IsChar c → All (λ b. b < 256) (utf8_char c)
utf8_char-bytes c h = ground arith

to_bytes-bytes : (t : Text) → All IsChar t → All (λ b. b < 256) (to_bytes t)
to_bytes-bytes [] h = tt
to_bytes-bytes (c ∷ t) (p, h) =
    All-append (λ b. b < 256) (utf8_char c) (to_bytes t) (utf8_char-bytes c p) (to_bytes-bytes t h)

-- Decoding an encoded text of code points below 0x110000 gives its UTF-8 bytes, and the encoded
-- text holds only unreserved characters and `%`.
pub encode_uri_component_lem :
    (value : Text)
    → All IsChar value
    → (decode_bytes (encode_uri_component value) ≡ to_bytes value)
      × All IsSafe (encode_uri_component value)
unfolding encode_uri_component
encode_uri_component_lem value h =
    let bytes = to_bytes-bytes value h in
    (decode-encode_bytes (to_bytes value) bytes, encode_bytes-IsSafe (to_bytes value) bytes)

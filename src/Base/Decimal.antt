-- ===== src/Base/Decimal.antt =====
-- `str::parse` at `usize`, on a machine of 64 bits, and the numbers that `to_decimal` prints.
use Prim.Native.Nat.{ℕ, zero, suc, ◌+◌, ◌-◌, ◌*◌, ◌/◌, ◌%◌, ◌^◌, ◌<◌}
use mathlib.Core.Path.{◌≡◌, refl, ap, ◌∙◌}
use mathlib.Core.Logic.{inl, inr}
use mathlib.Core.Bool.{Bool, true, false}
use mathlib.Core.List.{[], ◌∷◌, ◌++◌}
use native.Mathlib.Omega.{arith}
use obsidian_sync_engine.Base.Tests.{if◌then◌else◌, ltb, Bool-cases, ◌==◌, nat_eq}
use obsidian_sync_engine.Base.Str.{Text, codes, is_ascii_digit, decimal_digits, to_decimal}
use obsidian_sync_engine.Base.Run.{Result, ok, err}

-- The `Display` of a `ParseIntError`.
abbrev empty_error : Text
empty_error = codes "cannot parse integer from empty string"

abbrev digit_error : Text
digit_error = codes "invalid digit found in string"

abbrev overflow_error : Text
overflow_error = codes "number too large to fit in target type"

-- One more digit, with the multiplication and the addition checked.
unfoldable add_digit : ℕ → ℕ → Result Text ℕ
add_digit n c =
    if is_ascii_digit c
    then (if ltb (n * 10 + (c - b'0')) (2 ^ 64)
        then ok (n * 10 + (c - b'0'))
        else err overflow_error)
    else err digit_error

unfoldable parse_digits : Result Text ℕ → Text → Result Text ℕ
unfolding add_digit
parse_digits (err e) text = err e
parse_digits (ok n) [] = ok n
parse_digits (ok n) (c ∷ text) = parse_digits (add_digit n c) text

unfoldable pub parse_usize : Text → Result Text ℕ
unfolding parse_digits
parse_usize [] = err empty_error
parse_usize (c ∷ []) = if c == b'+' then err digit_error else parse_digits (ok 0) (c ∷ [])
parse_usize (c ∷ d ∷ text) =
    if c == b'+' then parse_digits (ok 0) (d ∷ text) else parse_digits (ok 0) (c ∷ d ∷ text)

parse_digits-append :
    (r : Result Text ℕ) (s t : Text) → parse_digits r (s ++ t) ≡ parse_digits (parse_digits r s) t
unfolding parse_digits
parse_digits-append (err e) s [] = refl
parse_digits-append (err e) s (c ∷ t) = refl
parse_digits-append (ok n) [] t = refl
parse_digits-append (ok n) (c ∷ s) t = parse_digits-append (add_digit n c) s t

add_digit_lem : (n d : ℕ) → d < 10 → n * 10 + d < 2 ^ 64 → add_digit n (b'0' + d) ≡ ok (n * 10 + d)
unfolding add_digit
add_digit_lem n d h k = ground arith

last_digit : (n : ℕ) → (n / 10) * 10 + n % 10 ≡ n
last_digit n = omega arith

parse_last :
    (n d : ℕ)
    → d < 10
    → n * 10 + d < 2 ^ 64
    → parse_digits (ok n) ((b'0' + d) ∷ []) ≡ ok (n * 10 + d)
unfolding parse_digits
parse_last n d h k = ap (λ r. parse_digits r []) (add_digit_lem n d h k)

digits_lem :
    (fuel n : ℕ) → n < fuel → n < 2 ^ 64 → parse_digits (ok 0) (decimal_digits fuel n) ≡ ok n
unfolding parse_digits decimal_digits
digits_lem zero n h k = ground arith
digits_lem (suc fuel) n h k = elim (Bool-cases (ltb n 10)) [
  | inl small ↦ rw small (parse_last 0 n (ground arith) (omega arith) ∙ ap ok (omega arith))
  | inr large ↦ rw large (
      parse_digits-append (ok 0) (decimal_digits fuel (n / 10)) ((b'0' + n % 10) ∷ [])
      ∙ (ap (λ r. parse_digits r ((b'0' + n % 10) ∷ []))
            (digits_lem fuel (n / 10) (ground arith) (omega arith))
          ∙ (parse_last (n / 10) (n % 10) (omega arith) (rw (last_digit n) k)
              ∙ ap ok (last_digit n))))
]

starts_digit : Text → Bool
starts_digit [] = false
starts_digit (c ∷ text) = is_ascii_digit c

starts_digit-append : (s t : Text) → starts_digit s ≡ true → starts_digit (s ++ t) ≡ true
unfolding starts_digit
starts_digit-append [] t h = ground arith
starts_digit-append (c ∷ s) t h = h

decimal-starts_digit : (fuel n : ℕ) → n < fuel → starts_digit (decimal_digits fuel n) ≡ true
unfolding starts_digit decimal_digits
decimal-starts_digit zero n h = ground arith
decimal-starts_digit (suc fuel) n h = elim (Bool-cases (ltb n 10)) [
  | inl small ↦ rw small (ground arith)
  | inr large ↦ rw large (
      starts_digit-append (decimal_digits fuel (n / 10)) _
        (decimal-starts_digit fuel (n / 10) (ground arith)))
]

not_sign : (c : ℕ) → is_ascii_digit c ≡ true → (c == b'+') ≡ false
not_sign c h = ground arith

parse_usize_unsigned : (t : Text) → starts_digit t ≡ true → parse_usize t ≡ parse_digits (ok 0) t
unfolding parse_usize starts_digit
parse_usize_unsigned [] h = ground arith
parse_usize_unsigned (c ∷ []) h = rw (not_sign c h) refl
parse_usize_unsigned (c ∷ d ∷ t) h = rw (not_sign c h) refl

pub parse_usize-to_decimal : (n : ℕ) → n < 2 ^ 64 → parse_usize (to_decimal n) ≡ ok n
unfolding to_decimal
parse_usize-to_decimal n h =
    parse_usize_unsigned (decimal_digits (suc n) n) (decimal-starts_digit (suc n) n (omega arith))
    ∙ digits_lem (suc n) n (omega arith) h

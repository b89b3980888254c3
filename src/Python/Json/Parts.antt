-- ===== src/Python/Json/Parts.antt =====
-- The parts of a number in front of a comma, a closing bracket or the end of the text.
use pynq_sdk.Prelude.{ℕ, ◌≡◌, refl, Bool, true, ◌||◌, [], ◌∷◌, ◌++◌, arith, ◌==◌}
use pynq_sdk.Python.Text.{Text}
use pynq_sdk.Python.Json.Numbers.{
  is_digit, with_digits, span_digits, whole_part, sign_part, fraction_part, exponent_sign,
  exponent_part,
}

-- What follows a value of a list or of a dict, or nothing.
abbrev pub is_delimiter : ℕ → Bool
is_delimiter c = c == b',' || c == b']' || c == b'}'

abbrev pub Delimited : Text → Type 0
Delimited [] = Unit {0}
Delimited (c ∷ s) = is_delimiter c ≡ true

-- A part of a number reads the same in front of a delimiter.
abbrev pub behind : Text → Text × Text → Text × Text
behind rest (s, t) = (s, t ++ rest)

sign_part-Delimited : (s : Text) → Delimited s → sign_part s ≡ ([], s)
unfolding sign_part
sign_part-Delimited [] d = refl
sign_part-Delimited (c ∷ s) d = ground arith

span_digits-Delimited : (s : Text) → Delimited s → span_digits s ≡ ([], s)
unfolding span_digits is_digit
span_digits-Delimited [] d = refl
span_digits-Delimited (c ∷ s) d = ground arith

whole_part-Delimited : (s : Text) → Delimited s → whole_part s ≡ ([], s)
unfolding whole_part span_digits is_digit
whole_part-Delimited [] d = refl
whole_part-Delimited (c ∷ s) d = ground arith

fraction_part-Delimited : (s : Text) → Delimited s → fraction_part s ≡ ([], s)
unfolding fraction_part
fraction_part-Delimited [] d = refl
fraction_part-Delimited (c ∷ s) d = ground arith

exponent_sign-Delimited : (s : Text) → Delimited s → exponent_sign s ≡ ([], s)
unfolding exponent_sign
exponent_sign-Delimited [] d = refl
exponent_sign-Delimited (c ∷ s) d = ground arith

exponent_part-Delimited : (s : Text) → Delimited s → exponent_part s ≡ ([], s)
unfolding exponent_part
exponent_part-Delimited [] d = refl
exponent_part-Delimited (c ∷ s) d = ground arith

with_digits-behind :
    (rest prefix whole : Text) (p : Text × Text)
    → with_digits prefix (whole ++ rest) (behind rest p) ≡ behind rest (with_digits prefix whole p)
with_digits-behind rest prefix whole ([], t) = refl
with_digits-behind rest prefix whole (d ∷ ds, t) = refl

module _ (rest : Text) (d : Delimited rest) where
  pub sign_part-append : (s : Text) → sign_part (s ++ rest) ≡ behind rest (sign_part s)
  unfolding sign_part
  sign_part-append [] = sign_part-Delimited rest d
  sign_part-append (c ∷ s) = ground arith

  span_digits-append : (s : Text) → span_digits (s ++ rest) ≡ behind rest (span_digits s)
  unfolding span_digits is_digit
  span_digits-append [] = span_digits-Delimited rest d
  span_digits-append (c ∷ s) = ground (arith, span_digits-append s)

  pub whole_part-append : (s : Text) → whole_part (s ++ rest) ≡ behind rest (whole_part s)
  unfolding whole_part span_digits is_digit
  whole_part-append [] = whole_part-Delimited rest d
  whole_part-append (c ∷ s) = ground (arith, span_digits-append (c ∷ s))

  pub fraction_part-append : (s : Text) → fraction_part (s ++ rest) ≡ behind rest (fraction_part s)
  unfolding fraction_part
  fraction_part-append [] = fraction_part-Delimited rest d
  fraction_part-append (c ∷ s) =
      ground (arith, span_digits-append s, with_digits-behind rest (c ∷ []) (c ∷ s) (span_digits s))

  exponent_sign-append : (s : Text) → exponent_sign (s ++ rest) ≡ behind rest (exponent_sign s)
  unfolding exponent_sign
  exponent_sign-append [] = exponent_sign-Delimited rest d
  exponent_sign-append (c ∷ s) = ground arith

  pub exponent_part-append : (s : Text) → exponent_part (s ++ rest) ≡ behind rest (exponent_part s)
  unfolding exponent_part
  exponent_part-append [] = exponent_part-Delimited rest d
  exponent_part-append (c ∷ s) = ground (
    arith,
    exponent_sign-append s,
    span_digits-append (exponent_sign s).1,
    with_digits-behind rest (c ∷ (exponent_sign s).0) (c ∷ s) (span_digits (exponent_sign s).1),
  )

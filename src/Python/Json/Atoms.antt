-- ===== src/Python/Json/Atoms.antt =====
-- Numbers and constants are read in front of a comma, a closing bracket or the end of the text.
use pynq_sdk.Prelude.{
  ℕ, ◌≡◌, refl, Bool, true, false, not, ◌||◌, ◌&&◌, Option, none, some, List, [], ◌∷◌, ◌++◌, arith,
  ◌==◌, leb,
}
use pynq_sdk.Python.Text.{Text}
use pynq_sdk.Python.Json.{Json}
use pynq_sdk.Python.Json.Scan.{Parsed, parsed, malformed, out_of_fuel}
use pynq_sdk.Python.Json.Numbers.{
  is_digit, span_digits, whole_part, sign_part, fraction_part, number_rest, read_number, after,
  constant_or, constants, constant_or_number, read_atom,
}
use pynq_sdk.Python.Json.Parts.{
  is_delimiter, Delimited, behind, sign_part-append, whole_part-append, fraction_part-append,
  exponent_part-append,
}

-- A reader's result with more text behind.
abbrev pub behind_parsed : Text → Parsed Json → Parsed Json
behind_parsed rest (parsed j t) = parsed j (t ++ rest)
behind_parsed rest malformed = malformed
behind_parsed rest out_of_fuel = out_of_fuel

abbrev behind_option : Text → Option Text → Option Text
behind_option rest none = none
behind_option rest (some t) = some (t ++ rest)

-- no delimiter is in a name
abbrev is_plain : Text → Bool
is_plain [] = true
is_plain (c ∷ s) = not (is_delimiter c) && is_plain s

abbrev are_plain : List (Text × Json) → Bool
are_plain [] = true
are_plain ((name, j) ∷ more) = is_plain name && are_plain more

after-Delimited :
    (p : ℕ) (ps rest : Text)
    → Delimited rest
    → is_plain (p ∷ ps) ≡ true
    → after (p ∷ ps) rest ≡ none
unfolding after
after-Delimited p ps [] d plain = refl
after-Delimited p ps (c ∷ rest) d plain = ground arith

module _ (rest : Text) (d : Delimited rest) where
  number_rest-append :
      (sign whole : Text) (f : Text × Text)
      → number_rest sign whole (behind rest f) ≡ behind_parsed rest (number_rest sign whole f)
  number_rest-append sign [] f = refl
  number_rest-append sign (c ∷ ds) (fraction, t) = rw (exponent_part-append rest d t) refl

  read_number-append : (s : Text) → read_number (s ++ rest) ≡ behind_parsed rest (read_number s)
  unfolding read_number
  read_number-append s =
      let sign = sign_part s in
      let whole = whole_part sign.1 in
      rw
        (
          sign_part-append rest d s,
          whole_part-append rest d sign.1,
          fraction_part-append rest d whole.1,
        )
        (number_rest-append sign.0 whole.0 (fraction_part whole.1))

  after-append :
      (name s : Text)
      → is_plain name ≡ true
      → after name (s ++ rest) ≡ behind_option rest (after name s)
  unfolding after
  after-append [] s plain = refl
  after-append (p ∷ ps) [] plain = after-Delimited p ps rest d plain
  after-append (p ∷ ps) (c ∷ s) plain = ground (arith, after-append ps s)

  constant_or-append :
      (j : Json) (o : Option Text) (p : Parsed Json)
      → constant_or j (behind_option rest o) (behind_parsed rest p)
        ≡ behind_parsed rest (constant_or j o p)
  constant_or-append j none p = refl
  constant_or-append j (some t) p = refl

  constant_or_number-append :
      (table : List (Text × Json)) (s : Text)
      → are_plain table ≡ true
      → constant_or_number table (s ++ rest) ≡ behind_parsed rest (constant_or_number table s)
  unfolding constant_or_number
  constant_or_number-append [] s plain = read_number-append s
  constant_or_number-append ((name, j) ∷ more) s plain =
      let both : (is_plain name ≡ true) × (are_plain more ≡ true) = ground arith in
      rw (after-append name s both.0, constant_or_number-append more s both.1)
        (constant_or-append j (after name s) (constant_or_number more s))

  -- What is read off a text is read off it in front of a delimiter.
  pub read_atom-append : (s : Text) → read_atom (s ++ rest) ≡ behind_parsed rest (read_atom s)
  unfolding read_atom
  read_atom-append s = constant_or_number-append constants s refl

-- how a number or a constant begins
abbrev pub begins_atom : ℕ → Bool
begins_atom c =
    (leb b'0' c && leb c b'9')
    || c == b'-'
    || c == b'n'
    || c == b't'
    || c == b'f'
    || c == b'N'
    || c == b'I'

read_number-begins : (c : ℕ) (s : Text) → begins_atom c ≡ false → read_number (c ∷ s) ≡ malformed
unfolding read_number sign_part whole_part span_digits is_digit
read_number-begins c s h = ground arith

pub read_atom-begins : (c : ℕ) (s : Text) → begins_atom c ≡ false → read_atom (c ∷ s) ≡ malformed
unfolding read_atom constant_or_number after
read_atom-begins c s h = rw (read_number-begins c s h) (ground arith)

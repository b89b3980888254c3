-- ===== src/Python/Json/Numbers.antt =====
-- The numbers and the constants of `json.loads`.
use pynq_sdk.Prelude.{
  ℕ, Bool, true, false, ◌&&◌, ◌||◌, Option, none, some, List, [], ◌∷◌, ◌++◌, leb, ◌==◌,
  if◌then◌else◌,
}
use pynq_sdk.Python.Text.{Text, lit}
use pynq_sdk.Python.Int.{ℤ, pos, negate, read_digits}
use pynq_sdk.Python.Json.{Json, json_null, json_bool, json_int, json_float}
use pynq_sdk.Python.Json.Scan.{Parsed, parsed, malformed}

unfoldable pub is_digit : ℕ → Bool
is_digit c = leb b'0' c && leb c b'9'

-- `[0-9]*`, and what follows
unfoldable pub span_digits : Text → Text × Text
unfolding is_digit
span_digits [] = ([], [])
span_digits (c ∷ s) = if is_digit c then (c ∷ (span_digits s).0, (span_digits s).1) else ([], c ∷ s)

-- `0|[1-9][0-9]*`
unfoldable pub whole_part : Text → Text × Text
unfolding span_digits
whole_part [] = ([], [])
whole_part (c ∷ s) = if c == b'0' then (c ∷ [], s) else span_digits (c ∷ s)

-- `-?`
unfoldable pub sign_part : Text → Text × Text
sign_part [] = ([], [])
sign_part (c ∷ s) = if c == b'-' then (c ∷ [], s) else ([], c ∷ s)

-- a prefix and at least one digit, or nothing
abbrev pub with_digits : Text → Text → Text × Text → Text × Text
with_digits prefix whole ([], rest) = ([], whole)
with_digits prefix whole (d ∷ ds, rest) = (prefix ++ d ∷ ds, rest)

-- `(\.[0-9]+)?`
unfoldable pub fraction_part : Text → Text × Text
unfolding span_digits
fraction_part [] = ([], [])
fraction_part (c ∷ s) =
    if c == b'.' then with_digits (c ∷ []) (c ∷ s) (span_digits s) else ([], c ∷ s)

-- `[-+]?`
unfoldable pub exponent_sign : Text → Text × Text
exponent_sign [] = ([], [])
exponent_sign (c ∷ s) = if c == b'-' || c == b'+' then (c ∷ [], s) else ([], c ∷ s)

-- `([eE][-+]?[0-9]+)?`
unfoldable pub exponent_part : Text → Text × Text
unfolding span_digits exponent_sign
exponent_part [] = ([], [])
exponent_part (c ∷ s) =
    if c == b'e' || c == b'E'
    then with_digits (c ∷ (exponent_sign s).0) (c ∷ s) (span_digits (exponent_sign s).1)
    else ([], c ∷ s)

-- the value of digits that were matched
abbrev pub digits_value : Option ℕ → ℕ
digits_value none = 0
digits_value (some n) = n

abbrev pub signed : Text → ℕ → ℤ
signed [] n = pos n
signed (c ∷ s) n = negate n

-- An integer has neither fraction nor exponent.
abbrev pub number_of : Text → Text → Text → Text → Json
number_of sign whole [] [] = json_int (signed sign (digits_value (read_digits 10 0 true whole)))
number_of sign whole fraction exponent = json_float (sign ++ (whole ++ (fraction ++ exponent)))

abbrev pub number_rest : Text → Text → Text × Text → Parsed Json
number_rest sign [] f = malformed
number_rest sign (d ∷ ds) (fraction, rest) =
    parsed (number_of sign (d ∷ ds) fraction (exponent_part rest).0) (exponent_part rest).1

unfoldable pub read_number : Text → Parsed Json
unfolding sign_part whole_part fraction_part exponent_part read_digits
read_number s =
    let sign = sign_part s in
    let whole = whole_part sign.1 in number_rest sign.0 whole.0 (fraction_part whole.1)

-- the text behind a prefix, if the prefix is there
unfoldable pub after : Text → Text → Option Text
after [] s = some s
after (p ∷ ps) [] = none
after (p ∷ ps) (c ∷ s) = if p == c then after ps s else none

-- a constant, or else
abbrev pub constant_or : Json → Option Text → Parsed Json → Parsed Json
constant_or j none other = other
constant_or j (some rest) other = parsed j rest

abbrev pub constants : List (Text × Json)
constants =
    (lit "null", json_null)
    ∷ (lit "true", json_bool true)
    ∷ (lit "false", json_bool false)
    ∷ (lit "NaN", json_float (lit "NaN"))
    ∷ (lit "Infinity", json_float (lit "Infinity"))
    ∷ (lit "-Infinity", json_float (lit "-Infinity"))
    ∷ []

-- a constant of the list, or else a number
unfoldable pub constant_or_number : List (Text × Json) → Text → Parsed Json
unfolding after read_number
constant_or_number [] s = read_number s
constant_or_number ((name, j) ∷ more) s = constant_or j (after name s) (constant_or_number more s)

unfoldable pub read_atom : Text → Parsed Json
unfolding constant_or_number
read_atom s = constant_or_number constants s

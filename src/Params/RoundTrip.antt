-- ===== src/Params/RoundTrip.antt =====
-- Values written as SCPI tokens are read back by `extract_args`.

use pynq_sdk.Prelude.{
  ℕ, suc, ◌<◌, ◌≡◌, ◌≢◌, ◌⊎◌, refl, ◌∙◌, ap, Bool, true, false, ◌||◌, Option, some, List, [], ◌∷◌,
  ◌++◌, arith, All, length, drop, ◌==◌,
}
use pynq_sdk.Python.Text.{Text, lit, is_space, starts_with, upper, text_eq}
use pynq_sdk.Python.Text.Laws.{NoSpace, strip-NoSpace}
use pynq_sdk.Python.Int.{ℤ, pos, negsuc, str_ℕ, str_int}
use pynq_sdk.Python.Int.RoundTrip.{IsDigit, str_ℕ-IsDigit, read_decimal-str_int}
use pynq_sdk.Python.Exception.{ok}
use pynq_sdk.Params.Based.{IsDigitOf, place_value, Announces, parse_int-place_value}
use pynq_sdk.Params.{
  Annotation, Arg, int, float, bool, text, Param, parse_int, parse_bool, strip_quotes, last_of,
  all_but_last, convert, extract_loop, extract_args,
}

IsDigit-NoSpace : (s : Text) → All IsDigit s → NoSpace s
unfolding is_space
IsDigit-NoSpace [] h = tt
IsDigit-NoSpace (c ∷ s) h = (ground arith, IsDigit-NoSpace s h.1)

str_int-NoSpace : (n : ℤ) → NoSpace (str_int n)
unfolding str_int is_space
str_int-NoSpace (pos n) = IsDigit-NoSpace (str_ℕ n) (str_ℕ-IsDigit n)
str_int-NoSpace (negsuc n) = (refl, IsDigit-NoSpace (str_ℕ (suc n)) (str_ℕ-IsDigit (suc n)))

-- A decimal text has no base prefix.
no_prefix : (x : ℕ) (s : Text) → b'9' < x → All IsDigit s → starts_with (b'0' ∷ x ∷ []) s ≡ false
unfolding starts_with
no_prefix x [] h d = refl
no_prefix x (c ∷ []) h d = ground arith
no_prefix x (c ∷ e ∷ s) h d = ground arith

str_int_no_prefix : (x : ℕ) (n : ℤ) → b'9' < x → starts_with (b'0' ∷ x ∷ []) (str_int n) ≡ false
unfolding str_int starts_with
str_int_no_prefix x (pos n) h = no_prefix x (str_ℕ n) h (str_ℕ-IsDigit n)
str_int_no_prefix x (negsuc n) h = refl

-- Every integer is read back from its decimal text.
pub parse_int-str_int : (n : ℤ) → parse_int (str_int n) ≡ ok n
unfolding parse_int
parse_int-str_int n = rw (
  strip-NoSpace (str_int n) (str_int-NoSpace n),
  str_int_no_prefix b'x' n (omega arith),
  str_int_no_prefix b'X' n (omega arith),
  str_int_no_prefix b'b' n (omega arith),
  str_int_no_prefix b'B' n (omega arith),
  read_decimal-str_int n,
)

-- The words for the two truth values, in upper case.
pub data Says : Bool → Text → Type 0 where
  one : Says true (lit "1")
  on_ : Says true (lit "ON")
  true_ : Says true (lit "TRUE")
  zero_ : Says false (lit "0")
  off_ : Says false (lit "OFF")
  false_ : Says false (lit "FALSE")

-- Each word is read in any case.
parse_bool-Says :
    {b : Bool} {word : Text} (raw : Text)
    → Says b word
    → NoSpace raw
    → upper raw ≡ word
    → parse_bool raw ≡ ok b
unfolding parse_bool text_eq
parse_bool-Says raw one h e = rw (strip-NoSpace raw h, e) refl
parse_bool-Says raw on_ h e = rw (strip-NoSpace raw h, e) refl
parse_bool-Says raw true_ h e = rw (strip-NoSpace raw h, e) refl
parse_bool-Says raw zero_ h e = rw (strip-NoSpace raw h, e) refl
parse_bool-Says raw off_ h e = rw (strip-NoSpace raw h, e) refl
parse_bool-Says raw false_ h e = rw (strip-NoSpace raw h, e) refl

last_of-append : (c : ℕ) (s : Text) (q : ℕ) → last_of c (s ++ q ∷ []) ≡ q
last_of-append c [] q = refl
last_of-append c (d ∷ s) q = last_of-append d s q

all_but_last-append : (s : Text) (q : ℕ) → all_but_last (s ++ q ∷ []) ≡ s
all_but_last-append [] q = refl
all_but_last-append (c ∷ []) q = refl
all_but_last-append (c ∷ d ∷ s) q = ap (◌∷◌ c) (all_but_last-append (d ∷ s) q)

abbrev pub quoted : ℕ → Text → Text
quoted q s = (q ∷ s) ++ q ∷ []

-- Quotes around a text are taken off, once.
pub strip_quotes-quoted :
    (q : ℕ) (s : Text) → (q == b'"' || q == b'\'') ≡ true → strip_quotes (quoted q s) ≡ s
unfolding strip_quotes
strip_quotes-quoted q [] h = ground arith
strip_quotes-quoted q (c ∷ s) h =
    ground (arith, last_of-append c s q, all_but_last-append (c ∷ s) q)

-- A text without a pair of quotes around it: it does not begin with a quote, or ends with another
-- character.
abbrev pub IsBare : Text → Type 0
IsBare [] = Unit
IsBare (c ∷ []) = Unit
IsBare (c ∷ d ∷ s) = ((c ≢ b'"') × (c ≢ b'\'')) ⊎ (last_of d s ≢ c)

strip_quotes-IsBare : (s : Text) → IsBare s → strip_quotes s ≡ s
unfolding strip_quotes
strip_quotes-IsBare [] h = refl
strip_quotes-IsBare (c ∷ []) h = refl
strip_quotes-IsBare (c ∷ d ∷ s) h = ground arith

-- Not one of the three types that are parsed.
abbrev pub IsPlain : Annotation → Type 0
IsPlain Annotation.int_type = ⊥
IsPlain Annotation.float_type = ⊥
IsPlain Annotation.bool_type = ⊥
IsPlain _ = Unit

drop-length {ℓ} : {A : Type ℓ} (xs ys : List A) → drop (length xs) (xs ++ ys) ≡ ys
drop-length [] ys = refl
drop-length (x ∷ xs) ys = drop-length xs ys

module _ {Float Object : Type 0} (parse_float : Text → Option Float) where
  -- A token that stands for a value, under an annotation.
  pub data Renders : Annotation → Text → Arg Float Object → Type 0 where
    int_token : (n : ℤ) → Renders Annotation.int_type (str_int n) (int n)
    based_token :
        {base letter : ℕ} (c : ℕ) (s : Text)
        → Announces base letter
        → All (IsDigitOf base) (c ∷ s)
        → Renders Annotation.int_type
            (b'0' ∷ letter ∷ c ∷ s)
            (int (pos (place_value base 0 (c ∷ s))))
    bool_token :
        {b : Bool} {word : Text} (raw : Text)
        → Says b word
        → NoSpace raw
        → upper raw ≡ word
        → Renders Annotation.bool_type raw (bool b)
    float_token :
        (raw : Text) (x : Float)
        → parse_float raw ≡ some x
        → Renders Annotation.float_type raw (float x)
    text_token :
        (a : Annotation) (q : ℕ) (s : Text)
        → IsPlain a
        → (q == b'"' || q == b'\'') ≡ true
        → Renders a (quoted q s) (text s)
    bare_token : (a : Annotation) (s : Text) → IsPlain a → IsBare s → Renders a s (text s)

  -- Tokens for the first parameters, defaults for the rest; surplus tokens stand for nothing.
  pub data Filled : List (Param Float Object) → List Text → List (Arg Float Object) → Type 0 where
    done : {tokens : List Text} → Filled [] tokens []
    given :
        {p : Param Float Object} {ps : List (Param Float Object)} {raw : Text} {tokens : List Text}
        {v : Arg Float Object} {vs : List (Arg Float Object)}
        → Renders p.annotation raw v
        → Filled ps tokens vs
        → Filled (p ∷ ps) (raw ∷ tokens) (v ∷ vs)
    defaulted :
        {p : Param Float Object} {ps : List (Param Float Object)} {v : Arg Float Object}
        {vs : List (Arg Float Object)}
        → p.default ≡ some v
        → Filled ps [] vs
        → Filled (p ∷ ps) [] (v ∷ vs)

  convert-IsPlain :
      (a : Annotation) (raw : Text)
      → IsPlain a
      → convert {Object = Object} parse_float a raw ≡ ok (text (strip_quotes raw))
  unfolding convert
  convert-IsPlain Annotation.int_type raw h = absurd h
  convert-IsPlain Annotation.float_type raw h = absurd h
  convert-IsPlain Annotation.bool_type raw h = absurd h
  convert-IsPlain Annotation.other_type raw h = refl
  convert-IsPlain (Annotation.postponed s) raw h = refl

  convert-Renders :
      {a : Annotation} {raw : Text} {v : Arg Float Object}
      → Renders a raw v
      → convert parse_float a raw ≡ ok v
  convert-Renders (int_token n) = unfold convert in rw (parse_int-str_int n)
  convert-Renders (based_token c s letter digits) =
      unfold convert in rw (parse_int-place_value c s letter digits)
  convert-Renders (bool_token raw says h e) = unfold convert in rw (parse_bool-Says raw says h e)
  convert-Renders (float_token raw x h) = unfold convert in rw h
  convert-Renders (text_token a q s plain h) =
      convert-IsPlain a (quoted q s) plain ∙ rw (strip_quotes-quoted q s h)
  convert-Renders (bare_token a s plain h) =
      convert-IsPlain a s plain ∙ rw (strip_quotes-IsBare s h)

  extract_loop-Filled :
      {ps : List (Param Float Object)} {tokens : List Text} {vs : List (Arg Float Object)}
      → Filled ps tokens vs
      → extract_loop parse_float ps tokens ≡ ok vs
  unfolding extract_loop
  extract_loop-Filled done = refl
  extract_loop-Filled (given r f) = rw (convert-Renders r, extract_loop-Filled f)
  extract_loop-Filled (defaulted e f) = rw (e, extract_loop-Filled f)

  -- The parameters behind the injected ones get the values that the tokens stand for, then their
  -- defaults; surplus tokens are ignored. For an int a token is a decimal text as `str` writes it, or
  -- digits behind `0x` or `0b` in either case; for a bool 1, ON, TRUE, 0, OFF or FALSE in any case of
  -- letters; for a float what `float` reads; for any other annotation a text in quotes, which are taken
  -- off, or one that has no pair of them around it, which is taken as it is.
  pub extract_args-Filled :
      (injected : List (Param Float Object)) {ps : List (Param Float Object)} {tokens : List Text}
      {vs : List (Arg Float Object)}
      → Filled ps tokens vs
      → extract_args parse_float (injected ++ ps) tokens (length injected) ≡ ok vs
  unfolding extract_args
  extract_args-Filled injected {ps} f = rw (drop-length injected ps) (extract_loop-Filled f)

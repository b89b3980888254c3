-- ===== src/Params.antt =====
-- pynq_instrument/param_parser.py. `inspect.signature(handler)` is the list of the handler's
-- parameters. Of a float only its parse is needed, and it is a parameter: `float(raw)`.
pub mod RoundTrip
pub mod Based
use pynq_sdk.Prelude.{
  ℕ, Bool, true, false, ◌||◌, ◌&&◌, Option, none, some, List, [], ◌∷◌, ◌++◌, leb, ◌==◌, length,
  take, drop, if◌then◌else◌,
}
use pynq_sdk.Python.Text.{Text, lit, text_eq, strip, upper, starts_with}
use pynq_sdk.Python.Int.{ℤ, read_decimal, read_prefixed}
use pynq_sdk.Python.Exception.{Result, ok, raised, raise, ◌>>=◌, value_error, repr}

-- The annotation object of a parameter. In a module with `from __future__ import annotations` it is
-- the text of the annotation, `postponed`, which `is int` does not see through.
pub data Annotation : Type 0 where
  int_type float_type bool_type other_type : Annotation
  postponed : Text → Annotation

-- A value passed to a handler; `object` stands for whatever else Python may pass, such as an
-- injected IP or a default value.
pub data Arg (Float Object : Type 0) : Type 0 where
  int : ℤ → Arg Float Object
  float : Float → Arg Float Object
  bool : Bool → Arg Float Object
  text : Text → Arg Float Object
  object : Object → Arg Float Object

pub record Param (Float Object : Type 0) : Type 0 where
  pub name : Text
  pub annotation : Annotation
  pub default : Option (Arg Float Object)

-- `int(s, base)` with its message: the text is shown by `%.200R`
abbrev int_or_raise : ℕ → Text → Text → Option ℤ → Result ℤ
int_or_raise base shown s none =
    raise value_error
      (lit "invalid literal for int() with base " ++ shown ++ lit ": " ++ take 200 (repr s))
int_or_raise base shown s (some n) = ok n

unfoldable pub parse_int : Text → Result ℤ
unfolding read_decimal read_prefixed strip starts_with
parse_int raw =
    let s = strip raw in
    if starts_with (lit "0x") s || starts_with (lit "0X") s
    then int_or_raise 16 (lit "16") s (read_prefixed 16 (drop 2 s))
    else if starts_with (lit "0b") s || starts_with (lit "0B") s
    then int_or_raise 2 (lit "2") s (read_prefixed 2 (drop 2 s))
    else int_or_raise 10 (lit "10") s (read_decimal s)

unfoldable pub parse_bool : Text → Result Bool
unfolding strip upper text_eq
parse_bool s =
    let u = upper (strip s) in
    if text_eq u (lit "1") || text_eq u (lit "ON") || text_eq u (lit "TRUE")
    then ok true
    else if text_eq u (lit "0") || text_eq u (lit "OFF") || text_eq u (lit "FALSE")
    then ok false
    else raise value_error (lit "Invalid boolean value: " ++ repr s)

-- the last character of `c ∷ s`, and the text before it
abbrev pub last_of : ℕ → Text → ℕ
last_of c [] = c
last_of c (d ∷ s) = last_of d s

abbrev pub all_but_last : Text → Text
all_but_last [] = []
all_but_last (c ∷ []) = []
all_but_last (c ∷ d ∷ s) = c ∷ all_but_last (d ∷ s)

unfoldable pub strip_quotes : Text → Text
strip_quotes [] = []
strip_quotes (c ∷ []) = c ∷ []
strip_quotes (c ∷ d ∷ s) =
    if (c == b'"' || c == b'\'') && last_of d s == c then all_but_last (d ∷ s) else c ∷ d ∷ s

abbrev float_or_raise : {Float : Type 0} → Text → Option Float → Result Float
float_or_raise raw none = raise value_error (lit "could not convert string to float: " ++ repr raw)
float_or_raise raw (some x) = ok x

module _ {Float Object : Type 0} (parse_float : Text → Option Float) where
  -- the branches on `annotation`
  unfoldable pub convert : Annotation → Text → Result (Arg Float Object)
  unfolding parse_int parse_bool strip_quotes
  convert Annotation.int_type raw = do n ← parse_int raw; ok (int n)
  convert Annotation.float_type raw = do x ← float_or_raise raw (parse_float raw); ok (float x)
  convert Annotation.bool_type raw = do b ← parse_bool raw; ok (bool b)
  convert _ raw = ok (text (strip_quotes raw))

  abbrev pub default_or_raise :
      Param Float Object → Option (Arg Float Object) → Result (Arg Float Object)
  default_or_raise p (some v) = ok v
  default_or_raise p none =
      raise value_error (lit "Missing required parameter '" ++ p.name ++ lit "'")

  -- the loop: the parameters left, against the tokens left
  unfoldable pub extract_loop :
      List (Param Float Object) → List Text → Result (List (Arg Float Object))
  unfolding convert
  extract_loop [] scpi_args = ok []
  extract_loop (p ∷ params) [] = do
    v ← default_or_raise p p.default
    vs ← extract_loop params []
    ok (v ∷ vs)
  extract_loop (p ∷ params) (raw ∷ scpi_args) = do
    v ← convert p.annotation raw
    vs ← extract_loop params scpi_args
    ok (v ∷ vs)

  unfoldable pub extract_args :
      List (Param Float Object) → List Text → ℕ → Result (List (Arg Float Object))
  unfolding extract_loop
  extract_args params scpi_args injected_count = extract_loop (drop injected_count params) scpi_args

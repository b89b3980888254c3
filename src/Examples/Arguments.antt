-- ===== src/Examples/Arguments.antt =====
-- Arguments at concrete inputs.
use pynq_sdk.Prelude.{◌≡◌, refl, ℕ, Option, none, some, List, [], ◌∷◌, ◌++◌, length}
use pynq_sdk.Python.Text.{Text, lit}
use pynq_sdk.Python.Int.{pos, negsuc, str_int}
use pynq_sdk.Python.Exception.{ok}
use pynq_sdk.Params.{Annotation, Arg, Param, parse_int, extract_args}
use pynq_sdk.Params.Based.{place_value, small_x}
use pynq_sdk.Prelude.{false, arith}
use pynq_sdk.Python.Text.{is_space, upper}
use pynq_sdk.Params.RoundTrip.{
  parse_int-str_int, quoted, done, given, defaulted, int_token, text_token, based_token, bool_token,
  bare_token, off_, extract_args-Filled,
}

parse_int-str_int_example : parse_int (str_int (negsuc 41)) ≡ ok (negsuc 41)
parse_int-str_int_example = parse_int-str_int (negsuc 41)

abbrev no_float : Text → Option ℕ
no_float raw = none

abbrev param : Text → Annotation → Option (Arg ℕ ℕ) → Param ℕ ℕ
param name annotation default = record { name = name; annotation = annotation; default = default }

abbrev ps : List (Param ℕ ℕ)
ps =
    param (lit "freq") Annotation.int_type none
    ∷ param (lit "label") Annotation.other_type none
    ∷ param (lit "mask") Annotation.int_type none
    ∷ param (lit "on") Annotation.bool_type none
    ∷ param (lit "mode") (Annotation.postponed (lit "str")) none
    ∷ param (lit "gain") Annotation.int_type (some (Arg.int (pos 1)))
    ∷ []

extract_args-Filled_example :
    extract_args no_float
      ((param (lit "ip") Annotation.other_type none ∷ []) ++ ps)
      (str_int (negsuc 6) ∷ quoted b'"' (lit "a b") ∷ lit "0x1F" ∷ lit "Off" ∷ lit "FAST" ∷ [])
      (length (param (lit "ip") Annotation.other_type none ∷ []))
    ≡ ok (
        Arg.int (negsuc 6)
        ∷ Arg.text (lit "a b")
        ∷ Arg.int (pos 31)
        ∷ Arg.bool false
        ∷ Arg.text (lit "FAST")
        ∷ Arg.int (pos 1)
        ∷ [])
unfolding place_value
extract_args-Filled_example =
    extract_args-Filled no_float (param (lit "ip") Annotation.other_type none ∷ []) (
      given (int_token (negsuc 6)) (
        given (text_token Annotation.other_type b'"' (lit "a b") tt refl) (
          given (based_token b'1' (lit "F") small_x (ground arith)) (
            given
              (bool_token (lit "Off") off_ (unfold is_space in (refl, (refl, (refl, tt))))
                (unfold upper in refl))
              (given (bare_token (Annotation.postponed (lit "str")) (lit "FAST") tt (ground arith))
                (defaulted refl done))))))

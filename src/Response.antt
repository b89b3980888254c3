-- ===== src/Response.antt =====
-- pynq_instrument/response_helpers.py. A Python float is not modelled: its text under `:.6g` is a
-- parameter of the two functions that print floats.
use pynq_sdk.Prelude.{Bool, Option, none, some, List, [], ◌∷◌, ◌++◌, map, if◌then◌else◌}
use pynq_sdk.Python.Text.{Text, lit}
use pynq_sdk.Python.Int.{ℤ, str_int}

unfoldable pub respond_int : ℤ → Text
respond_int value = str_int value

unfoldable pub respond_bool : Bool → Text
respond_bool value = if value then lit "1" else lit "0"

-- `None` gives the empty text
unfoldable pub respond_enum : Option Text → Text
respond_enum none = []
respond_enum (some value) = value

-- f"ERR:{code}:{message or ''}"
unfoldable pub respond_error : ℤ → Text → Text
respond_error code message = lit "ERR:" ++ str_int code ++ lit ":" ++ message

-- `sep.join(parts)`
unfoldable pub join : Text → List Text → Text
join sep [] = []
join sep (p ∷ []) = p
join sep (p ∷ q ∷ ps) = p ++ (sep ++ join sep (q ∷ ps))

module _ {Float : Type 0} (format_6g : Float → Text) where
  unfoldable pub respond_float : Float → Text
  respond_float value = format_6g value

  unfoldable pub respond_float_array : List Float → Text
  respond_float_array values = join (lit ",") (map format_6g values)

-- ===== src/Examples/Json.antt =====
-- `json.dumps` and `json.loads` at concrete inputs.
use pynq_sdk.Prelude.{◌≡◌, refl, [], ◌∷◌}
use pynq_sdk.Python.Text.{lit}
use pynq_sdk.Python.Int.{negsuc, str_int}
use pynq_sdk.Python.Exception.{ok}
use pynq_sdk.Python.Json.{
  Json, json_null, json_string, json_int, json_float, json_list, json_dict, dumps, to_json_list,
  to_json_dict,
}
use pynq_sdk.Python.Json.Loads.{loads}

-- {"name":"µ\n😀","limits":[-42,null,1.5e-07]}
abbrev sample : Json
sample = json_dict (
    to_json_dict (
      (lit "name", json_string (0xb5 ∷ b'\n' ∷ 0x1_f600 ∷ []))
      ∷ (
        lit "limits",
        json_list
            (to_json_list (json_int (negsuc 41) ∷ json_null ∷ json_float (lit "1.5e-07") ∷ [])),
      )
      ∷ []))

-- White space, an escaped letter and a pair of surrogates, which `json.dumps` writes otherwise.
loads_text :
    loads (lit "\n{ \"name\" : \"\\u00B5\\n\\uD83D\\uDE00\", \"limits\":[-42, null ,1.5e-07]} ")
    ≡ ok sample
unfolding loads
loads_text = refl

-- `json.dumps` escapes what is not ASCII.
dumps-sample :
    dumps sample ≡ lit "{\"name\":\"\\u00b5\\n\\ud83d\\ude00\",\"limits\":[-42,null,1.5e-07]}"
unfolding dumps str_int
dumps-sample = refl

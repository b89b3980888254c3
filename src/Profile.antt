-- ===== src/Profile.antt =====
-- tools/generate_profile.py: what it makes of an identity and a listing. A parsed value is a `Json`;
-- of a float only its truth value is needed, and it is a parameter.
pub mod Client
pub mod Dialogue
pub mod Written
pub mod Listing
pub mod Main
pub mod Program
use pynq_sdk.Prelude.{
  ℕ, zero, suc, Bool, true, false, not, Option, none, some, List, [], ◌∷◌, ◌++◌, map, ◌==◌,
  if◌then◌else◌,
}
use pynq_sdk.Python.Text.{Text, lit, text_eq}
use pynq_sdk.Python.Int.{ℤ, pos}
use pynq_sdk.Python.Exception.{
  Kind, Exception, Result, ok, raised, raise, ◌>>=◌, key_error, type_error, other_error,
}
use pynq_sdk.Python.Json.{
  Json, JsonList, JsonDict, json_null, json_bool, json_string, json_int, json_float, json_list,
  json_dict, empty_list, item, empty_dict, entry, to_json_list, to_json_dict,
}
use pynq_sdk.Python.Json.Loads.{loads, dict_get}

-- `s.split(",")`: the first part, and the others
unfoldable pub split_comma : Text → Text × List Text
split_comma [] = ([], [])
split_comma (c ∷ s) =
    let (part, parts) = split_comma s in if c == b',' then ([], part ∷ parts) else (c ∷ part, parts)

-- `parts[n] if len(parts) > n else "Unknown"`
unfoldable pub part_or_unknown : ℕ → List Text → Text
part_or_unknown n [] = lit "Unknown"
part_or_unknown zero (p ∷ ps) = p
part_or_unknown (suc n) (p ∷ ps) = part_or_unknown n ps

-- `d[key]`
abbrev found : Text → Option Json → Result Json
found key none = raise key_error key
found key (some v) = ok v

unfoldable pub subscript : Text → JsonDict → Result Json
unfolding dict_get
subscript key d = found key (dict_get key d)

-- `d.get(key, default)`
unfoldable pub get_or : Text → Json → JsonDict → Json
unfolding dict_get
get_or key default d = elim (dict_get key d) [ none ↦ default | some v ↦ v ]

abbrev pub items : JsonList → List Json
items empty_list = []
items (item x xs) = x ∷ items xs

abbrev keys : JsonDict → List Json
keys empty_dict = []
keys (entry k v d) = json_string k ∷ keys d

-- what a `for` loop runs over; a repeated key is met once, but then the loop has raised
unfoldable pub iterate : Json → Result (List Json)
iterate (json_list xs) = ok (items xs)
iterate (json_dict d) = ok (keys d)
iterate (json_string s) = ok (map (λ c. json_string (c ∷ [])) s)
iterate _ = raise type_error (lit "object is not iterable")

unfoldable pub commands_of : Json → Result (List Json)
unfolding get_or iterate
commands_of (json_dict d) = iterate (get_or (lit "commands") (json_list empty_list) d)
commands_of _ = raise other_error (lit "object has no attribute 'get'")

unfoldable pub identity : List Text → Json
unfolding part_or_unknown
identity parts = json_dict (
    to_json_dict (
      (lit "manufacturer", json_string (part_or_unknown 0 parts))
      ∷ (lit "model", json_string (part_or_unknown 1 parts))
      ∷ (lit "serial", json_string (part_or_unknown 2 parts))
      ∷ (lit "firmware", json_string (part_or_unknown 3 parts))
      ∷ []))

abbrev pub connection : Text → ℤ → Json
connection host port = json_dict (
    to_json_dict (
      (lit "host", json_string host)
      ∷ (lit "port", json_int port)
      ∷ (lit "protocol", json_string (lit "hislip"))
      ∷ []))

module _ (float_truthy : Text → Bool) where
  -- `bool(v)`
  unfoldable pub json_truthy : Json → Bool
  json_truthy json_null = false
  json_truthy (json_bool b) = b
  json_truthy (json_string []) = false
  json_truthy (json_string (c ∷ s)) = true
  json_truthy (json_int (pos zero)) = false
  json_truthy (json_int n) = true
  json_truthy (json_float x) = float_truthy x
  json_truthy (json_list empty_list) = false
  json_truthy (json_list (item x xs)) = true
  json_truthy (json_dict empty_dict) = false
  json_truthy (json_dict (entry k v d)) = true

  -- `if cmd.get(key): entry[key] = cmd[key]`
  abbrev kept : Text → Option Json → List (Text × Json)
  unfolding json_truthy
  kept key none = []
  kept key (some v) = if json_truthy v then (key, v) ∷ [] else []

  -- one round of the loop
  unfoldable pub profile_entry : Json → Result Json
  unfolding subscript get_or json_truthy dict_get
  profile_entry (json_dict d) = do
    scpi ← subscript (lit "scpi") d
    type ← subscript (lit "type") d
    ok (
        json_dict (
          to_json_dict (
            (lit "scpi", scpi)
            ∷ (lit "type", type)
            ∷ (lit "timeout_ms", get_or (lit "timeout_ms") (json_int (pos 5000)) d)
            ∷ (kept (lit "group") (dict_get (lit "group") d)
                ++ (kept (lit "description") (dict_get (lit "description") d)
                    ++ kept (lit "params") (dict_get (lit "params") d))))))
  profile_entry _ = raise type_error (lit "indices must be integers")

  unfoldable pub profile_entries : List Json → Result (List Json)
  unfolding profile_entry
  profile_entries [] = ok []
  profile_entries (cmd ∷ cmds) = do e ← profile_entry cmd; es ← profile_entries cmds; ok (e ∷ es)

  unfoldable pub build_profile : Text → Text → Text → ℤ → Result Json
  unfolding split_comma loads profile_entries commands_of identity
  build_profile idn commands_json host port = do
    listing ← loads commands_json
    cmds ← commands_of listing
    entries ← profile_entries cmds
    let (part, parts) = split_comma idn
    ok (
        json_dict (
          to_json_dict (
            (lit "identity", identity (part ∷ parts))
            ∷ (lit "connection", connection host port)
            ∷ (lit "commands", json_list (to_json_list entries))
            ∷ [])))

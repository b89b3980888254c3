-- ===== src/System.antt =====
-- pynq_instrument/scpi_system.py: the listing that `SYSTEM:COMMANDS?` answers. Of a float its order
-- and its JSON text are needed, and they are parameters.
use pynq_sdk.Prelude.{
  Bool, true, false, ◌&&◌, ◌||◌, Option, none, some, List, [], ◌∷◌, ◌++◌, map, if◌then◌else◌,
}
use pynq_sdk.Python.Text.{Text, lit, text_eq, starts_with}
use pynq_sdk.Python.Int.{pos}
use pynq_sdk.Python.Json.{
  Json, json_string, json_int, json_float, json_list, json_dict, dumps, to_json_list, to_json_dict,
}
use pynq_sdk.Registry.{
  CommandType, write, query, ParamDescriptor, CommandDescriptor, CommandRegistry, all_commands,
}

-- `if text: entry[key] = text`
abbrev pub optional : Text → Text → List (Text × Json)
optional key [] = []
optional key (c ∷ s) = (key, json_string (c ∷ s)) ∷ []

abbrev not_empty : List Text → Bool
not_empty [] = false
not_empty (x ∷ xs) = true

abbrev default_entry : Option Text → List (Text × Json)
default_entry none = []
default_entry (some v) = (lit "default", json_string v) ∷ []

-- `desc.type.value`
abbrev pub type_value : CommandType → Text
type_value write = lit "write"
type_value query = lit "query"

module _ {F : Type 0} (float_lt : F → F → Bool) (float_text : F → Text) where
  unfoldable pub param_entry : ParamDescriptor F → Json
  param_entry p = json_dict (
      to_json_dict (
        (lit "name", json_string p.name)
        ∷ (lit "type", json_string p.type)
        ∷ (optional (lit "description") p.description
            ++ ((if (text_eq p.type (lit "int") || text_eq p.type (lit "float"))
                    && float_lt p.min p.max
                  then (lit "min", json_float (float_text p.min))
                    ∷ (lit "max", json_float (float_text p.max))
                    ∷ []
                  else [])
                ++ ((if text_eq p.type (lit "enum") && not_empty p.enum_values
                      then (lit "values", json_list (to_json_list (map json_string p.enum_values)))
                        ∷ []
                      else [])
                    ++ default_entry p.default_value)))))

  -- "params" holds its place in front of the optional keys
  unfoldable pub command_entry : {H : Type 0} → CommandDescriptor F H → Json
  unfolding param_entry
  command_entry d = json_dict (
      to_json_dict (
        (lit "scpi", json_string d.scpi_command)
        ∷ (lit "type", json_string (type_value d.type))
        ∷ (lit "timeout_ms", json_int (pos d.timeout_ms))
        ∷ (lit "params", json_list (to_json_list (map param_entry d.params)))
        ∷ (optional (lit "group") d.group ++ optional (lit "description") d.description)))

  -- the loop: commands under "SYSTEM:" are left out
  unfoldable pub command_entries : {H : Type 0} → List (CommandDescriptor F H) → List Json
  unfolding command_entry starts_with
  command_entries [] = []
  command_entries (d ∷ ds) =
      let rest = command_entries ds in
      if starts_with (lit "SYSTEM:") d.scpi_command then rest else command_entry d ∷ rest

  unfoldable pub commands_json : {H C : Type 0} → List (Text × Text) → CommandRegistry F H C → Text
  unfolding command_entries all_commands dumps
  commands_json identity registry = dumps (
      json_dict (
        to_json_dict (
          (lit "identity", json_dict (to_json_dict (map (λ e. (e.0, json_string e.1)) identity)))
          ∷ (lit "commands", json_list (to_json_list (command_entries (all_commands registry))))
          ∷ [])))

-- ===== src/Profile/Written.antt =====
-- The listing of scpi_system.py as a JSON value, and back from its text.

use pynq_sdk.Prelude.{◌≡◌, refl, ◌∙◌, ap, [], ◌∷◌, map}
use pynq_sdk.Python.Text.{lit}
use pynq_sdk.Python.Exception.{ok}
use pynq_sdk.Python.Json.{
  Json, json_string, json_list, json_dict, dumps, to_json_list, to_json_dict,
}
use pynq_sdk.Python.Json.Loads.{loads}
use pynq_sdk.Python.Json.Openings.{IsWritable}
use pynq_sdk.Python.Json.RoundTrip.{loads-dumps}
use pynq_sdk.Registry.{all_commands}
use pynq_sdk.System.{command_entries, commands_json}
use pynq_sdk.World.{Types, World, Externals}
use pynq_sdk.Builtins.{identity_dict}

module _ {t : Types} (x : Externals t) where
  -- The value that the listing is written from.
  unfoldable pub listing_value : World t → Json
  unfolding command_entries all_commands identity_dict
  listing_value w = json_dict (
      to_json_dict (
        (
          lit "identity",
          json_dict (to_json_dict (map (λ e. (e.0, json_string e.1)) (identity_dict x w))),
        )
        ∷ (
          lit "commands",
          json_list
              (to_json_list (command_entries x.float_lt x.float_text (all_commands w.registry))),
        )
        ∷ []))

  commands_json-listing_value :
      (w : World t)
      → commands_json x.float_lt x.float_text (identity_dict x w) w.registry
        ≡ dumps (listing_value w)
  unfolding commands_json listing_value
  commands_json-listing_value w = refl

  -- A client that parses the listing gets the value that it was written from: the identity, and each
  -- command in the registry's order. The texts have no surrogates, and each float is written as a
  -- float.
  pub loads-commands_json :
      (w : World t)
      → IsWritable (listing_value w)
      → loads (commands_json x.float_lt x.float_text (identity_dict x w) w.registry)
        ≡ ok (listing_value w)
  loads-commands_json w writable =
      ap loads (commands_json-listing_value w) ∙ loads-dumps (listing_value w) writable

-- ===== src/Profile/Listing.antt =====
-- What `build_profile` makes of the identity and the listing of an instrument.
use pynq_sdk.Profile.Written.{listing_value, loads-commands_json}
use mathlib.Core.List.{append_assoc}
use pynq_sdk.Prelude.{
  ◌≡◌, ◌≢◌, refl, ◌∙◌, ap, Bool, Bool-cases, inl, inr, List, [], ◌∷◌, ◌++◌, map, All, arith,
  if◌then◌else◌,
}
use pynq_sdk.Python.Text.{Text, lit, starts_with, text_eq}
use pynq_sdk.Python.Int.{ℤ, pos}
use pynq_sdk.Python.Exception.{ok}
use pynq_sdk.Python.Json.{
  Json, json_string, json_int, json_list, json_dict, to_json_list, to_json_dict,
}
use pynq_sdk.Python.Json.Loads.{dict_get}
use pynq_sdk.Python.Json.Openings.{IsWritable}
use pynq_sdk.Registry.{ParamDescriptor, CommandDescriptor, all_commands}
use pynq_sdk.System.{
  type_value, optional, param_entry, command_entry, command_entries, commands_json,
}
use pynq_sdk.Profile.{
  items, iterate, commands_of, part_or_unknown, split_comma, subscript, get_or, json_truthy,
  profile_entry, profile_entries, identity, connection, build_profile,
}
use pynq_sdk.World.{Types, World, Externals}
use pynq_sdk.Builtins.{idn_string, identity_dict}

-- A field without a comma.
abbrev pub NoComma : Text → Type 0
NoComma = All (λ c. c ≢ b',')

split_comma-join :
    (s rest : Text)
    → NoComma s
    → split_comma (s ++ b',' ∷ rest) ≡ (s, (split_comma rest).0 ∷ (split_comma rest).1)
unfolding split_comma
split_comma-join [] rest h = refl
split_comma-join (c ∷ s) rest h = rw (split_comma-join s rest h.1) (ground (arith, h.0))

split_comma-NoComma : (s : Text) → NoComma s → split_comma s ≡ (s, [])
unfolding split_comma
split_comma-NoComma [] h = refl
split_comma-NoComma (c ∷ s) h = rw (split_comma-NoComma s h.1) (ground (arith, h.0))

module _ {F : Type 0} (float_lt : F → F → Bool) (float_text : F → Text) where
  abbrev param_list : List (ParamDescriptor F) → Json
  param_list ps = json_list (to_json_list (map (param_entry float_lt float_text) ps))

  abbrev if_any : List (ParamDescriptor F) → List (Text × Json)
  if_any [] = []
  if_any (p ∷ ps) = (lit "params", param_list (p ∷ ps)) ∷ []

  -- The entry of a command: its parameters come last, and are left out if there are none.
  abbrev pub profile_command : {H : Type 0} → CommandDescriptor F H → Json
  profile_command d = json_dict (
      to_json_dict (
        (lit "scpi", json_string d.scpi_command)
        ∷ (lit "type", json_string (type_value d.type))
        ∷ (lit "timeout_ms", json_int (pos d.timeout_ms))
        ∷ (optional (lit "group") d.group
            ++ (optional (lit "description") d.description ++ if_any d.params))))

  -- The commands that are listed.
  abbrev pub listed : {H : Type 0} → List (CommandDescriptor F H) → List (CommandDescriptor F H)
  listed [] = []
  listed (d ∷ ds) =
      let rest = listed ds in if starts_with (lit "SYSTEM:") d.scpi_command then rest else d ∷ rest

  module _ (float_truthy : Text → Bool) {H : Type 0} where
    profile_entry-command_entry :
        (d : CommandDescriptor F H)
        → profile_entry float_truthy (command_entry float_lt float_text d) ≡ ok (profile_command d)
    unfolding profile_entry command_entry subscript get_or json_truthy dict_get text_eq
    profile_entry-command_entry d = by_options d.group d.description d.params
      where
        by_options :
            (g e : Text) (ps : List (ParamDescriptor F))
            → profile_entry float_truthy (
                command_entry float_lt float_text
                  (record d { group = g; description = e; params = ps }))
              ≡ ok (profile_command (record d { group = g; description = e; params = ps }))
        by_options [] [] [] = refl
        by_options [] [] (p ∷ ps) = refl
        by_options [] (c ∷ e) [] = refl
        by_options [] (c ∷ e) (p ∷ ps) = refl
        by_options (b ∷ g) [] [] = refl
        by_options (b ∷ g) [] (p ∷ ps) = refl
        by_options (b ∷ g) (c ∷ e) [] = refl
        by_options (b ∷ g) (c ∷ e) (p ∷ ps) = refl

    profile_entries-command_entries :
        (ds : List (CommandDescriptor F H))
        → profile_entries float_truthy (command_entries float_lt float_text ds)
          ≡ ok (map profile_command (listed ds))
    unfolding profile_entries command_entries
    profile_entries-command_entries [] = refl
    profile_entries-command_entries (d ∷ ds) =
        elim (Bool-cases (starts_with (lit "SYSTEM:") d.scpi_command)) [
          | inl hidden ↦ rw hidden (profile_entries-command_entries ds)
          | inr shown ↦
              rw (shown, profile_entry-command_entry d, profile_entries-command_entries ds) refl
        ]

identity_split :
    (m o s f : Text)
    → NoComma m
    → NoComma o
    → NoComma s
    → NoComma f
    → split_comma (m ++ lit "," ++ o ++ lit "," ++ s ++ lit "," ++ f) ≡ (m, o ∷ s ∷ f ∷ [])
identity_split m o s f hm ho hs hf = ap split_comma right_nested ∙ parts
  where
    right_nested :
        m ++ lit "," ++ o ++ lit "," ++ s ++ lit "," ++ f
        ≡ m ++ b',' ∷ (o ++ b',' ∷ (s ++ b',' ∷ f))
    right_nested = simp append_assoc

    parts : split_comma (m ++ b',' ∷ (o ++ b',' ∷ (s ++ b',' ∷ f))) ≡ (m, o ∷ s ∷ f ∷ [])
    parts =
        rw
          (
            split_comma-join m (o ++ b',' ∷ (s ++ b',' ∷ f)) hm,
            split_comma-join o (s ++ b',' ∷ f) ho,
            split_comma-join s f hs,
            split_comma-NoComma f hf,
          )
          refl

items-to_json_list : (xs : List Json) → items (to_json_list xs) ≡ xs
items-to_json_list [] = refl
items-to_json_list (x ∷ xs) = ap (◌∷◌ x) (items-to_json_list xs)

abbrev pub identity_fields : {t : Types} → World t → Json
identity_fields w = json_dict (
    to_json_dict (
      (lit "manufacturer", json_string w.manufacturer)
      ∷ (lit "model", json_string w.model)
      ∷ (lit "serial", json_string w.serial)
      ∷ (lit "firmware", json_string w.firmware_version)
      ∷ []))

module _ {t : Types} (x : Externals t) (float_truthy : Text → Bool) (host : Text) (port : ℤ) where
  commands_of-listing_value :
      (w : World t)
      → commands_of (listing_value x w)
        ≡ ok (command_entries x.float_lt x.float_text (all_commands w.registry))
  unfolding commands_of listing_value get_or dict_get text_eq iterate
  commands_of-listing_value w =
      ap ok (items-to_json_list (command_entries x.float_lt x.float_text (all_commands w.registry)))

  -- The profile of an instrument that is reached at `host` and `port`.
  abbrev pub profile_of : World t → Json
  profile_of w = json_dict (
      to_json_dict (
        (lit "identity", identity_fields w)
        ∷ (lit "connection", connection host port)
        ∷ (
          lit "commands",
          json_list (
              to_json_list (
                map (profile_command x.float_lt x.float_text)
                  (listed x.float_lt x.float_text (all_commands w.registry)))),
        )
        ∷ []))

  -- The profile that `build_profile` makes of an instrument's own answers: its four identity fields, if
  -- none has a comma; the connection; and each listed command in the registry's order, with its fields
  -- and, unless they are empty, group, description and parameters. The texts have no surrogates, and
  -- each float is written as a float.
  pub build_profile-answers :
      (w : World t)
      → NoComma w.manufacturer
      → NoComma w.model
      → NoComma w.serial
      → NoComma w.firmware_version
      → IsWritable (listing_value x w)
      → build_profile float_truthy
          (idn_string x w)
          (commands_json x.float_lt x.float_text (identity_dict x w) w.registry)
          host
          port
        ≡ ok (profile_of w)
  unfolding build_profile idn_string identity part_or_unknown
  build_profile-answers w hm ho hs hf writable =
      let read = loads-commands_json x w writable in
      let cmds =
        profile_entries-command_entries x.float_lt x.float_text float_truthy
          (all_commands w.registry) in
      let parts = identity_split w.manufacturer w.model w.serial w.firmware_version hm ho hs hf in
      rw (read, commands_of-listing_value w, cmds, parts) refl

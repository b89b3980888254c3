-- ===== src/Examples/Dialogue.antt =====
-- A client and an instrument at concrete inputs.
use pynq_sdk.Prelude.{◌≡◌, refl, true, [], ◌∷◌, arith, map}
use pynq_sdk.Python.Text.{Bytes, lit}
use pynq_sdk.Python.Exception.{ok}
use pynq_sdk.Python.Int.{pos}
use pynq_sdk.Hislip.{Message}
use pynq_sdk.Session.{Session}
use pynq_sdk.Python.Text.{Text}
use pynq_sdk.Prelude.{none}
use pynq_sdk.Python.Json.{Json, dumps}
use pynq_sdk.Profile.Main.{Args}
use pynq_sdk.Profile.Program.{Delivers, output, run_on, main_async-session}
use pynq_sdk.Profile.Client.{query_instrument}
use pynq_sdk.Profile.Client.Replies.{Fitting, initialize, write_all, fitting}
use pynq_sdk.Profile.Dialogue.{
  identity, listing, begun, served, questions, query_instrument-session,
}
use pynq_sdk.Session.Exchange.{exchanges, rested}
use pynq_sdk.Session.Steps.{Runs}
use pynq_sdk.Examples.Listing.{outside, idle}
use pynq_sdk.Builtins.{idn_string, identity_dict}
use pynq_sdk.System.{commands_json}
use pynq_sdk.Python.Dict
use pynq_sdk.Python.Text.{text_eq}
use pynq_sdk.Registry.{new_registry, register_all, all_commands}
use pynq_sdk.Python.Int.{str_int}
use pynq_sdk.Python.Json.{json_dict, json_list, to_json_dict, to_json_list}
use pynq_sdk.Python.Json.Openings.{IsWritable}
use pynq_sdk.Profile.{build_profile, connection}
use pynq_sdk.Profile.Listing.{identity_fields, profile_command, listed, build_profile-answers}
use pynq_sdk.Profile.Written.{listing_value}
use pynq_sdk.Python.Struct.{of_be}
use pynq_sdk.Hislip.{recv_message}
use pynq_sdk.Profile.Client.{recv_msg}
use pynq_sdk.Profile.Client.Agrees.{recv_msg-recv_message}
use pynq_sdk.Builtins.Commands.{register_builtins}

identity-Fitting : Fitting (identity outside 1 idle)
unfolding idn_string register_builtins
identity-Fitting = fitting _ refl

listing-Fitting : Fitting (listing outside 1 idle)
unfolding commands_json identity_dict register_builtins Dict.get Dict.put text_eq new_registry
    str_int
listing-Fitting = fitting (listing outside 1 idle) refl

query_instrument-session_example :
    (s : Session) × (sent written : Bytes) × Runs outside
      (exchanges questions)
      (begun outside 1 idle, served outside 1 idle)
      (rested s, served outside 1 idle)
    × (write_all s.sent ≡ ok sent)
    × (query_instrument sent ≡ ok ((identity outside 1 idle, listing outside 1 idle), written))
    × (write_all (initialize ∷ questions) ≡ ok written)
query_instrument-session_example =
    query_instrument-session outside 1 idle identity-Fitting listing-Fitting

idle-IsWritable : IsWritable (listing_value outside idle)
unfolding IsWritable listing_value identity_dict text_eq new_registry register_all Dict.get Dict.put
idle-IsWritable = ground arith

build_profile-answers_example :
    build_profile
      (λ s. true)
      (idn_string outside idle)
      (commands_json outside.float_lt outside.float_text (identity_dict outside idle) idle.registry)
      (lit "pynq")
      (pos 4880)
    ≡ ok (
        json_dict (
          to_json_dict (
            (lit "identity", identity_fields idle)
            ∷ (lit "connection", connection (lit "pynq") (pos 4880))
            ∷ (
              lit "commands",
              json_list (
                  to_json_list (
                    map
                      (profile_command outside.float_lt outside.float_text)
                      (listed outside.float_lt outside.float_text (all_commands idle.registry)))),
            )
            ∷ [])))
build_profile-answers_example =
    build_profile-answers outside (λ s. true) (lit "pynq") (pos 4880) idle (ground arith)
      (ground arith) (ground arith) (ground arith) idle-IsWritable

abbrev wire : Bytes
wire = b'H' ∷ b'S' ∷ 7 ∷ 0 ∷ 0 ∷ 0 ∷ 0 ∷ 1 ∷ 0 ∷ 0 ∷ 0 ∷ 0 ∷ 0 ∷ 0 ∷ 0 ∷ 2 ∷ b'O' ∷ b'K' ∷ b'H' ∷ []

abbrev reply_ok : Message
reply_ok = record { msg_type = 7; control_code = 0; msg_param = 1; payload = lit "OK" }

recv_msg-recv_message_example : recv_msg wire ≡ ok (reply_ok, lit "H")
unfolding recv_message text_eq of_be
recv_msg-recv_message_example = recv_msg-recv_message wire (lit "H") reply_ok (ground arith) refl

abbrev to_file : Args
to_file = record { host = lit "pynq"; port = pos 4880; out = lit "profile.yaml" }

served-IsWritable : IsWritable (listing_value outside (served outside 1 idle))
unfolding IsWritable listing_value identity_dict text_eq new_registry register_all Dict.get Dict.put
    register_builtins
served-IsWritable = ground arith

-- The writer of YAML is any function.
abbrev as_yaml : Json → Text
as_yaml = dumps

main_async-session_example :
    (s : Session) × (sent : Bytes) × Runs outside
      (exchanges questions)
      (begun outside 1 idle, served outside 1 idle)
      (rested s, served outside 1 idle)
    × (write_all s.sent ≡ ok sent)
    × Delivers to_file
        (output outside 1 idle as_yaml (λ path text. none) (λ s. true) to_file)
        (run_on outside 1 idle as_yaml (λ path text. none) (λ s. true) to_file sent)
main_async-session_example =
    main_async-session outside 1 idle as_yaml (λ path text. none) (λ s. true) to_file
      identity-Fitting listing-Fitting (ground arith) (ground arith) (ground arith) (ground arith)
      served-IsWritable refl

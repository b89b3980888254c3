-- ===== src/Profile/Dialogue.antt =====
-- The profile generator's client and a session of the instrument, connected.
use mathlib.Core.Path.{subst}
use pynq_sdk.Prelude.{ℕ, ◌≡◌, refl, sym, ◌∙◌, ap, List, [], ◌∷◌, ◌++◌, arith}
use pynq_sdk.Python.Text.{Text, Bytes, lit}
use pynq_sdk.Python.Exception.{ok}
use pynq_sdk.Hislip.{Message}
use pynq_sdk.Hislip.Codec.{Fits, header_of}
use pynq_sdk.World.{Types, World, Externals}
use pynq_sdk.System.{commands_json}
use pynq_sdk.Builtins.{idn_string, identity_dict}
use pynq_sdk.Builtins.Commands.{register_builtins}
use pynq_sdk.Builtins.Replies.{dispatch-idn, dispatch-commands}
use pynq_sdk.Session.{Session, new_session, handshake}
use pynq_sdk.Session.Loops.{begin_run}
use pynq_sdk.Session.Steps.{Runs, Runs-append, stay}
use pynq_sdk.Session.Exchange.{exchanges, rested, data_end, replies, command_served}
use pynq_sdk.Profile.Client.{query_instrument}
use pynq_sdk.Python.Json.{dumps}
use pynq_sdk.Session.Loops.{command_text}
use pynq_sdk.Session.Handshake.{handshake_initialize}
use pynq_sdk.Profile.Client.Replies.{
  Fitting, initialize, ask, write_all, data_end-Fitting, frames, write_all-frames, initialize-Fits,
  ask-Fits, idn_query, commands_query, asked, asked-frames, query_instrument-replies,
}

-- What the client asks once it is connected.
abbrev pub questions : List Message
questions = ask idn_query ∷ ask commands_query ∷ []

module _ {t : Types} (x : Externals t) (session_id : ℕ) (w0 : World t) where
  -- The instrument once its built-in commands are registered, and what it answers.
  abbrev pub served : World t
  served = register_builtins w0

  abbrev pub identity : Text
  identity = idn_string x served

  abbrev pub listing : Text
  listing = commands_json x.float_lt x.float_text (identity_dict x served) served.registry

  -- The session of the client after its INITIALIZE.
  abbrev pub begun : Session
  unfolding handshake begin_run new_session
  begun = (handshake (ok initialize) (begin_run (new_session session_id))).1

  begun-rested : rested begun ≡ begun
  unfolding begun
  begun-rested = refl

  -- The session answers the INITIALIZE with a frame.
  begun_sent : (opening : Message) × Fits (header_of opening) × (begun.sent ≡ opening ∷ [])
  unfolding begun
  begun_sent =
      let (opening, answers, sendable, _, _) =
        handshake_initialize initialize (begin_run (new_session session_id)) refl (omega arith) in
      (opening, sendable.fits, ap (λ r. r.1.sent) answers)

  sent_identity : replies 1 identity ≡ data_end 1 identity ∷ []
  unfolding replies idn_string
  sent_identity = by_manufacturer served.manufacturer
    where
      by_manufacturer :
          (m : Text)
          → let s =
              m
              ++ lit ","
              ++ served.model
              ++ lit ","
              ++ served.serial
              ++ lit ","
              ++ served.firmware_version in
            replies 1 s ≡ data_end 1 s ∷ []
      by_manufacturer [] = refl
      by_manufacturer (c ∷ m) = refl

  sent_listing : replies 1 listing ≡ data_end 1 listing ∷ []
  unfolding replies commands_json dumps
  sent_listing = refl

  dialogue :
      Fitting identity
      → Fitting listing
      → (s : Session) × (opening : Message) × Runs x
          (exchanges questions)
          (begun, served)
          (rested s, served)
        × Fits (header_of opening)
        × (s.sent ≡ opening ∷ ask identity ∷ ask listing ∷ [])
  unfolding command_text
  dialogue fi fl =
      let (s1, run1, sent1) =
        command_served x (ask idn_query) begun served served identity refl (dispatch-idn x w0) in
      let (s2, run2, sent2) =
        command_served x (ask commands_query) s1 served served listing refl
          (dispatch-commands x w0) in
      let (opening, f, first) = begun_sent in
      let told1 = data_end-Fitting identity fi in
      let all1 : s1.sent ≡ opening ∷ ask identity ∷ [] =
        sent1
        ∙ ap (λ r. r ++ replies 1 identity) first
        ∙ ap (λ r. opening ∷ r) (sent_identity ∙ ap (λ m. m ∷ []) told1) in
      let told2 = data_end-Fitting listing fl in
      (
        s2,
        opening,
        subst (λ s. Runs x (exchanges questions) (s, served) (rested s2, served)) begun-rested
            (Runs-append x run1 (Runs-append x run2 stay)),
        f,
        sent2
            ∙ ap (λ r. s1.sent ++ r) (sent_listing ∙ ap (λ m. m ∷ []) told2)
            ∙ ap (λ r. r ++ ask listing ∷ []) all1,
      )

  -- The client of the profile generator and a session of an instrument whose built-in commands are
  -- registered understand each other: the client writes the frames of three messages, an INITIALIZE
  -- and the two queries; the session that receives the queries, and runs each once, can have sent
  -- frames of which the client makes the identity and the listing of the instrument. Both are ASCII
  -- and fit a frame.
  pub query_instrument-session :
      Fitting identity
      → Fitting listing
      → (s : Session) × (sent written : Bytes) × Runs x
          (exchanges questions)
          (begun, served)
          (rested s, served)
        × (write_all s.sent ≡ ok sent)
        × (query_instrument sent ≡ ok ((identity, listing), written))
        × (write_all (initialize ∷ questions) ≡ ok written)
  query_instrument-session fi fl =
      let (s, opening, run, f, sent) = dialogue fi fl in
      let answers = opening ∷ ask identity ∷ ask listing ∷ [] in
      (
        s,
        frames answers,
        asked,
        run,
        ap write_all sent
            ∙ write_all-frames answers
                (f, (ask-Fits identity fi.bounded, (ask-Fits listing fl.bounded, tt))),
        query_instrument-replies opening identity listing f fi fl,
        write_all-frames (initialize ∷ questions) (
          initialize-Fits,
          (ask-Fits idn_query (omega arith), (ask-Fits commands_query (omega arith), tt)),
        )
            ∙ ap ok (sym asked-frames),
      )

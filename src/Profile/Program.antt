-- ===== src/Profile/Program.antt =====
-- The profile generator, run against a session of an instrument.
use pynq_sdk.Prelude.{ℕ, ◌≡◌, refl, Bool, true, false, Option, none, [], ◌∷◌, if◌then◌else◌}
use pynq_sdk.Python.Text.{Text, Bytes, lit, text_eq}
use pynq_sdk.Python.Exception.{Exception, Result, ok, raised}
use pynq_sdk.Python.Json.{Json}
use pynq_sdk.Python.Json.Openings.{IsWritable}
use pynq_sdk.World.{Types, World, Externals}
use pynq_sdk.Builtins.Commands.{register_builtins}
use pynq_sdk.Session.{Session}
use pynq_sdk.Session.Exchange.{exchanges, rested}
use pynq_sdk.Session.Steps.{Runs}
use pynq_sdk.Profile.{build_profile}
use pynq_sdk.Profile.Client.{query_instrument}
use pynq_sdk.Profile.Client.Replies.{Fitting, write_all}
use pynq_sdk.Profile.Dialogue.{
  questions, served, identity, listing, begun, query_instrument-session,
}
use pynq_sdk.Profile.Listing.{NoComma, profile_of, build_profile-answers}
use pynq_sdk.Profile.Written.{listing_value}
use pynq_sdk.Profile.Main.{Args, Ending, Run, emit_profile, main_async}

-- What `query_instrument` returns, without the bytes that it wrote.
abbrev pub answers_of : Result ((Text × Text) × Bytes) → Result (Text × Text)
answers_of (raised e) = raised e
answers_of (ok (answers, written)) = ok answers

-- A run that delivered this text, and nothing else, where the arguments ask for it.
pub record Delivers (args : Args) (text : Text) (run : Run) : Type 0 where
  pub ending : run.ending ≡ Ending.returned
  pub stdout : run.stdout ≡ (if text_eq args.out (lit "-") then text ∷ [] else [])
  pub files : run.files ≡ (if text_eq args.out (lit "-") then [] else (args.out, text) ∷ [])

module _ {t : Types} (x : Externals t) (session_id : ℕ) (w0 : World t) (yaml_dump : Json → Text)
    (write_file : Text → Text → Option Exception) (float_truthy : Text → Bool) (args : Args) where
  abbrev pub output : Text
  output = yaml_dump (profile_of x float_truthy args.host args.port (served x session_id w0))

  abbrev pub run_on : Bytes → Run
  run_on sent =
      main_async yaml_dump write_file float_truthy args (answers_of (query_instrument sent))

  main_async-answers :
      write_file args.out output ≡ none
      → build_profile float_truthy
          (identity x session_id w0)
          (listing x session_id w0)
          args.host
          args.port
        ≡ ok (profile_of x float_truthy args.host args.port (served x session_id w0))
      → Delivers args output (
          main_async yaml_dump write_file float_truthy args
            (ok (identity x session_id w0, listing x session_id w0)))
  unfolding main_async emit_profile
  main_async-answers writes built = by_target (text_eq args.out (lit "-")) refl
    where
      by_target :
          (b : Bool)
          → text_eq args.out (lit "-") ≡ b
          → Delivers args output (
              main_async yaml_dump write_file float_truthy args
                (ok (identity x session_id w0, listing x session_id w0)))
      by_target true e =
          rw (built, e) (record { ending = refl; stdout = rw e refl; files = rw e refl })
      by_target false e =
          rw (built, e, writes) (record { ending = refl; stdout = rw e refl; files = rw e refl })

  -- The profile generator against a session of an instrument whose built-in commands are registered:
  -- the session that receives its queries, and runs each once, can have sent frames on which the program ends well and
  -- delivers the YAML of the instrument's profile, on standard output for `-` and else in the file.
  -- The identity and the listing are ASCII and fit a frame, no identity field has a comma, the
  -- listing's texts have no surrogates and its floats are written as floats, and the file can be
  -- written.
  pub main_async-session :
      Fitting (identity x session_id w0)
      → Fitting (listing x session_id w0)
      → NoComma w0.manufacturer
      → NoComma w0.model
      → NoComma w0.serial
      → NoComma w0.firmware_version
      → IsWritable (listing_value x (served x session_id w0))
      → write_file args.out output ≡ none
      → (s : Session) × (sent : Bytes) × Runs x
          (exchanges questions)
          (begun x session_id w0, served x session_id w0)
          (rested s, served x session_id w0)
        × (write_all s.sent ≡ ok sent)
        × Delivers args output (run_on sent)
  unfolding register_builtins
  main_async-session fi fl hm ho hs hf writable writes =
      let (s, sent, written, run, told, read, asked) =
        query_instrument-session x session_id w0 fi fl in
      let built =
        build_profile-answers x float_truthy args.host args.port (served x session_id w0) hm ho hs
          hf writable in
      (s, sent, run, told, rw read (main_async-answers writes built))

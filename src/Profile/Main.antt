-- ===== src/Profile/Main.antt =====
-- `main_async` of tools/generate_profile.py, with what `asyncio.wait_for(query_instrument(…))` came
-- to. The package `yaml` and the file system are parameters.
use pynq_sdk.Prelude.{ℕ, Bool, Option, none, some, List, [], ◌∷◌, ◌++◌, if◌then◌else◌}
use pynq_sdk.Python.Text.{Text, lit, text_eq}
use pynq_sdk.Python.Int.{ℤ, str_int}
use pynq_sdk.Python.Exception.{Exception, Result, ok, raised, str_exception}
use pynq_sdk.Python.Json.{Json}
use pynq_sdk.Dispatch.{is_timeout}
use pynq_sdk.Profile.{build_profile}

pub record Args : Type 0 where
  pub host : Text
  pub port : ℤ
  pub out : Text

-- How the program ends: at its last line, by `sys.exit(n)`, or by an exception that nothing catches.
pub data Ending : Type 0 where
  returned : Ending
  exited : ℕ → Ending
  uncaught : Exception → Ending

-- What the program printed on its two streams, the files it wrote, and how it ended.
pub record Run : Type 0 where
  pub stderr : List Text
  pub stdout : List Text
  pub files : List (Text × Text)
  pub ending : Ending

unfoldable pub address : Args → Text
unfolding str_int
address args = args.host ++ lit ":" ++ str_int args.port

module _ (yaml_dump : Json → Text) (write_file : Text → Text → Option Exception)
    (float_truthy : Text → Bool) where
  -- `with open(args.out, "w") as f: f.write(output)`, and the line that follows
  abbrev write_output : Args → Text → Option Exception → Run → Run
  write_output args output (some e) run = record run { ending = Ending.uncaught e }
  write_output args output none run = record run {
    files = (args.out, output) ∷ [];
    stderr = run.stderr ++ (lit "Profile written to " ++ args.out) ∷ [];
  }

  unfoldable pub emit_profile : Args → Result Json → Run → Run
  unfolding text_eq
  emit_profile args (raised e) run = record run { ending = Ending.uncaught e }
  emit_profile args (ok profile) run =
      let output = yaml_dump profile in
      if text_eq args.out (lit "-")
      then record run { stdout = output ∷ [] }
      else write_output args output (write_file args.out output) run

  unfoldable pub main_async : Args → Result (Text × Text) → Run
  unfolding emit_profile address build_profile str_exception
  main_async args (raised e) = record {
    stderr =
        (lit "Connecting to " ++ address args ++ lit " ...")
        ∷ (if is_timeout e.kind
            then lit "ERROR: Timed out connecting to " ++ address args
            else lit "ERROR: " ++ str_exception e)
        ∷ [];
    stdout = [];
    files = [];
    ending = Ending.exited 1;
  }
  main_async args (ok (idn, commands_json)) =
      emit_profile args (build_profile float_truthy idn commands_json args.host args.port) (record {
        stderr = (lit "Connecting to " ++ address args ++ lit " ...") ∷ (lit "IDN: " ++ idn) ∷ [];
        stdout = [];
        files = [];
        ending = Ending.returned;
      })

-- ===== src/Examples/Listing.antt =====
-- The registry and the dispatcher at concrete inputs.
use pynq_sdk.Prelude.{
  ◌≡◌, refl, ℕ, false, Option, none, some, List, [], ◌∷◌, ◌++◌, inr, if◌then◌else◌, length,
}
use pynq_sdk.Python.Text.{Text, lit, text_eq}
use pynq_sdk.Python.Int.{negsuc, str_ℕ}
use pynq_sdk.Python.Exception.{ok}
use pynq_sdk.Python.Dict
use pynq_sdk.Python.Dict.{◌=?◌, text_key}
use pynq_sdk.Errors.{push_error}
use pynq_sdk.Response.{respond_error}
use pynq_sdk.Scpi.{normalize_scpi}
use pynq_sdk.Params.{Arg, extract_args}
use pynq_sdk.Registry.{
  query, write, CommandDescriptor, CommandRegistry, new_registry, register, lookup, register_all,
}
use pynq_sdk.Registry.Ordered.{
  IsConsistent, last_for, new_registry-IsConsistent, register_all-IsConsistent, lookup-register_all,
}
use pynq_sdk.Overlay.{Ip, new_overlay_manager}
use pynq_sdk.Backend.{
  Backend, mock_backend, new_mock_backend, load_mock_overlay, is_overlay_loaded, get_ip,
}
use pynq_sdk.World.{Types, Handler, builtin, user, World, Value, Reply, Externals, ese_write}
use pynq_sdk.Builtins.Masks.{SameMasks}
use pynq_sdk.Builtins.Commands.{standard_cmds, register_builtins}
use pynq_sdk.Builtins.Commands.Precedence.{builtin_cmds, lookup-register_builtins}
use pynq_sdk.Dispatch.{signature, finish, call_handler, is_coroutine, limit_of, dispatch_command}
use pynq_sdk.Dispatch.Outcomes.{Selects, Finds, none_left, found, dispatch_ready}
use pynq_sdk.Prelude.{true}
use pynq_sdk.Dispatch.Refused.{
  Lacks, absent, none_lacks, not_ready, run_or_undefined, dispatch_not_ready, dispatch-register_all,
}
use pynq_sdk.Dispatch.Masks.{dispatch_builtin-SameMasks}

-- A client program: its handlers are numbered, and answer with the number of their arguments.
abbrev pub client : Types
client = record { Float = ℕ; UserHandler = ℕ; Callback = ℕ; Bitstream = Text; Object = ℕ }

abbrev run : ℕ → List (Value client) → Option ℕ → World client → Reply client
run h values limit w = (ok (some (str_ℕ (length values))), w)

abbrev pub outside : Externals client
outside = record {
  parse_float = λ s. none;
  float_lt = λ a b. false;
  float_text = λ a. [];
  pynq = none;
  signature = λ h. [];
  is_coroutine = λ h. false;
  call = run;
  run_callback = λ c w. w;
}

abbrev read_led : List Text → CommandDescriptor ℕ (Handler ℕ)
read_led ips = record {
  scpi_command = lit "LED?";
  type = query;
  handler = user 3;
  params = [];
  requires_ips = ips;
  requires_overlay = none;
  timeout_ms = 0;
  group = [];
  description = [];
}

abbrev two : List (CommandDescriptor ℕ (Handler ℕ))
two = read_led (lit "led" ∷ []) ∷ read_led [] ∷ []

abbrev empty : CommandRegistry ℕ (Handler ℕ) ℕ
empty = new_registry

register_all-IsConsistent_example : IsConsistent (register_all two empty)
register_all-IsConsistent_example = register_all-IsConsistent two new_registry-IsConsistent

lookup-register_all_example :
    lookup (lit "LED?") (register_all two empty)
    ≡ last_for (lit "LED?") two (lookup (lit "LED?") empty)
lookup-register_all_example = lookup-register_all two empty (lit "LED?")

abbrev bench : Backend Text → World client
bench b = record {
  manufacturer = lit "ARC";
  model = lit "M";
  serial = lit "1";
  firmware_version = lit "0.1";
  registry = register_all (read_led (lit "led" ∷ []) ∷ []) empty;
  errors = [];
  registers = record { esr = 0; ese = 0; sre = 0 };
  backend = b;
  manager = new_overlay_manager;
  has_manager = false;
}

abbrev pub idle : World client
idle = bench (mock_backend new_mock_backend)

lookup-register_builtins_example :
    lookup (lit "LED?") (register_builtins idle).registry
    ≡ last_for (lit "LED?") (builtin_cmds false) (lookup (lit "LED?") idle.registry)
lookup-register_builtins_example = lookup-register_builtins (lit "LED?") idle

dispatch-register_all_example :
    dispatch_command outside (lit "foo 1") idle
    ≡ run_or_undefined outside
        (last_for (lit "FOO") (read_led (lit "led" ∷ []) ∷ []) none)
        (lit "1" ∷ [])
        idle
dispatch-register_all_example =
    dispatch-register_all outside (lit "foo 1") idle (read_led (lit "led" ∷ []) ∷ []) b'F'
      (lit "OO") (lit "1" ∷ []) (unfold normalize_scpi in refl) refl

led_Selects :
    (b : Backend Text) → Selects outside (lit "led?") (bench b) (read_led (lit "led" ∷ [])) []
led_Selects b = record {
  first = b'L';
  rest = lit "ED?";
  parsed = unfold normalize_scpi in refl;
  registered = unfold lookup register_all register new_registry Dict.get Dict.put text_eq in refl;
}

-- An overlay without the IP that the command requires.
abbrev other_overlay : Backend Text
other_overlay = mock_backend (load_mock_overlay (lit "adc" ∷ []) new_mock_backend)

led_Lacks : Lacks outside (bench other_overlay) (lit "led" ∷ []) (lit "led" ∷ [])
unfolding get_ip load_mock_overlay new_mock_backend Dict.get Dict.put text_eq
led_Lacks = absent refl none_lacks

dispatch_not_ready_example : dispatch_command outside (lit "led?") (bench other_overlay) ≡ (
  respond_error (negsuc 199) (not_ready true (lit "led" ∷ [])),
  record (bench other_overlay) {
    errors = push_error (negsuc 199) (not_ready true (lit "led" ∷ [])) [];
  },
)
dispatch_not_ready_example =
    dispatch_not_ready outside (lit "led?") (bench other_overlay) true (led_Selects other_overlay)
      (λ e. cc) (unfold is_overlay_loaded load_mock_overlay in refl) led_Lacks (inr (λ e. cc))

abbrev with_led : Backend Text
with_led = mock_backend (load_mock_overlay (lit "led" ∷ []) new_mock_backend)

led_Finds :
    Finds outside (bench with_led) (lit "led" ∷ []) (Arg.object (Ip.mock_ip (lit "led")) ∷ [])
led_Finds =
    found {name = lit "led"} {ip = Ip.mock_ip (lit "led")}
      (unfold get_ip load_mock_overlay new_mock_backend Dict.get Dict.put text_eq in refl) none_left

dispatch_ready_example :
    dispatch_command outside (lit "led?") (bench with_led)
    ≡ finish outside (
        call_handler outside
          (user 3)
          ((Arg.object (Ip.mock_ip (lit "led")) ∷ []) ++ [])
          (if is_coroutine outside (user 3) then limit_of 0 else none)
          (bench with_led))
dispatch_ready_example =
    dispatch_ready outside (lit "led?") (bench with_led) (led_Selects with_led) led_Finds
      (inr (unfold is_overlay_loaded load_mock_overlay in refl))
      (unfold extract_args signature in refl)

abbrev started : World client
started = register_builtins idle

abbrev ese : CommandDescriptor ℕ (Handler ℕ)
ese = record {
  scpi_command = lit "*ESE";
  type = write;
  handler = builtin ese_write;
  params = [];
  requires_ips = [];
  requires_overlay = none;
  timeout_ms = 500;
  group = lit "IEEE488";
  description = lit "Set event status enable mask";
}

ese_Selects : Selects outside (lit "*ese 32") started ese (lit "32" ∷ [])
ese_Selects = record {
  first = b'*';
  rest = lit "ESE";
  parsed = unfold normalize_scpi in refl;
  registered =
      unfold lookup register_all register new_registry register_builtins standard_cmds Dict.get
        Dict.put text_eq in
      refl;
}

dispatch_builtin-SameMasks_example :
    SameMasks (dispatch_command outside (lit "*ese 32") started).1 started
dispatch_builtin-SameMasks_example =
    dispatch_builtin-SameMasks outside (lit "*ese 32") started ese_write ese_Selects refl

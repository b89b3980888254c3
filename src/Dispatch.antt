-- ===== src/Dispatch.antt =====
-- `HiSLIPSession._dispatch_command` of pynq_instrument/hislip_session.py: one command line to one
-- response, on the state that the sessions share.
pub mod Outcomes
pub mod Refused
pub mod Masks
use pynq_sdk.Prelude.{
  ℕ, Bool, true, false, not, ◌==◌, Option, none, some, List, [], ◌∷◌, ◌++◌, length, if◌then◌else◌,
}
use pynq_sdk.Python.Text.{Text, lit}
use pynq_sdk.Python.Int.{ℤ, negsuc}
use pynq_sdk.Python.Exception.{
  Kind, Exception, Result, ok, raised, ◌>>=◌, key_error, runtime_error, timeout_error,
  str_exception,
}
use pynq_sdk.Errors.{push_error}
use pynq_sdk.Response.{respond_error}
use pynq_sdk.Scpi.{normalize_scpi}
use pynq_sdk.Params.{Arg, Param, extract_args}
use pynq_sdk.Registry.{CommandDescriptor, lookup}
use pynq_sdk.Overlay.{Ip}
use pynq_sdk.Backend.{is_overlay_loaded, get_ip}
use pynq_sdk.World.{Types, Handler, builtin, user, World, Value, Reply, Externals}
use pynq_sdk.Builtins.{is_nil, repr_list, builtin_signature, builtin_is_coroutine, call_builtin}

-- `descriptor.timeout_ms / 1000.0 if descriptor.timeout_ms else None`, in milliseconds
abbrev pub limit_of : ℕ → Option ℕ
limit_of timeout_ms = if timeout_ms == 0 then none else some timeout_ms

abbrev pub is_timeout : Kind → Bool
is_timeout Kind.timeout_error = true
is_timeout _ = false

module _ {t : Types} (x : Externals t) where
  abbrev Descriptor : Type 0
  Descriptor = CommandDescriptor t.Float (Handler t.UserHandler)

  unfoldable pub signature : Handler t.UserHandler → List (Param t.Float (Ip t.Object))
  unfolding builtin_signature
  signature (builtin b) = builtin_signature b
  signature (user h) = x.signature h

  unfoldable pub is_coroutine : Handler t.UserHandler → Bool
  unfolding builtin_is_coroutine
  is_coroutine (builtin b) = builtin_is_coroutine b
  is_coroutine (user h) = x.is_coroutine h

  unfoldable pub call_handler :
      Handler t.UserHandler → List (Value t) → Option ℕ → World t → Reply t
  unfolding call_builtin
  call_handler (builtin b) args limit w = call_builtin x b args w
  call_handler (user h) args limit w = x.call h args limit w

  -- `push_error(pushed, message)`, then `return respond_error(shown, text)`
  abbrev pub refuse : ℤ → Text → Text → World t → Text × World t
  refuse code message shown w =
      (respond_error code shown, record w { errors = push_error code message w.errors })

  abbrev pub find_ip : World t → Text → Result (Ip t.Object)
  find_ip w name = get_ip x.pynq name w.backend w.manager

  -- The IPs that `get_ip` reports absent. Its two implementations raise nothing but the two
  -- exceptions that the loop catches.
  abbrev is_absent : Result (Ip t.Object) → Bool
  is_absent (ok ip) = false
  is_absent (raised e) = true

  unfoldable pub missing : World t → List Text → List Text
  missing w [] = []
  missing w (name ∷ names) =
      let rest = missing w names in if is_absent (find_ip w name) then name ∷ rest else rest

  unfoldable pub inject : World t → List Text → Result (List (Value t))
  inject w [] = ok []
  inject w (name ∷ names) = do ip ← find_ip w name; ips ← inject w names; ok (Arg.object ip ∷ ips)

  -- what the call's outcome is answered with
  unfoldable pub finish : Reply t → Text × World t
  finish (ok none, w) = ([], w)
  finish (ok (some s), w) = (s, w)
  finish (raised e, w) =
      if is_timeout e.kind
      then refuse (negsuc 199) (lit "Command timeout") (lit "Command timeout") w
      else refuse (negsuc 299) (str_exception e) (str_exception e) w

  -- inject the IPs, parse the arguments, call the handler
  abbrev pub all_args : Descriptor → List Text → World t → Result (List (Value t))
  all_args d args w = do
    injected ← inject w d.requires_ips
    parsed ← extract_args x.parse_float (signature d.handler) args (length injected)
    ok (injected ++ parsed)

  unfoldable pub run_handler : Descriptor → Result (List (Value t)) → World t → Text × World t
  unfolding call_handler finish is_coroutine
  run_handler d (raised e) w = refuse (negsuc 199) (str_exception e) (str_exception e) w
  run_handler d (ok values) w =
      let limit = if is_coroutine d.handler then limit_of d.timeout_ms else none in
      finish (call_handler d.handler values limit w)

  unfoldable pub run_command : Descriptor → List Text → World t → Text × World t
  unfolding run_handler missing
  run_command d args w =
      let absent = missing w d.requires_ips in
      let ready = run_handler d (all_args d args w) w in
      if is_nil d.requires_ips
      then ready
      else if not (is_overlay_loaded x.pynq w.backend w.manager)
      then refuse (negsuc 199) (lit "Hardware not ready") (lit "Hardware not ready") w
      else if is_nil absent
      then ready
      else (let message = lit "Hardware not ready: missing IPs " ++ repr_list absent in
          refuse (negsuc 199) message message w)

  abbrev run_found : Option Descriptor → List Text → World t → Text × World t
  run_found none args w = refuse (negsuc 99) (lit "Undefined header") (lit "Undefined command") w
  run_found (some d) args w = run_command d args w

  abbrev pub run_line : Text × List Text → World t → Text × World t
  run_line ([], args) w = ([], w)
  run_line (c ∷ m, args) w = run_found (lookup (c ∷ m) w.registry) args w

  unfoldable pub dispatch_command : Text → World t → Text × World t
  unfolding run_command normalize_scpi lookup
  dispatch_command cmd_str w = run_line (normalize_scpi cmd_str) w

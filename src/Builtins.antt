-- ===== src/Builtins.antt =====
-- The handlers of scpi_standard.py, scpi_system.py and scpi_overlay.py.
pub mod Commands
pub mod Masks
pub mod Replies
use Prim.Native.Nat.{bit_or}
use mathlib.Core.List.{reverse}
use pynq_sdk.Prelude.{
  not, ◌==◌, ℕ, Bool, true, false, Option, none, some, List, [], ◌∷◌, ◌++◌, map, if◌then◌else◌,
  length,
}
use pynq_sdk.Python.Text.{Text, lit, strip}
use pynq_sdk.Python.Int.{ℤ, pos, negsuc, low_byte}
use pynq_sdk.Python.Exception.{
  Exception, Result, ok, raised, raise, type_error, repr, str_exception, other_error,
}
use pynq_sdk.Errors.{push_error, pop_error, error_count, clear_errors, err_hardware}
use pynq_sdk.Response.{respond_int, respond_enum, respond_error, join}
use pynq_sdk.Params.{Annotation, Arg, Param}
use pynq_sdk.Registry.{CommandDescriptor, all_commands}
use pynq_sdk.Status.{get_status_byte, set_esr_bit, esr_opc, esr_dde}
use pynq_sdk.Overlay.{OverlayManager, load, unload, status, version, missing_ips, Ip}
use pynq_sdk.Backend.{Backend, mock_backend, pynq_backend, manager_of, is_overlay_loaded}
use pynq_sdk.System.{commands_json}
use pynq_sdk.World.{
  Types, Builtin, Handler, builtin, user, World, Value, Reply, Externals, idn, rst, cls, tst,
  opc_query, opc, wai, esr_query, ese_query, ese_write, sre_query, sre_write, stb_query, syst_err,
  syst_err_count, commands, overlay_load, overlay_status, overlay_version, overlay_unload,
}

-- `str(list_of_texts)`
unfoldable pub repr_list : List Text → Text
unfolding join
repr_list names = lit "[" ++ join (lit ", ") (map repr names) ++ lit "]"

-- The parameters of a built-in handler. Both modules that have any postpone annotations.
unfoldable pub builtin_signature : {F O : Type 0} → Builtin → List (Param F O)
builtin_signature ese_write =
    (record { name = lit "mask"; annotation = Annotation.postponed (lit "int"); default = none })
    ∷ []
builtin_signature sre_write =
    (record { name = lit "mask"; annotation = Annotation.postponed (lit "int"); default = none })
    ∷ []
builtin_signature overlay_load =
    (record { name = lit "bitfile"; annotation = Annotation.postponed (lit "str"); default = none })
    ∷ []
builtin_signature _ = []

unfoldable pub builtin_is_coroutine : Builtin → Bool
builtin_is_coroutine overlay_load = true
builtin_is_coroutine overlay_unload = true
builtin_is_coroutine _ = false

abbrev pub answer : {t : Types} → Text → World t → Reply t
answer s w = (ok (some s), w)

abbrev unsupported : Text → Result ℕ
unsupported name =
    raise type_error (lit "unsupported operand type(s) for &: '" ++ name ++ lit "' and 'int'")

-- `mask & 0xFF`, of whatever value was passed
unfoldable pub mask_byte : {F O : Type 0} → Arg F O → Result ℕ
mask_byte (Arg.int n) = ok (low_byte n)
mask_byte (Arg.bool b) = ok (if b then 1 else 0)
mask_byte (Arg.float x) = unsupported (lit "float")
mask_byte (Arg.text s) = unsupported (lit "str")
mask_byte (Arg.object o) = unsupported (lit "object")

-- `s.strip(q)` for one character
unfoldable pub lstrip_char : ℕ → Text → Text
lstrip_char q [] = []
lstrip_char q (c ∷ s) = if c == q then lstrip_char q s else c ∷ s

unfoldable pub strip_char : ℕ → Text → Text
unfolding lstrip_char
strip_char q s = reverse (lstrip_char q (reverse (lstrip_char q s)))

abbrev pub is_nil : List Text → Bool
is_nil [] = true
is_nil (n ∷ ns) = false

module _ {t : Types} (x : Externals t) where
  push : ℤ → Text → World t → World t
  push code message w = record w { errors = push_error code message w.errors }

  -- one failed check of the self-test
  fail_test : Text → World t → Reply t
  unfolding push
  fail_test message w =
      let w' = push err_hardware message w in
      answer (respond_int (pos 1)) (record w' { registers = set_esr_bit esr_dde w'.registers })

  -- `isinstance(om, OverlayManager)`: only a `PYNQBackend` has `_om`
  abbrev backend_missing : Backend t.Bitstream → World t → List Text → List Text
  backend_missing (mock_backend b) w required = []
  backend_missing (pynq_backend r) w required = missing_ips (manager_of r w.manager) required

  -- the loop of `_tst`
  self_test : List (CommandDescriptor t.Float (Handler t.UserHandler)) → World t → Reply t
  unfolding fail_test
  self_test [] w = answer (respond_int (pos 0)) w
  self_test (d ∷ ds) w =
      let rest = self_test ds w in
      let missing = backend_missing w.backend w d.requires_ips in
      if is_nil d.requires_ips
      then rest
      else if not (is_overlay_loaded x.pynq w.backend w.manager)
      then fail_test (lit "Self-test: overlay not loaded") w
      else if is_nil missing
      then rest
      else fail_test (lit "Self-test: missing IPs " ++ repr_list missing) w

  unfoldable pub idn_string : World t → Text
  idn_string w =
      w.manufacturer ++ lit "," ++ w.model ++ lit "," ++ w.serial ++ lit "," ++ w.firmware_version

  unfoldable pub identity_dict : World t → List (Text × Text)
  identity_dict w =
      (lit "manufacturer", w.manufacturer)
      ∷ (lit "model", w.model)
      ∷ (lit "serial", w.serial)
      ∷ (lit "firmware", w.firmware_version)
      ∷ []

  -- `registers.ese = mask & 0xFF`
  abbrev write_ese : Result ℕ → World t → Reply t
  write_ese (raised e) w = (raised e, w)
  write_ese (ok n) w = answer (lit "OK") (record w { registers = record w.registers { ese = n } })

  abbrev write_sre : Result ℕ → World t → Reply t
  write_sre (raised e) w = (raised e, w)
  write_sre (ok n) w = answer (lit "OK") (record w { registers = record w.registers { sre = n } })

  -- `_overlay_load`, with the outcome of `load_async`
  abbrev load_reply : Result (OverlayManager t.Bitstream) → World t → Reply t
  load_reply (ok om) w = answer (lit "OK") (record w { manager = om })
  load_reply (raised e) w =
      answer (respond_error err_hardware (str_exception e))
        (record w { errors = push_error err_hardware (str_exception e) w.errors })

  overlay_load_handler : Text → World t → Reply t
  overlay_load_handler raw w =
      let bitfile = strip_char b'\'' (strip_char b'"' (strip raw)) in
      load_reply (load x.pynq bitfile w.manager) w

  abbrev or_unknown : Text → Text
  or_unknown [] = lit "UNKNOWN"
  or_unknown (c ∷ s) = c ∷ s

  -- a wrong number of arguments
  abbrev bad_call : World t → Reply t
  bad_call w = (raise type_error (lit "wrong number of positional arguments"), w)

  unfoldable pub call_builtin : Builtin → List (Value t) → World t → Reply t
  unfolding self_test idn_string identity_dict overlay_load_handler mask_byte
  call_builtin idn [] w = answer (idn_string w) w
  call_builtin rst [] w = answer (lit "OK") w
  call_builtin cls [] w =
      answer (lit "OK")
        (record w { registers = record w.registers { esr = 0 }; errors = clear_errors w.errors })
  call_builtin tst [] w = self_test (all_commands w.registry) w
  call_builtin opc_query [] w = answer (respond_int (pos 1)) w
  call_builtin opc [] w = answer [] (record w { registers = set_esr_bit esr_opc w.registers })
  call_builtin wai [] w = answer (lit "OK") w
  call_builtin esr_query [] w =
      answer (respond_int (pos w.registers.esr))
        (record w { registers = record w.registers { esr = 0 } })
  call_builtin ese_query [] w = answer (respond_int (pos w.registers.ese)) w
  call_builtin ese_write (mask ∷ []) w = write_ese (mask_byte mask) w
  call_builtin sre_query [] w = answer (respond_int (pos w.registers.sre)) w
  call_builtin sre_write (mask ∷ []) w = write_sre (mask_byte mask) w
  call_builtin stb_query [] w = answer (respond_int (pos (get_status_byte false w.registers))) w
  call_builtin syst_err [] w = let (s, q) = pop_error w.errors in answer s (record w { errors = q })
  call_builtin syst_err_count [] w = answer (respond_int (pos (error_count w.errors))) w
  call_builtin commands [] w =
      answer (commands_json x.float_lt x.float_text (identity_dict w) w.registry) w
  call_builtin overlay_load ((Arg.text raw) ∷ []) w = overlay_load_handler raw w
  call_builtin overlay_status [] w = answer (status w.manager) w
  call_builtin overlay_version [] w = answer (or_unknown (version w.manager)) w
  call_builtin overlay_unload [] w = answer (lit "OK") (record w { manager = unload w.manager })
  call_builtin _ _ w = bad_call w

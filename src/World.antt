-- ===== src/World.antt =====
-- The state that all sessions of one instrument share, and what stands outside the repository: user
-- handlers, `pynq`, floats. (`Instrument` of pynq_instrument/instrument.py, with the module globals
-- of errors.py and scpi_standard.py.)
use pynq_sdk.Prelude.{ℕ, Bool, Option, List}
use pynq_sdk.Python.Text.{Text}
use pynq_sdk.Python.Exception.{Result}
use pynq_sdk.Errors.{Errors}
use pynq_sdk.Params.{Arg, Param}
use pynq_sdk.Registry.{CommandRegistry}
use pynq_sdk.Status.{Registers}
use pynq_sdk.Overlay.{Pynq, Ip, OverlayManager}
use pynq_sdk.Backend.{Backend}

pub record Types : Type 1 where
  pub Float : Type 0
  pub UserHandler : Type 0
  pub Callback : Type 0
  pub Bitstream : Type 0
  pub Object : Type 0

-- The handlers that the SDK registers itself.
pub data Builtin : Type 0 where
  idn rst cls tst opc_query opc wai esr_query ese_query ese_write sre_query sre_write stb_query :
      Builtin
  syst_err syst_err_count commands : Builtin
  overlay_load overlay_status overlay_version overlay_unload : Builtin

pub data Handler (UserHandler : Type 0) : Type 0 where
  builtin : Builtin → Handler UserHandler
  user : UserHandler → Handler UserHandler

pub record World (t : Types) : Type 0 where
  pub manufacturer : Text
  pub model : Text
  pub serial : Text
  pub firmware_version : Text
  pub registry : CommandRegistry t.Float (Handler t.UserHandler) t.Callback
  pub errors : Errors
  pub registers : Registers
  pub backend : Backend t.Bitstream
  -- the overlay manager; `has_manager` tells whether `inst.overlay_manager` is set
  pub manager : OverlayManager t.Bitstream
  pub has_manager : Bool

abbrev pub Value : Types → Type 0
Value t = Arg t.Float (Ip t.Object)

-- A handler returns a text or `None`, or raises; it may change anything that the instrument shares.
abbrev pub Reply : Types → Type 0
Reply t = Result (Option Text) × World t

pub record Externals (t : Types) : Type 0 where
  pub parse_float : Text → Option t.Float
  pub float_lt : t.Float → t.Float → Bool
  pub float_text : t.Float → Text
  pub pynq : Option (Pynq t.Bitstream t.Object)
  -- `inspect.signature(handler)`, and `asyncio.iscoroutinefunction(handler)`
  pub signature : t.UserHandler → List (Param t.Float (Ip t.Object))
  pub is_coroutine : t.UserHandler → Bool
  -- the call, with the time limit in milliseconds that `asyncio.wait_for` sets; a call that is over
  -- the limit raises a `TimeoutError`
  pub call : t.UserHandler → List (Value t) → Option ℕ → World t → Reply t
  -- the trigger callback; what it raises is logged
  pub run_callback : t.Callback → World t → World t

-- ===== src/Examples/Hardware.antt =====
-- Overlays and mock hardware at concrete inputs.
use pynq_sdk.Prelude.{◌≡◌, refl, ℕ, none, some, List, [], ◌∷◌, if◌then◌else◌}
use pynq_sdk.Python.Text.{Text, lit, text_eq}
use pynq_sdk.Python.Int.{pos, negsuc}
use pynq_sdk.Python.Exception.{Result, ok, raise, other_error}
use pynq_sdk.Python.Dict
use pynq_sdk.Python.Dict.{◌=?◌, nat_key, text_key}
use pynq_sdk.Overlay.{Pynq, new_overlay_manager}
use pynq_sdk.Overlay.Lifecycle.{Op, load_op, unload_op, run_ops, spec_ops, represent, run_ops-new}
use pynq_sdk.Backend.{MockBackend, new_mock_backend, load_mock_overlay, write_mock_ip, read_mock_ip}

-- A `pynq` that can open one file.
abbrev open_base : Text → Result ℕ
open_base bitfile =
    if text_eq bitfile (lit "/lib/base.bit") then ok 7 else raise other_error (lit "no such file")

abbrev board : Pynq ℕ ℕ
board = record {
  open_overlay = open_base;
  ip_names = λ o. lit "led" ∷ [];
  version_of = λ o. none;
  attribute = λ o name. if text_eq name (lit "led") then some o else none;
}

abbrev ops : List Op
ops =
    load_op (lit "/lib/base.bit")
    ∷ unload_op
    ∷ load_op (lit "/lib/base.bit")
    ∷ load_op (lit "x.bit")
    ∷ []

run_ops-new_example :
    run_ops board ops new_overlay_manager ≡ represent board (spec_ops board ops none)
run_ops-new_example = run_ops-new board ops

abbrev bench : MockBackend
bench = load_mock_overlay (lit "led" ∷ []) new_mock_backend

led_register :
    read_mock_ip (lit "led") 4 (write_mock_ip (lit "led") 4 (negsuc 0) bench) ≡ ok (negsuc 0)
unfolding read_mock_ip write_mock_ip load_mock_overlay new_mock_backend Dict.get Dict.put text_eq
led_register = refl

led_unwritten : read_mock_ip (lit "led") 8 bench ≡ ok (pos 0)
unfolding read_mock_ip load_mock_overlay new_mock_backend Dict.get Dict.put text_eq
led_unwritten = refl

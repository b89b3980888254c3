-- ===== src/Examples/Powerup.antt =====
-- The overlay methods of an instrument at concrete inputs.
use pynq_sdk.Prelude.{ℕ, none, some, [], ◌∷◌, if◌then◌else◌}
use pynq_sdk.Python.Text.{Text, lit, text_eq}
use pynq_sdk.Python.Exception.{ok}
use pynq_sdk.Overlay.{Pynq}
use pynq_sdk.Overlay.{new_overlay_manager}
use pynq_sdk.Backend.{pynq_backend, own}
use pynq_sdk.World.{World, Externals}
use pynq_sdk.Examples.Listing.{client, outside, idle}

-- A `pynq` that opens every file; the overlay is known by the file's name.
abbrev board : Pynq Text ℕ
board = record {
  open_overlay = λ bitfile. ok bitfile;
  ip_names = λ o. lit "led" ∷ [];
  version_of = λ o. none;
  attribute = λ o name. if text_eq name (lit "led") then some 3 else none;
}

abbrev on_board : Externals client
on_board = record outside { pynq = some board }

-- An instrument that was made with a `PYNQBackend` of another manager.
abbrev handed_over : World client
handed_over = record idle { backend = pynq_backend (own new_overlay_manager) }

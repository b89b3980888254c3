-- ===== src/Instrument.antt =====
-- The overlay methods of `Instrument` (pynq_instrument/instrument.py). Its commands are registered in
-- Builtins.Commands.
pub mod Startup
pub mod Start
use pynq_sdk.Prelude.{Bool, true, false, Option, none, some, if◌then◌else◌}
use pynq_sdk.Python.Text.{Text}
use pynq_sdk.Python.Exception.{Result, ok, raised}
use pynq_sdk.Overlay.{OverlayManager, new_overlay_manager, new_mock_manager, load}
use pynq_sdk.Backend.{Backend, mock_backend, pynq_backend, shared}
use pynq_sdk.World.{Types, World, Externals}

-- the manager for an instrument that has none
abbrev pub manager_for : {O : Type 0} → Backend O → OverlayManager O
manager_for (mock_backend b) = new_mock_manager none
manager_for (pynq_backend r) = new_overlay_manager

-- `self.backend._om = om`, with the instrument's new manager
abbrev pub with_manager : {O : Type 0} → Backend O → Backend O
with_manager (mock_backend b) = mock_backend b
with_manager (pynq_backend r) = pynq_backend shared

module _ {t : Types} where
  -- `_ensure_overlay_manager`
  unfoldable pub ensure_overlay_manager : World t → World t
  unfolding new_mock_manager new_overlay_manager
  ensure_overlay_manager w = if w.has_manager then w else record w {
    manager = manager_for w.backend;
    has_manager = true;
    backend = with_manager w.backend;
  }

  unfoldable pub use_pynq_backend : World t → World t
  unfolding new_overlay_manager
  use_pynq_backend w = record w {
    manager = new_overlay_manager;
    has_manager = true;
    backend = pynq_backend shared;
  }

  -- a load that raises leaves the manager as it was
  abbrev pub loaded_into :
      Result (OverlayManager t.Bitstream) → World t → Result (Unit {0}) × World t
  loaded_into (raised e) w = (raised e, w)
  loaded_into (ok om) w = (ok tt, record w { manager = om })

  unfoldable pub load_overlay : Externals t → Text → World t → Result (Unit {0}) × World t
  unfolding ensure_overlay_manager load
  load_overlay x bitfile w =
      let w' = ensure_overlay_manager w in loaded_into (load x.pynq bitfile w'.manager) w'

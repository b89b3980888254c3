-- ===== src/Instrument/Startup.antt =====
-- What the overlay methods of an instrument leave behind for its commands.
use pynq_sdk.Prelude.{◌≡◌, refl, true, false, some, ◌∙◌, Bool-cases, inl, inr}
use pynq_sdk.Python.Text.{Text}
use pynq_sdk.Python.Exception.{Result, ok, raised}
use pynq_sdk.Overlay.{
  Pynq, Ip, OverlayManager, found_or_raise, install, new_overlay_manager, load, load_failed,
}
use pynq_sdk.Overlay as Overlay
use pynq_sdk.Backend.{
  ManagerRef, shared, mock_backend, pynq_backend, MockBackend, is_overlay_loaded, get_ip,
}
use pynq_sdk.World.{Types, World, Externals}
use pynq_sdk.Instrument.{load_overlay, loaded_into, use_pynq_backend, ensure_overlay_manager}

module _ {t : Types} (x : Externals t) where
  -- An instrument on the board before its first load: `use_pynq_backend` was called, or it was made
  -- with a `PYNQBackend`, whatever manager that refers to, and has no manager yet.
  pub data IsOnBoard : World t → Type 0 where
    switched : (w : World t) → IsOnBoard (use_pynq_backend w)
    handed :
        {w : World t} (r : ManagerRef t.Bitstream)
        → w.backend ≡ pynq_backend r
        → w.has_manager ≡ false
        → IsOnBoard w

  abbrev on_board : World t → World t
  unfolding new_overlay_manager
  on_board w = record w {
    manager = new_overlay_manager;
    has_manager = true;
    backend = pynq_backend shared;
  }

  -- What `pynq` came to, for the file, decides how the call ends and what the backend answers.
  abbrev pub LeavesReady :
      Pynq t.Bitstream t.Object
      → Text
      → Text
      → Result t.Bitstream
      → Result (Unit {0}) × World t
      → Type 0
  LeavesReady pynq bitfile name (ok overlay) (called, w) =
      (called ≡ ok tt)
      × (is_overlay_loaded (some pynq) w.backend w.manager ≡ true)
      × (get_ip (some pynq) name w.backend w.manager
          ≡ found_or_raise name (pynq.attribute overlay name))
  LeavesReady pynq bitfile name (raised e) (called, w) =
      (called ≡ raised (load_failed bitfile e))
      × (is_overlay_loaded (some pynq) w.backend w.manager ≡ false)

  backend-ensure_overlay_manager :
      (b : MockBackend) (w : World t)
      → w.backend ≡ mock_backend b
      → (ensure_overlay_manager w).backend ≡ mock_backend b
  unfolding ensure_overlay_manager
  backend-ensure_overlay_manager b w e = elim (Bool-cases w.has_manager) [
    | inl had ↦ rw had e
    | inr made ↦ rw (made, e) refl
  ]

  backend-loaded_into :
      (r : Result (OverlayManager t.Bitstream)) (w : World t)
      → (loaded_into r w).1.backend ≡ w.backend
  backend-loaded_into (ok om) w = refl
  backend-loaded_into (raised e) w = refl

  backend-load_overlay :
      (bitfile : Text) (b : MockBackend) (w : World t)
      → w.backend ≡ mock_backend b
      → (load_overlay x bitfile w).1.backend ≡ mock_backend b
  unfolding load_overlay
  backend-load_overlay bitfile b w e =
      let w' = ensure_overlay_manager w in
      backend-loaded_into (load x.pynq bitfile w'.manager) w' ∙ backend-ensure_overlay_manager b w e

  -- With the mock backend, loading an overlay does not make the hardware ready: the manager may
  -- load it, but the backend answers as before.
  pub load_overlay_mock :
      (bitfile : Text) (b : MockBackend) (w : World t)
      → w.backend ≡ mock_backend b
      → is_overlay_loaded x.pynq
          (load_overlay x bitfile w).1.backend
          (load_overlay x bitfile w).1.manager
        ≡ b.overlay_loaded
  unfolding is_overlay_loaded
  load_overlay_mock bitfile b w e = rw (backend-load_overlay bitfile b w e) refl

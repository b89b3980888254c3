-- ===== src/Overlay/Lifecycle.antt =====
-- What an `OverlayManager` promises over any history of loads and unloads.
use pynq_sdk.Prelude.{◌≡◌, refl, ◌∙◌, ap, Bool, true, false, Option, none, some, List, [], ◌∷◌}
use pynq_sdk.Python.Text.{Text, lit}
use pynq_sdk.Python.Exception.{Result, ok, raised, raise, runtime_error}
use pynq_sdk.Overlay.{
  Pynq, Ip, found_or_raise, OverlayManager, new_overlay_manager, unload, is_loaded, install, load,
  get_ip,
}

-- The calls that change the manager.
pub data Op : Type 0 where
  load_op : Text → Op
  unload_op : Op

module _ {Overlay Object : Type 0} (pynq : Pynq Overlay Object) where
  -- A load that raises changes nothing.
  abbrev pub keep_on_error :
      Result (OverlayManager Overlay) → OverlayManager Overlay → OverlayManager Overlay
  keep_on_error (ok om') om = om'
  keep_on_error (raised e) om = om

  unfoldable pub run_op : Op → OverlayManager Overlay → OverlayManager Overlay
  unfolding load unload
  run_op (load_op bitfile) om = keep_on_error (load (some pynq) bitfile om) om
  run_op unload_op om = unload om

  unfoldable pub run_ops : List Op → OverlayManager Overlay → OverlayManager Overlay
  unfolding run_op
  run_ops [] om = om
  run_ops (op ∷ ops) om = run_ops ops (run_op op om)

  -- The abstract state: the bitfile of the loaded overlay and the overlay, or nothing.
  abbrev pub Loaded : Type 0
  Loaded = Option (Text × Overlay)

  abbrev pub after_load : Text → Result Overlay → Loaded → Loaded
  after_load bitfile (ok overlay) before = some (bitfile, overlay)
  after_load bitfile (raised e) before = before

  unfoldable pub spec_ops : List Op → Loaded → Loaded
  spec_ops [] l = l
  spec_ops (load_op bitfile ∷ ops) l =
      spec_ops ops (after_load bitfile (pynq.open_overlay bitfile) l)
  spec_ops (unload_op ∷ ops) l = spec_ops ops none

  -- The manager that stands for an abstract state.
  unfoldable pub represent : Loaded → OverlayManager Overlay
  unfolding new_overlay_manager
  represent none = new_overlay_manager
  represent (some (bitfile, overlay)) = install pynq bitfile overlay new_overlay_manager

  run_op-load :
      (bitfile : Text) (r : Result Overlay) (l : Loaded)
      → pynq.open_overlay bitfile ≡ r
      → run_op (load_op bitfile) (represent l) ≡ represent (after_load bitfile r l)
  unfolding run_op represent
  run_op-load bitfile (ok overlay) none e = rw e
  run_op-load bitfile (ok overlay) (some (b, o)) e = rw e
  run_op-load bitfile (raised x) none e = rw e
  run_op-load bitfile (raised x) (some (b, o)) e = rw e

  run_op-unload : (l : Loaded) → run_op unload_op (represent l) ≡ represent none
  unfolding run_op represent
  run_op-unload none = refl
  run_op-unload (some (b, o)) = refl

  run_ops-represent :
      (ops : List Op) (l : Loaded) → run_ops ops (represent l) ≡ represent (spec_ops ops l)
  unfolding run_ops spec_ops
  run_ops-represent [] l = refl
  run_ops-represent (load_op bitfile ∷ ops) l =
      ap (run_ops ops) (run_op-load bitfile (pynq.open_overlay bitfile) l refl)
      ∙ run_ops-represent ops (after_load bitfile (pynq.open_overlay bitfile) l)
  run_ops-represent (unload_op ∷ ops) l =
      ap (run_ops ops) (run_op-unload l) ∙ run_ops-represent ops none

  -- After any history of loads and unloads the manager is the one of the last load that succeeded
  -- and was not followed by an unload, or the new one: nothing of an earlier overlay is left over,
  -- and a load that failed left no trace.
  pub run_ops-new :
      (ops : List Op) → run_ops ops new_overlay_manager ≡ represent (spec_ops ops none)
  unfolding represent
  run_ops-new ops = run_ops-represent ops none

  abbrev pub is_something : Loaded → Bool
  is_something none = false
  is_something (some x) = true

  abbrev pub expected_ip : Loaded → Text → Result (Ip Object)
  expected_ip none name = raise runtime_error (lit "No overlay loaded")
  expected_ip (some (b, overlay)) name = found_or_raise name (pynq.attribute overlay name)

  -- What `is_loaded` and `get_ip` answer after a history follows from the abstract state.
  pub answers-after_history :
      (ops : List Op) (name : Text)
      → (is_loaded (run_ops ops new_overlay_manager) ≡ is_something (spec_ops ops none))
        × (get_ip (some pynq) name (run_ops ops new_overlay_manager)
            ≡ expected_ip (spec_ops ops none) name)
  answers-after_history ops name = rw (run_ops-new ops) (of_state (spec_ops ops none))
    where
      of_state :
          (l : Loaded)
          → (is_loaded (represent l) ≡ is_something l)
            × (get_ip (some pynq) name (represent l) ≡ expected_ip l name)
      of_state none = unfold is_loaded represent get_ip in (refl, refl)
      of_state (some (b, o)) = unfold is_loaded represent get_ip in (refl, refl)

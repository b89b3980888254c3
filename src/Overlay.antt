-- ===== src/Overlay.antt =====
-- pynq_instrument/overlay_manager.py. The package `pynq` is not part of the repository: the module it
-- imports, or `none` where the import fails, is a parameter.
pub mod Lifecycle
use pynq_sdk.Prelude.{
  ℕ, Bool, true, false, not, Option, none, some, List, [], ◌∷◌, ◌++◌, if◌then◌else◌,
}
use pynq_sdk.Python.Text.{Text, lit, text_eq}
use pynq_sdk.Python.Path.{basename, splitext_root}
use pynq_sdk.Python.Exception.{
  Exception, Result, ok, raised, raise, ◌>>=◌, key_error, runtime_error, repr, str_exception,
}

-- `pynq.Overlay(bitfile)`, and the attributes of an overlay that the source reads.
pub record Pynq (Overlay Object : Type 0) : Type 0 where
  pub open_overlay : Text → Result Overlay
  pub ip_names : Overlay → List Text
  pub version_of : Overlay → Option Text
  pub attribute : Overlay → Text → Option Object

-- An injected IP: an attribute of the overlay, the stand-in of `MockOverlayManager`, or the `MockIP`
-- of the mock backend with that name.
pub data Ip (Object : Type 0) : Type 0 where
  pynq_ip : Object → Ip Object
  fake_ip : Ip Object
  mock_ip : Text → Ip Object

-- `_overlay`: an overlay, or the `object()` of the mock
pub data Handle (Overlay : Type 0) : Type 0 where
  loaded : Overlay → Handle Overlay
  sentinel : Handle Overlay

-- The class of the object: `OverlayManager` itself or `MockOverlayManager`.
pub data ManagerClass : Type 0 where
  real mock : ManagerClass

pub record OverlayManager (Overlay : Type 0) : Type 0 where
  pub class : ManagerClass
  pub overlay : Option (Handle Overlay)
  pub loaded_name : Option Text
  pub ip_inventory : List Text
  pub version_text : Text

-- `version or stem`
abbrev pub or_stem : Option Text → Text → Text
or_stem none stem = stem
or_stem (some []) stem = stem
or_stem (some (c ∷ s)) stem = c ∷ s

unfoldable pub mem_text : Text → List Text → Bool
mem_text name [] = false
mem_text name (n ∷ ns) = if text_eq n name then true else mem_text name ns

-- an empty name is false, and so is None
abbrev status_of : Option Text → Text
status_of none = lit "NONE"
status_of (some []) = lit "NONE"
status_of (some (c ∷ s)) = lit "LOADED:" ++ (c ∷ s)

abbrev missing_in : List Text → List Text → List Text
missing_in have [] = []
missing_in have (ip ∷ ips) =
    let rest = missing_in have ips in if mem_text ip have then rest else ip ∷ rest

abbrev pub load_failed : Text → Exception → Exception
load_failed bitfile e = record {
  kind = runtime_error;
  message = lit "Failed to load overlay " ++ repr bitfile ++ lit ": " ++ str_exception e;
}

module _ {Overlay : Type 0} where
  unfoldable pub new_overlay_manager : OverlayManager Overlay
  new_overlay_manager = record {
    class = real;
    overlay = none;
    loaded_name = none;
    ip_inventory = [];
    version_text = [];
  }

  -- `MockOverlayManager(ip_names)`
  unfoldable pub new_mock_manager : Option (List Text) → OverlayManager Overlay
  unfolding new_overlay_manager
  new_mock_manager none = record new_overlay_manager { class = mock }
  new_mock_manager (some names) = record {
    class = mock;
    overlay = some sentinel;
    loaded_name = some (lit "mock.bit");
    ip_inventory = names;
    version_text = lit "mock-1.0";
  }

  unfoldable pub unload : OverlayManager Overlay → OverlayManager Overlay
  unload om = record om { overlay = none; loaded_name = none; ip_inventory = []; version_text = [] }

  unfoldable pub is_loaded : OverlayManager Overlay → Bool
  is_loaded om = elim om.loaded_name [ none ↦ false | some name ↦ true ]

  unfoldable pub inventory : OverlayManager Overlay → List Text
  inventory om = om.ip_inventory

  unfoldable pub version : OverlayManager Overlay → Text
  version om = om.version_text

  unfoldable pub status : OverlayManager Overlay → Text
  status om = status_of om.loaded_name

  unfoldable pub missing_ips : OverlayManager Overlay → List Text → List Text
  unfolding mem_text
  missing_ips om required = missing_in om.ip_inventory required

load_mock : {Overlay : Type 0} → Text → OverlayManager Overlay → OverlayManager Overlay
load_mock bitfile om =
    let name = basename bitfile in
    record om { loaded_name = some name; version_text = splitext_root name }

abbrev pub found_or_raise : {Object : Type 0} → Text → Option Object → Result (Ip Object)
found_or_raise name (some object) = ok (pynq_ip object)
found_or_raise name none = raise key_error (lit "IP " ++ repr name ++ lit " not found in overlay")

module _ {Overlay Object : Type 0} where
  -- the fields after a successful `pynq.Overlay(bitfile)`
  abbrev pub install :
      Pynq Overlay Object → Text → Overlay → OverlayManager Overlay → OverlayManager Overlay
  install pynq bitfile overlay om = record om {
    overlay = some (loaded overlay);
    loaded_name = some (basename bitfile);
    ip_inventory = pynq.ip_names overlay;
    version_text = or_stem (pynq.version_of overlay) (splitext_root (basename bitfile));
  }

  abbrev pub open_and_install :
      Pynq Overlay Object
      → Text
      → Result Overlay
      → OverlayManager Overlay
      → Result (OverlayManager Overlay)
  open_and_install pynq bitfile (raised e) om = raised (load_failed bitfile e)
  open_and_install pynq bitfile (ok overlay) om = ok (install pynq bitfile overlay om)

  load_real :
      Option (Pynq Overlay Object) → Text → OverlayManager Overlay → Result (OverlayManager Overlay)
  load_real none bitfile om = raise runtime_error (lit "pynq module not available")
  load_real (some pynq) bitfile om = open_and_install pynq bitfile (pynq.open_overlay bitfile) om

  abbrev load_in :
      ManagerClass
      → Option (Pynq Overlay Object)
      → Text
      → OverlayManager Overlay
      → Result (OverlayManager Overlay)
  load_in ManagerClass.real pynq bitfile om = load_real pynq bitfile om
  load_in ManagerClass.mock pynq bitfile om = ok (load_mock bitfile om)

  -- `load`; where it raises, no field was written
  unfoldable pub load :
      Option (Pynq Overlay Object) → Text → OverlayManager Overlay → Result (OverlayManager Overlay)
  unfolding load_real load_mock
  load pynq bitfile om = load_in om.class pynq bitfile om

  -- `getattr(self._overlay, name)`
  abbrev attribute_in : Option (Pynq Overlay Object) → Handle Overlay → Text → Option Object
  attribute_in none h name = none
  attribute_in (some pynq) sentinel name = none
  attribute_in (some pynq) (loaded overlay) name = pynq.attribute overlay name

  get_ip_real : Option (Pynq Overlay Object) → Text → Option (Handle Overlay) → Result (Ip Object)
  get_ip_real pynq name none = raise runtime_error (lit "No overlay loaded")
  get_ip_real pynq name (some h) = found_or_raise name (attribute_in pynq h name)

  abbrev get_ip_in :
      ManagerClass
      → Option (Pynq Overlay Object)
      → Text
      → OverlayManager Overlay
      → Result (Ip Object)
  get_ip_in ManagerClass.real pynq name om = get_ip_real pynq name om.overlay
  get_ip_in ManagerClass.mock pynq name om =
      if not (is_loaded om) then raise runtime_error (lit "No overlay loaded") else ok fake_ip

  unfoldable pub get_ip :
      Option (Pynq Overlay Object) → Text → OverlayManager Overlay → Result (Ip Object)
  unfolding get_ip_real is_loaded
  get_ip pynq name om = get_ip_in om.class pynq name om

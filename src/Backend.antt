-- ===== src/Backend.antt =====
-- pynq_instrument/hardware_backend.py: the mock backend with its IPs and GPIO pins, and the choice
-- between it and `PYNQBackend`, which passes each call on to its overlay manager. A `MockIP` object
-- is the entry of its name in `ips`, so what is written through one reference is read by all.
pub mod Registers
pub mod Dma
use pynq_sdk.Prelude.{ℕ, Bool, true, false, Option, none, some, List, [], ◌∷◌, ◌++◌, if◌then◌else◌}
use pynq_sdk.Python.Text.{Text, lit}
use pynq_sdk.Python.Exception.{Result, ok, raised, raise, ◌>>=◌, key_error, repr}
use pynq_sdk.Python.Int.{ℤ}
use pynq_sdk.Python.Dict
use pynq_sdk.Python.Dict.{Dict, nat_key, text_key}
use pynq_sdk.Overlay.{Pynq, Ip, mock_ip, OverlayManager}
use pynq_sdk.Overlay as Overlay

pub record MockIp : Type 0 where
  pub name : Text
  pub registers : Dict ℕ ℤ

pub record MockGpio : Type 0 where
  pub index : ℕ
  pub value : ℤ

pub record MockBackend : Type 0 where
  pub overlay_loaded : Bool
  pub ips : Dict Text MockIp
  pub gpios : Dict ℕ MockGpio

unfoldable pub new_mock_ip : Text → MockIp
new_mock_ip name = record { name = name; registers = [] }

-- `self._registers.get(offset, 0)`
unfoldable pub read_ip : ℕ → MockIp → ℤ
read_ip offset ip = elim (Dict.get offset ip.registers) [ none ↦ ℤ.pos 0 | some v ↦ v ]

unfoldable pub write_ip : ℕ → ℤ → MockIp → MockIp
write_ip offset value ip = record ip { registers = Dict.put offset value ip.registers }

unfoldable pub new_mock_backend : MockBackend
new_mock_backend = record { overlay_loaded = false; ips = []; gpios = [] }

-- the dict comprehension of `load_mock_overlay`
unfoldable pub mock_ips : List Text → Dict Text MockIp → Dict Text MockIp
unfolding new_mock_ip
mock_ips [] d = d
mock_ips (name ∷ names) d = mock_ips names (Dict.put name (new_mock_ip name) d)

unfoldable pub load_mock_overlay : List Text → MockBackend → MockBackend
unfolding mock_ips
load_mock_overlay ip_names b = record b { overlay_loaded = true; ips = mock_ips ip_names [] }

unfoldable pub unload_mock_overlay : MockBackend → MockBackend
unload_mock_overlay b = record b { overlay_loaded = false; ips = [] }

abbrev ip_or_raise : Text → Option MockIp → Result MockIp
ip_or_raise name none = raise key_error (lit "IP not found in mock overlay: " ++ repr name)
ip_or_raise name (some ip) = ok ip

unfoldable pub get_mock_ip : Text → MockBackend → Result MockIp
get_mock_ip name b = ip_or_raise name (Dict.get name b.ips)

-- a pin is made at its first use
abbrev gpio_or_new : ℕ → Option MockGpio → MockBackend → MockGpio × MockBackend
gpio_or_new index (some g) b = (g, b)
gpio_or_new index none b =
    let g : MockGpio = record { index = index; value = ℤ.pos 0 } in
    (g, record b { gpios = Dict.put index g b.gpios })

unfoldable pub get_ps_gpio : ℕ → MockBackend → MockGpio × MockBackend
get_ps_gpio index b = gpio_or_new index (Dict.get index b.gpios) b

-- `gpio.write(value)` on the pin that `get_ps_gpio` returned: the object stays in the dict
unfoldable pub write_gpio : ℕ → ℤ → MockBackend → MockBackend
unfolding get_ps_gpio
write_gpio index value b =
    let (g, b') = get_ps_gpio index b in
    record b' { gpios = Dict.put index (record g { value = value }) b'.gpios }

unfoldable pub read_gpio : ℕ → MockBackend → ℤ × MockBackend
unfolding get_ps_gpio
read_gpio index b = let (g, b') = get_ps_gpio index b in (g.value, b')

-- `ip.write(offset, value)` and `ip.read(offset)` on the IP of that name
abbrev write_in : Text → ℕ → ℤ → Option MockIp → MockBackend → MockBackend
write_in name offset value none b = b
write_in name offset value (some ip) b = record b {
  ips = Dict.put name (write_ip offset value ip) b.ips;
}

unfoldable pub write_mock_ip : Text → ℕ → ℤ → MockBackend → MockBackend
unfolding write_ip
write_mock_ip name offset value b = write_in name offset value (Dict.get name b.ips) b

unfoldable pub read_mock_ip : Text → ℕ → MockBackend → Result ℤ
unfolding get_mock_ip read_ip
read_mock_ip name offset b = do ip ← get_mock_ip name b; ok (read_ip offset ip)

-- The object that `_om` of a `PYNQBackend` refers to: the instrument's overlay manager, or another.
pub data ManagerRef (O : Type 0) : Type 0 where
  shared : ManagerRef O
  own : OverlayManager O → ManagerRef O

-- `HardwareBackend`: its two classes
pub data Backend (O : Type 0) : Type 0 where
  mock_backend : MockBackend → Backend O
  pynq_backend : ManagerRef O → Backend O

-- `self._om`, beside the instrument's manager
abbrev pub manager_of : {O : Type 0} → ManagerRef O → OverlayManager O → OverlayManager O
manager_of shared om = om
manager_of (own om') om = om'

module _ {O P : Type 0} (pynq : Option (Pynq O P)) where
  unfoldable pub is_overlay_loaded : Backend O → OverlayManager O → Bool
  is_overlay_loaded (mock_backend b) om = b.overlay_loaded
  is_overlay_loaded (pynq_backend r) om = Overlay.is_loaded (manager_of r om)

  unfoldable pub get_ip : Text → Backend O → OverlayManager O → Result (Ip P)
  unfolding get_mock_ip
  get_ip name (mock_backend b) om = do ip ← get_mock_ip name b; ok (mock_ip ip.name)
  get_ip name (pynq_backend r) om = Overlay.get_ip pynq name (manager_of r om)

-- ===== src/Instrument/Start.antt =====
-- `Instrument.__init__` and `start_async` of pynq_instrument/instrument.py. The error queue and the
-- registers are globals of their modules, which a new instrument finds as they are.
use pynq_sdk.Prelude.{ℕ, Bool, false, Option, none, some, [], if◌then◌else◌}
use pynq_sdk.Python.Text.{Text}
use pynq_sdk.Errors.{Errors}
use pynq_sdk.Status.{Registers}
use pynq_sdk.Registry.{new_registry}
use pynq_sdk.Overlay.{new_overlay_manager}
use pynq_sdk.Backend.{Backend, mock_backend, new_mock_backend}
use pynq_sdk.World.{Types, World}
use pynq_sdk.Builtins.Commands.{register_builtins}
use pynq_sdk.Server.{HislipServer, new_server}
use pynq_sdk.Discovery.{Network, new_advertiser}
use pynq_sdk.Discovery.Service.{Advertising, register}

abbrev backend_or_mock : {O : Type 0} → Option (Backend O) → Backend O
backend_or_mock none = mock_backend new_mock_backend
backend_or_mock (some b) = b

module _ {t : Types} where
  -- `self.overlay_manager = None`: the manager field stands for nothing until `has_manager`
  unfoldable pub new_instrument :
      Text → Text → Text → Text → Option (Backend t.Bitstream) → Errors → Registers → World t
  unfolding new_mock_backend new_registry new_overlay_manager
  new_instrument manufacturer model serial firmware_version backend errors registers = record {
    manufacturer = manufacturer;
    model = model;
    serial = serial;
    firmware_version = firmware_version;
    registry = new_registry;
    errors = errors;
    registers = registers;
    backend = backend_or_mock backend;
    manager = new_overlay_manager;
    has_manager = false;
  }

-- An instrument that serves its two ports; the sockets are left out.
pub record Serving (t : Types) : Type 0 where
  pub world : World t
  pub port : ℕ
  pub async_port : ℕ
  pub advertising : Option Advertising
  pub server : HislipServer

module _ {t : Types} (n : Network) where
  unfoldable pub advertise_as : ℕ → World t → Advertising
  unfolding register new_advertiser
  advertise_as port w =
      register n
        (record { advertiser = new_advertiser w.manufacturer w.model port none; calls = [] })

  unfoldable pub start_async : ℕ → ℕ → Bool → World t → Serving t
  unfolding register_builtins advertise_as new_server
  start_async port async_port advertise w = record {
    world = register_builtins w;
    port = port;
    async_port = async_port;
    advertising = if advertise then some (advertise_as port w) else none;
    server = new_server;
  }

-- ===== src/Examples/Discovery.antt =====
-- The advertiser, a DMA buffer and the command line at concrete inputs.
use pynq_sdk.Prelude.{◌≡◌, refl, ℕ, ◌+◌, true, none, some, List, [], ◌∷◌, ◌++◌}
use pynq_sdk.Python.Text.{lit}
use pynq_sdk.Python.Exception.{Result, ok, raised}
use pynq_sdk.Status.{Registers}
use pynq_sdk.Discovery.{Network, new_advertiser}
use pynq_sdk.Discovery.Service.{Advertising, register, unregister, reset}
use pynq_sdk.Discovery.Lifecycle.{IsWithdrawn, unregister-register}
use pynq_sdk.Backend.Dma.{Pynq, no_pynq}
use pynq_sdk.Dispatch.{dispatch_command}
use pynq_sdk.Instrument.Start.{Serving, new_instrument, start_async}
use pynq_sdk.Cli.{default_args, main, with_overlay}
use pynq_sdk.Cli.Identity.{main-idn}
use pynq_sdk.Examples.Listing.{client, outside}

-- A machine with one address, on which every call goes through.
abbrev lan : Network
lan = record {
  getnode = some 0x1234_5678;
  host_addresses = some (lit "127.0.1.1" ∷ lit "192.168.2.1" ∷ []);
  socket_address = none;
  zeroconf_installed = true;
  service_info_error = λ info. none;
  open_error = none;
  register_error = λ info. none;
  unregister_error = λ info. none;
  close_error = none;
}

abbrev fresh : Advertising
fresh = record { advertiser = new_advertiser (lit "ARC") (lit "ADC Logger") 4880 none; calls = [] }

unregister-register_example :
    ((unregister lan (register lan (reset lan fresh))).advertiser ≡ (reset lan fresh).advertiser)
    × IsWithdrawn lan fresh.calls (unregister lan (register lan (reset lan fresh))).calls
unregister-register_example = unregister-register lan fresh (λ info. refl) refl

-- Buffers are numbered, and those in use are listed.
abbrev memory : Pynq (List ℕ) ℕ ℕ ℕ ℕ
memory = record {
  allocate = λ shape dtype s. (ok shape, shape ∷ s);
  freebuffer = λ buf s. elim s [ [] ↦ [] | b ∷ bs ↦ bs ];
  get_gpio_pin = λ index. index + 54;
  gpio = λ pin mode s. (ok pin, s);
}

fails : ℕ → List ℕ → Result ℕ × List ℕ
fails buf s = (raised no_pynq, s)

abbrev booted : Registers
booted = record { esr = 0; ese = 0; sre = 0 }

abbrev powered : Serving client
unfolding start_async new_instrument
powered = start_async lan 4880 4881 true (
    new_instrument (lit "Carbon") (lit "PYNQ-Instrument") (lit "SN-0001") (lit "0.1.0") none []
      booted)

powers : main outside lan default_args [] booted ≡ ok powered
unfolding main with_overlay powered
powers = refl

main-idn_example : dispatch_command outside (lit "*IDN?") powered.world ≡ (
  lit "Carbon"
      ++ lit ","
      ++ lit "PYNQ-Instrument"
      ++ lit ","
      ++ lit "SN-0001"
      ++ lit ","
      ++ lit "0.1.0",
  powered.world,
)
main-idn_example = main-idn outside lan default_args [] booted powered powers

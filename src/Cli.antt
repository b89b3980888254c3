-- ===== src/Cli.antt =====
-- pynq_instrument/cli.py, with what `argparse` made of the command line. Logging is left out.
pub mod Identity
use pynq_sdk.Prelude.{ℕ, Bool, true, false, not, Option, none, some, List, [], ◌∷◌, if◌then◌else◌}
use pynq_sdk.Python.Text.{Text, lit}
use pynq_sdk.Python.Exception.{Result, ok, raised, ◌>>=◌}
use pynq_sdk.Errors.{Errors}
use pynq_sdk.Status.{Registers}
use pynq_sdk.World.{Types, World, Externals}
use pynq_sdk.Discovery.{Network}
use pynq_sdk.Instrument.{use_pynq_backend, load_overlay}
use pynq_sdk.Instrument.Start.{Serving, new_instrument, start_async}

pub record Args : Type 0 where
  pub overlay : Option Text
  pub port : ℕ
  pub async_port : ℕ
  pub manufacturer : Text
  pub model : Text
  pub serial : Text
  pub firmware : Text
  pub no_mdns : Bool

-- the arguments of an empty command line
abbrev pub default_args : Args
default_args = record {
  overlay = none;
  port = 4880;
  async_port = 4881;
  manufacturer = lit "Carbon";
  model = lit "PYNQ-Instrument";
  serial = lit "SN-0001";
  firmware = lit "0.1.0";
  no_mdns = false;
}

module _ {t : Types} (x : Externals t) (n : Network) where
  abbrev pub unless_raised : Result (Unit {0}) × World t → Result (World t)
  unless_raised (raised e, w) = raised e
  unless_raised (ok done, w) = ok w

  -- `if args.overlay: …`
  unfoldable pub with_overlay : Option Text → World t → Result (World t)
  unfolding load_overlay use_pynq_backend
  with_overlay none w = ok w
  with_overlay (some []) w = ok w
  with_overlay (some (c ∷ bitfile)) w =
      unless_raised (load_overlay x (c ∷ bitfile) (use_pynq_backend w))

  -- `main` up to the loop that serves; what `load_overlay` raises ends the program
  unfoldable pub main : Args → Errors → Registers → Result (Serving t)
  unfolding with_overlay start_async new_instrument
  main args errors registers = do
    w ← with_overlay args.overlay (
        new_instrument args.manufacturer args.model args.serial args.firmware none errors registers)
    ok (start_async n args.port args.async_port (not args.no_mdns) w)

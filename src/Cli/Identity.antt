-- ===== src/Cli/Identity.antt =====
-- What an instrument that the command line started says of itself.
use mathlib.Core.Path.{subst}
use pynq_sdk.Prelude.{
  if◌then◌else◌, ◌≡◌, refl, ◌∙◌, ap, not, Bool, true, false, Option, none, some, [], ◌∷◌, ◌++◌,
}
use pynq_sdk.Python.Text.{Text, lit}
use pynq_sdk.Python.Exception.{Result, ok, raised, >>=-Completes}
use pynq_sdk.Errors.{Errors}
use pynq_sdk.Status.{Registers}
use pynq_sdk.Overlay.{OverlayManager, load}
use pynq_sdk.World.{Types, World, Externals}
use pynq_sdk.Discovery.{Network}
use pynq_sdk.Dispatch.{dispatch_command}
use pynq_sdk.Builtins.{idn_string}
use pynq_sdk.Builtins.Commands.{register_builtins}
use pynq_sdk.Builtins.Replies.{dispatch-idn}
use pynq_sdk.Instrument.{
  use_pynq_backend, load_overlay, manager_for, with_manager, loaded_into, ensure_overlay_manager,
}
use pynq_sdk.Instrument.Start.{Serving, new_instrument, start_async}
use pynq_sdk.Cli.{Args, main, with_overlay, unless_raised}

module _ {t : Types} (x : Externals t) (n : Network) where
  -- An instrument that was made, if no exception came first, calls itself so.
  abbrev Answers : Text → Result (World t) → Type 0
  Answers name (raised e) = Unit {0}
  Answers name (ok w) = idn_string x w ≡ name

  loaded_into-Answers :
      (r : Result (OverlayManager t.Bitstream)) (w : World t)
      → Answers (idn_string x w) (unless_raised x n (loaded_into r w))
  unfolding idn_string
  loaded_into-Answers (ok om) w = refl
  loaded_into-Answers (raised e) w = tt

  idn_string-ensure_overlay_manager :
      (w : World t) → idn_string x (ensure_overlay_manager w) ≡ idn_string x w
  unfolding idn_string ensure_overlay_manager
  idn_string-ensure_overlay_manager w = by_manager w.has_manager
    where
      by_manager :
          (b : Bool)
          → idn_string x (
              if b then w else record w {
                manager = manager_for w.backend;
                has_manager = true;
                backend = with_manager w.backend;
              })
            ≡ idn_string x w
      by_manager true = refl
      by_manager false = refl

  with_overlay-Answers :
      (o : Option Text) (w : World t) → Answers (idn_string x w) (with_overlay x n o w)
  unfolding with_overlay load_overlay
  with_overlay-Answers none w = refl
  with_overlay-Answers (some []) w = refl
  with_overlay-Answers (some (c ∷ bitfile)) w =
      let w' = ensure_overlay_manager (use_pynq_backend w) in
      let same : idn_string x w' ≡ idn_string x w =
        idn_string-ensure_overlay_manager (use_pynq_backend w)
        ∙ unfold use_pynq_backend idn_string in refl in
      subst
        (λ name.
          Answers name (unless_raised x n (loaded_into (load x.pynq (c ∷ bitfile) w'.manager) w')))
        same (loaded_into-Answers (load x.pynq (c ∷ bitfile) w'.manager) w')

  idn_string-register_builtins : (w : World t) → idn_string x (register_builtins w) ≡ idn_string x w
  unfolding idn_string register_builtins
  idn_string-register_builtins w = refl

  -- An instrument that `main` starts answers `*IDN?` with the four texts of the command line, separated
  -- by commas, with an overlay or without, and the query changes nothing.
  pub main-idn :
      (args : Args) (errors : Errors) (registers : Registers) (serving : Serving t)
      → main x n args errors registers ≡ ok serving
      → dispatch_command x (lit "*IDN?") serving.world ≡ (
        args.manufacturer
            ++ lit ","
            ++ args.model
            ++ lit ","
            ++ args.serial
            ++ lit ","
            ++ args.firmware,
        serving.world,
      )
  unfolding main start_async new_instrument idn_string
  main-idn args errors registers serving started =
      let fresh =
        new_instrument args.manufacturer args.model args.serial args.firmware none errors
          registers in
      let c =
        >>=-Completes (with_overlay x n args.overlay fresh)
          (λ w. ok (start_async n args.port args.async_port (not args.no_mdns) w)) started in
      let named : idn_string x c.value ≡ idn_string x fresh =
        subst (Answers (idn_string x fresh)) c.first (with_overlay-Answers args.overlay fresh) in
      let same : start_async n args.port args.async_port (not args.no_mdns) c.value ≡ serving =
        cc c.second in
      let answered =
        dispatch-idn x c.value
        ∙ ap (λ name. (name, register_builtins c.value))
            (idn_string-register_builtins c.value ∙ named) in
      subst
        (λ s. dispatch_command x (lit "*IDN?") s.world ≡ (
          args.manufacturer
              ++ lit ","
              ++ args.model
              ++ lit ","
              ++ args.serial
              ++ lit ","
              ++ args.firmware,
          s.world,
        ))
        same answered

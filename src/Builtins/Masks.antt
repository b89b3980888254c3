-- ===== src/Builtins/Masks.antt =====
-- The enable masks of the status registers can be read but not written: the parameter of `*ESE` and
-- `*SRE` has a postponed annotation, so the handler is given a text, and `text & 0xFF` raises.
use pynq_sdk.Prelude.{◌≡◌, refl, Bool, true, false, List, [], ◌∷◌, arith, inl, inr, Bool-cases, All}
use pynq_sdk.Python.Exception.{Result, ok, raised}
use pynq_sdk.Params.{Arg}
use pynq_sdk.Registry.{CommandDescriptor, all_commands}
use pynq_sdk.Status.{set_esr_bit}
use pynq_sdk.Overlay.{OverlayManager}
use pynq_sdk.Backend.{is_overlay_loaded}
use pynq_sdk.World.{
  Types, Builtin, Handler, World, Value, Externals, tst, ese_write, sre_write, overlay_load, idn,
}
use pynq_sdk.Builtins.{is_nil, backend_missing, self_test, call_builtin, load_reply}

module _ {F O : Type 0} where
  -- A value that `&` takes.
  abbrev pub is_number : Arg F O → Bool
  is_number (Arg.int n) = true
  is_number (Arg.bool b) = true
  is_number _ = false

  abbrev pub NoNumber : List (Arg F O) → Type 0
  NoNumber = All (λ v. is_number v ≡ false)

module _ {t : Types} where
  pub record SameMasks (w' w : World t) : Type 0 where
    pub same_ese : w'.registers.ese ≡ w.registers.ese
    pub same_sre : w'.registers.sre ≡ w.registers.sre

  pub same_masks : (w : World t) → SameMasks w w
  same_masks w = record { same_ese = refl; same_sre = refl }

module _ {t : Types} (x : Externals t) where
  self_test-SameMasks :
      (ds : List (CommandDescriptor t.Float (Handler t.UserHandler))) (w : World t)
      → SameMasks (self_test x ds w).1 w
  unfolding self_test set_esr_bit
  self_test-SameMasks [] w = same_masks w
  self_test-SameMasks (d ∷ ds) w = elim (Bool-cases (is_nil d.requires_ips)) [
    | inl nothing ↦ rw nothing (self_test-SameMasks ds w)
    | inr needed ↦ elim (Bool-cases (is_overlay_loaded x.pynq w.backend w.manager)) [
      | inl present ↦
          let missing = backend_missing x w.backend w d.requires_ips in
          elim (Bool-cases (is_nil missing)) [
            | inl complete ↦ rw (needed, present, complete) (self_test-SameMasks ds w)
            | inr incomplete ↦
                rw (needed, present, incomplete) (record { same_ese = refl; same_sre = refl })
          ]
      | inr unloaded ↦ rw (needed, unloaded) (record { same_ese = refl; same_sre = refl })
    ]
  ]

  load_reply-SameMasks :
      (r : Result (OverlayManager t.Bitstream)) (w : World t) → SameMasks (load_reply x r w).1 w
  load_reply-SameMasks (ok om) w = record { same_ese = refl; same_sre = refl }
  load_reply-SameMasks (raised e) w = record { same_ese = refl; same_sre = refl }

  pub call_builtin-SameMasks :
      (b : Builtin) (values : List (Value t)) (w : World t)
      → NoNumber values
      → SameMasks (call_builtin x b values w).1 w
  unfolding call_builtin set_esr_bit
  call_builtin-SameMasks tst [] w h = self_test-SameMasks (all_commands w.registry) w
  call_builtin-SameMasks overlay_load ((Arg.text s) ∷ []) w h = load_reply-SameMasks _ w
  call_builtin-SameMasks ese_write ((Arg.int n) ∷ []) w h = absurd (ground arith)
  call_builtin-SameMasks ese_write ((Arg.bool n) ∷ []) w h = absurd (ground arith)
  call_builtin-SameMasks sre_write ((Arg.int n) ∷ []) w h = absurd (ground arith)
  call_builtin-SameMasks sre_write ((Arg.bool n) ∷ []) w h = absurd (ground arith)
  call_builtin-SameMasks _ [] w h = record { same_ese = refl; same_sre = refl }
  call_builtin-SameMasks _ (v ∷ []) w h = record { same_ese = refl; same_sre = refl }
  call_builtin-SameMasks idn (v ∷ u ∷ vs) w h = record { same_ese = refl; same_sre = refl }
  call_builtin-SameMasks overlay_load ((Arg.text s) ∷ u ∷ vs) w h = record {
    same_ese = refl;
    same_sre = refl;
  }
  call_builtin-SameMasks overlay_load (v ∷ u ∷ vs) w h = record { same_ese = refl; same_sre = refl }
  call_builtin-SameMasks _ (v ∷ u ∷ vs) w h = record { same_ese = refl; same_sre = refl }

-- ===== src/Builtins/Commands/Precedence.antt =====
-- Which handler a mnemonic has once the built-in commands are registered, after those of the user.
use pynq_sdk.Prelude.{
  ◌≡◌, refl, ◌∙◌, ap, Bool, List, [], ◌∷◌, ◌++◌, if◌then◌else◌, inl, inr, Bool-cases,
}
use pynq_sdk.Python.Text.{Text}
use pynq_sdk.Python.Dict.{text_key}
use pynq_sdk.Registry.{CommandDescriptor, CommandRegistry, lookup, register, register_all}
use pynq_sdk.Registry.Ordered.{
  IsConsistent, last_for, lookup-register_all, register_all-IsConsistent,
}
use pynq_sdk.World.{Types, Handler, World}
use pynq_sdk.Builtins.Commands.{standard_cmds, system_cmds, overlay_cmds, register_builtins}

abbrev pub builtin_cmds : {F U : Type 0} → Bool → List (CommandDescriptor F (Handler U))
builtin_cmds has_manager =
    standard_cmds ++ (system_cmds ++ (if has_manager then overlay_cmds else []))

module _ {F U C : Type 0} where
  register_all-append :
      (ds es : List (CommandDescriptor F (Handler U))) (r : CommandRegistry F (Handler U) C)
      → register_all (ds ++ es) r ≡ register_all es (register_all ds r)
  unfolding register_all
  register_all-append [] es r = refl
  register_all-append (d ∷ ds) es r = register_all-append ds es (register d r)

module _ {t : Types} where
  registry-register_builtins :
      (w : World t)
      → (register_builtins w).registry ≡ register_all (builtin_cmds w.has_manager) w.registry
  unfolding register_builtins
  registry-register_builtins w = elim (Bool-cases w.has_manager) [
    | inl yes_manager ↦ rw yes_manager
    | inr no_manager ↦ rw no_manager
  ]

  -- A user's command counts only if no built-in one has its mnemonic: the built-in commands come
  -- later, and the last registration wins.
  pub lookup-register_builtins :
      (m : Text) (w : World t)
      → lookup m (register_builtins w).registry
        ≡ last_for m (builtin_cmds w.has_manager) (lookup m w.registry)
  lookup-register_builtins m w =
      ap (lookup m) (registry-register_builtins w)
      ∙ lookup-register_all (builtin_cmds w.has_manager) w.registry m

  -- Registering the built-in commands keeps the registry consistent.
  pub register_builtins-IsConsistent :
      (w : World t) → IsConsistent w.registry → IsConsistent (register_builtins w).registry
  register_builtins-IsConsistent w h =
      rw (registry-register_builtins w) (register_all-IsConsistent (builtin_cmds w.has_manager) h)

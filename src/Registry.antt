-- ===== src/Registry.antt =====
-- pynq_instrument/command_registry.py. The types of a handler, of the trigger callback and of a
-- float bound are parameters: the registry stores them and never looks inside.
pub mod Ordered
use pynq_sdk.Prelude.{
  ℕ, Bool, true, false, Option, none, some, List, [], ◌∷◌, ◌++◌, map, if◌then◌else◌,
}
use pynq_sdk.Python.Text.{Text}
use pynq_sdk.Python.Dict
use pynq_sdk.Python.Dict.{Dict, ◌=?◌, text_key}

pub data CommandType : Type 0 where
  write query : CommandType

pub record ParamDescriptor (Float : Type 0) : Type 0 where
  pub name : Text
  pub type : Text
  pub description : Text
  pub min : Float
  pub max : Float
  pub enum_values : List Text
  pub default_value : Option Text

pub record CommandDescriptor (Float Handler : Type 0) : Type 0 where
  pub scpi_command : Text
  pub type : CommandType
  pub handler : Handler
  pub params : List (ParamDescriptor Float)
  pub requires_ips : List Text
  pub requires_overlay : Option Text
  pub timeout_ms : ℕ
  pub group : Text
  pub description : Text

pub record CommandRegistry (Float Handler Callback : Type 0) : Type 0 where
  pub commands : Dict Text (CommandDescriptor Float Handler)
  pub ordered : List (CommandDescriptor Float Handler)
  pub trigger_callback : Option Callback

module _ {F H : Type 0} where
  -- the list comprehension that puts `desc` in the place of its namesake
  unfoldable pub replace_in :
      CommandDescriptor F H → List (CommandDescriptor F H) → List (CommandDescriptor F H)
  replace_in desc [] = []
  replace_in desc (d ∷ ds) =
      (if d.scpi_command =? desc.scpi_command then desc else d) ∷ replace_in desc ds

abbrev pub is_some {ℓ} : {A : Type ℓ} → Option A → Bool
is_some none = false
is_some (some d) = true

module _ {F H C : Type 0} where
  unfoldable pub new_registry : CommandRegistry F H C
  new_registry = record { commands = []; ordered = []; trigger_callback = none }

  unfoldable pub register : CommandDescriptor F H → CommandRegistry F H C → CommandRegistry F H C
  unfolding replace_in
  register desc r = record r {
    ordered =
        if is_some (Dict.get desc.scpi_command r.commands)
        then replace_in desc r.ordered
        else r.ordered ++ desc ∷ [];
    commands = Dict.put desc.scpi_command desc r.commands;
  }

  unfoldable pub lookup : Text → CommandRegistry F H C → Option (CommandDescriptor F H)
  lookup mnemonic r = Dict.get mnemonic r.commands

  unfoldable pub all_commands : CommandRegistry F H C → List (CommandDescriptor F H)
  all_commands r = r.ordered

  unfoldable pub set_trigger_callback : Option C → CommandRegistry F H C → CommandRegistry F H C
  set_trigger_callback callback r = record r { trigger_callback = callback }

  -- `for desc in descs: registry.register(desc)`
  unfoldable pub register_all :
      List (CommandDescriptor F H) → CommandRegistry F H C → CommandRegistry F H C
  unfolding register
  register_all [] r = r
  register_all (desc ∷ descs) r = register_all descs (register desc r)

-- ===== src/Builtins/Commands.antt =====
-- The commands that the SDK registers, and `Instrument._register_builtins`.
pub mod Precedence
use pynq_sdk.Prelude.{
  ℕ, Bool, true, false, Option, none, some, List, [], ◌∷◌, ◌++◌, String, if◌then◌else◌,
}
use pynq_sdk.Python.Text.{Text, lit, upper}
use pynq_sdk.Registry.{
  CommandType, write, query, ParamDescriptor, CommandDescriptor, CommandRegistry, register,
  register_all, set_trigger_callback,
}
use pynq_sdk.World.{
  Types, Builtin, Handler, builtin, user, World, idn, rst, cls, tst, opc_query, opc, wai, esr_query,
  ese_query, ese_write, sre_query, sre_write, stb_query, syst_err, syst_err_count, commands,
  overlay_load, overlay_status, overlay_version, overlay_unload,
}

module _ {F U : Type 0} where
  -- `CommandDescriptor(name, type, handler, group=…, description=…, timeout_ms=…)`
  unfoldable pub command :
      String → CommandType → Builtin → String → String → ℕ → CommandDescriptor F (Handler U)
  command name type handler group description timeout_ms = record {
    scpi_command = lit name;
    type = type;
    handler = builtin handler;
    params = [];
    requires_ips = [];
    requires_overlay = none;
    timeout_ms = timeout_ms;
    group = lit group;
    description = lit description;
  }

  unfoldable pub standard_cmds : List (CommandDescriptor F (Handler U))
  unfolding command
  standard_cmds =
      command "*IDN?" query idn "IEEE488" "Identify instrument" 500
      ∷ command "*RST" write rst "IEEE488" "Reset to defaults" 1000
      ∷ command "*CLS" write cls "IEEE488" "Clear status registers" 500
      ∷ command "*TST?" query tst "IEEE488" "Self-test query" 2000
      ∷ command "*OPC?" query opc_query "IEEE488" "Operation complete query" 500
      ∷ command "*OPC" write opc "IEEE488" "Set operation complete bit" 500
      ∷ command "*WAI" write wai "IEEE488" "Wait to continue" 500
      ∷ command "*ESR?" query esr_query "IEEE488" "Read event status register" 500
      ∷ command "*ESE?" query ese_query "IEEE488" "Read event status enable" 500
      ∷ command "*ESE" write ese_write "IEEE488" "Set event status enable mask" 500
      ∷ command "*SRE?" query sre_query "IEEE488" "Read service request enable" 500
      ∷ command "*SRE" write sre_write "IEEE488" "Set service request enable" 500
      ∷ command "*STB?" query stb_query "IEEE488" "Read status byte" 500
      ∷ []

  unfoldable pub system_cmds : List (CommandDescriptor F (Handler U))
  unfolding command
  system_cmds =
      command "SYST:ERR?" query syst_err "System" "Pop oldest error from queue" 500
      ∷ command "SYST:ERR:COUN?" query syst_err_count "System" "Return error queue depth" 500
      ∷ command "SYSTEM:COMMANDS?" query commands "System"
          "Return all registered commands and device identity as JSON" 2000
      ∷ []

  unfoldable pub overlay_cmds : List (CommandDescriptor F (Handler U))
  unfolding command
  overlay_cmds =
      command "OVERLAY:LOAD" write overlay_load "Overlay"
        "Load bitfile: OVERLAY:LOAD \"filename.bit\"" 30000
      ∷ command "OVERLAY:STATUS?" query overlay_status "Overlay" "Return LOADED:<name> or NONE" 500
      ∷ command "OVERLAY:VERSION?" query overlay_version "Overlay"
          "Return overlay version string from HWH metadata" 500
      ∷ command "OVERLAY:UNLOAD" write overlay_unload "Overlay" "Gracefully unload current overlay"
          5000
      ∷ []

module _ {F U C : Type 0} where
  unfoldable pub register_standard_commands :
      CommandRegistry F (Handler U) C → CommandRegistry F (Handler U) C
  unfolding register_all standard_cmds
  register_standard_commands r = register_all standard_cmds r

  unfoldable pub register_system_commands :
      CommandRegistry F (Handler U) C → CommandRegistry F (Handler U) C
  unfolding register_all system_cmds
  register_system_commands r = register_all system_cmds r

  unfoldable pub register_overlay_commands :
      CommandRegistry F (Handler U) C → CommandRegistry F (Handler U) C
  unfolding register_all overlay_cmds
  register_overlay_commands r = register_all overlay_cmds r

module _ {t : Types} where
  -- `Instrument._register_builtins`
  unfoldable pub register_builtins : World t → World t
  unfolding register_standard_commands register_system_commands register_overlay_commands
  register_builtins w =
      let r = register_system_commands (register_standard_commands w.registry) in
      record w { registry = if w.has_manager then register_overlay_commands r else r }

  -- `Instrument.command(…)`, applied to a handler
  unfoldable pub command_decorator :
      Text
      → CommandType
      → List Text
      → Option Text
      → List (ParamDescriptor t.Float)
      → ℕ
      → Text
      → Text
      → t.UserHandler
      → World t
      → World t
  unfolding register upper
  command_decorator scpi_command type requires requires_overlay params timeout_ms group description
        fn w =
      record w {
        registry =
            register
              (record {
                scpi_command = upper scpi_command;
                type = type;
                handler = user fn;
                params = params;
                requires_ips = requires;
                requires_overlay = requires_overlay;
                timeout_ms = timeout_ms;
                group = group;
                description = description;
              })
              w.registry;
      }

  -- `Instrument.trigger(fn)`
  unfoldable pub trigger : t.Callback → World t → World t
  unfolding set_trigger_callback
  trigger fn w = record w { registry = set_trigger_callback (some fn) w.registry }

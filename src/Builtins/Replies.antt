-- ===== src/Builtins/Replies.antt =====
-- What an instrument with its built-in commands answers to the two queries that identify it.
use pynq_sdk.Prelude.{◌≡◌, inl, refl, ◌∙◌, Bool, true, false, Option, some, []}
use pynq_sdk.Python.Text.{lit, text_eq}
use pynq_sdk.Errors.{clear_errors}
use pynq_sdk.Scpi.{normalize_scpi}
use pynq_sdk.Params.{extract_args}
use pynq_sdk.Registry.{CommandDescriptor, query, write}
use pynq_sdk.Registry.Ordered.{last_for}
use pynq_sdk.World.{Types, Handler, World, Externals, idn, commands, cls}
use pynq_sdk.System.{commands_json}
use pynq_sdk.Builtins.{idn_string, identity_dict, call_builtin}
use pynq_sdk.Builtins.Commands.{
  register_builtins, command, standard_cmds, system_cmds, overlay_cmds,
}
use pynq_sdk.Builtins.Commands.Precedence.{builtin_cmds, lookup-register_builtins}
use pynq_sdk.Dispatch.{dispatch_command, signature, finish, call_handler}
use pynq_sdk.Dispatch.Outcomes.{Selects, none_left, dispatch_ready}

module _ {t : Types} (x : Externals t) where
  idn_cmd : CommandDescriptor t.Float (Handler t.UserHandler)
  unfolding command
  idn_cmd = command "*IDN?" query idn "IEEE488" "Identify instrument" 500

  commands_cmd : CommandDescriptor t.Float (Handler t.UserHandler)
  unfolding command
  commands_cmd =
      command "SYSTEM:COMMANDS?" query commands "System"
        "Return all registered commands and device identity as JSON" 2000

  cls_cmd : CommandDescriptor t.Float (Handler t.UserHandler)
  unfolding command
  cls_cmd = command "*CLS" write cls "IEEE488" "Clear status registers" 500

  last_for-cls :
      (manages : Bool) (o : Option (CommandDescriptor t.Float (Handler t.UserHandler)))
      → last_for (lit "*CLS") (builtin_cmds manages) o ≡ some cls_cmd
  unfolding last_for standard_cmds system_cmds overlay_cmds command cls_cmd text_eq
  last_for-cls true o = refl
  last_for-cls false o = refl

  last_for-idn :
      (manages : Bool) (o : Option (CommandDescriptor t.Float (Handler t.UserHandler)))
      → last_for (lit "*IDN?") (builtin_cmds manages) o ≡ some idn_cmd
  unfolding last_for standard_cmds system_cmds overlay_cmds command idn_cmd text_eq
  last_for-idn true o = refl
  last_for-idn false o = refl

  last_for-commands :
      (manages : Bool) (o : Option (CommandDescriptor t.Float (Handler t.UserHandler)))
      → last_for (lit "SYSTEM:COMMANDS?") (builtin_cmds manages) o ≡ some commands_cmd
  unfolding last_for standard_cmds system_cmds overlay_cmds command commands_cmd text_eq
  last_for-commands true o = refl
  last_for-commands false o = refl

  -- `*IDN?` is answered with the identity, and changes nothing.
  pub dispatch-idn :
      (w : World t)
      → dispatch_command x (lit "*IDN?") (register_builtins w)
        ≡ (idn_string x (register_builtins w), register_builtins w)
  unfolding normalize_scpi extract_args signature idn_cmd finish call_handler call_builtin
  dispatch-idn w =
      dispatch_ready x (lit "*IDN?") (register_builtins w) selects none_left (inl refl) refl
    where
      selects : Selects x (lit "*IDN?") (register_builtins w) idn_cmd []
      selects = record {
        first = b'*';
        rest = lit "IDN?";
        parsed = refl;
        registered = lookup-register_builtins (lit "*IDN?") w ∙ last_for-idn w.has_manager _;
      }

  -- `SYSTEM:COMMANDS?` is answered with the listing, and changes nothing.
  pub dispatch-commands :
      (w : World t)
      → dispatch_command x (lit "SYSTEM:COMMANDS?") (register_builtins w) ≡ (
        commands_json x.float_lt x.float_text
            (identity_dict x (register_builtins w))
            (register_builtins w).registry,
        register_builtins w,
      )
  unfolding normalize_scpi extract_args signature commands_cmd finish call_handler call_builtin
  dispatch-commands w =
      dispatch_ready x (lit "SYSTEM:COMMANDS?") (register_builtins w) selects none_left (inl refl)
        refl
    where
      selects : Selects x (lit "SYSTEM:COMMANDS?") (register_builtins w) commands_cmd []
      selects = record {
        first = b'S';
        rest = lit "YSTEM:COMMANDS?";
        parsed = refl;
        registered =
            lookup-register_builtins (lit "SYSTEM:COMMANDS?") w ∙ last_for-commands w.has_manager _;
      }

  -- `*CLS` is answered with OK, and clears the event register and the error queue.
  pub dispatch-cls :
      (w : World t)
      → dispatch_command x (lit "*CLS") (register_builtins w) ≡ (
        lit "OK",
        record (register_builtins w) {
          registers = record (register_builtins w).registers { esr = 0 };
          errors = [];
        },
      )
  unfolding normalize_scpi extract_args signature cls_cmd finish call_handler call_builtin
      clear_errors
  dispatch-cls w =
      dispatch_ready x (lit "*CLS") (register_builtins w) selects none_left (inl refl) refl
    where
      selects : Selects x (lit "*CLS") (register_builtins w) cls_cmd []
      selects = record {
        first = b'*';
        rest = lit "CLS";
        parsed = refl;
        registered = lookup-register_builtins (lit "*CLS") w ∙ last_for-cls w.has_manager _;
      }

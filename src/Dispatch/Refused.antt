-- ===== src/Dispatch/Refused.antt =====
-- Command lines that run no handler, and which command a line runs.
use pynq_sdk.Prelude.{
  ℕ, ◌≡◌, ◌≢◌, ◌⊎◌, refl, ◌∙◌, ap, true, false, none, some, List, [], ◌∷◌, ◌++◌, if◌then◌else◌, inl,
  inr,
}
use pynq_sdk.Python.Text.{Text, lit}
use pynq_sdk.Python.Int.{negsuc, str_int}
use pynq_sdk.Response.{respond_error}
use pynq_sdk.Python.Exception.{ok, raised}
use pynq_sdk.Errors.{push_error}
use pynq_sdk.Scpi.{normalize_scpi}
use pynq_sdk.Registry.{CommandDescriptor, lookup}
use pynq_sdk.Overlay.{Ip}
use pynq_sdk.Backend.{is_overlay_loaded}
use pynq_sdk.World.{Types, Handler, World, Externals}
use pynq_sdk.Builtins.{is_nil, repr_list}
use pynq_sdk.Dispatch.{refuse, find_ip, missing, run_command, run_found, run_line, dispatch_command}
use pynq_sdk.Prelude.{Bool, Option}
use pynq_sdk.Python.Exception.{Exception}
use pynq_sdk.Registry.{new_registry, register_all}
use pynq_sdk.Registry.Ordered.{last_for, lookup-register_all}
use pynq_sdk.Python.Dict
use pynq_sdk.Dispatch.Outcomes.{Selects, dispatch-Selects}

is_nil_of_ne : (xs : List Text) → xs ≢ [] → is_nil xs ≡ false
is_nil_of_ne [] ne = absurd (ne refl)
is_nil_of_ne (y ∷ ys) ne = refl

-- The message of a refusal.
abbrev pub not_ready : Bool → List Text → Text
not_ready loaded absent =
    if loaded
    then lit "Hardware not ready: missing IPs " ++ repr_list absent
    else lit "Hardware not ready"

module _ {t : Types} (x : Externals t) where
  abbrev Descriptor : Type 0
  Descriptor = CommandDescriptor t.Float (Handler t.UserHandler)

  -- Of these names, those whose IP is not found, in their order.
  pub data Lacks (w : World t) : List Text → List Text → Type 0 where
    none_lacks : Lacks w [] []
    absent :
        {name : Text} {names lacking : List Text} {e : Exception}
        → find_ip x w name ≡ raised e
        → Lacks w names lacking
        → Lacks w (name ∷ names) (name ∷ lacking)
    present :
        {name : Text} {names lacking : List Text} {ip : Ip t.Object}
        → find_ip x w name ≡ ok ip
        → Lacks w names lacking
        → Lacks w (name ∷ names) lacking

  missing-Lacks :
      {w : World t} {names lacking : List Text}
      → Lacks w names lacking
      → missing x w names ≡ lacking
  unfolding missing
  missing-Lacks none_lacks = refl
  missing-Lacks (absent e l) = rw (e, missing-Lacks l)
  missing-Lacks (present e l) = rw (e, missing-Lacks l)

  run_command-not_ready :
      (d : Descriptor) (args lacking : List Text) (loaded : Bool) (w : World t)
      → d.requires_ips ≢ []
      → is_overlay_loaded x.pynq w.backend w.manager ≡ loaded
      → missing x w d.requires_ips ≡ lacking
      → (loaded ≡ false) ⊎ (lacking ≢ [])
      → run_command x d args w
        ≡ refuse x (negsuc 199) (not_ready loaded lacking) (not_ready loaded lacking) w
  unfolding run_command
  run_command-not_ready d args lacking false w needs l m r =
      rw (is_nil_of_ne d.requires_ips needs, l) refl
  run_command-not_ready d args lacking true w needs l m (inl e) = absurd (cc e)
  run_command-not_ready d args lacking true w needs l m (inr some_absent) =
      rw (is_nil_of_ne d.requires_ips needs, l, m, is_nil_of_ne lacking some_absent) refl

  -- A line whose mnemonic is registered, while its command requires IPs and no overlay is loaded, or
  -- one of the IPs is not found: the handler does not run. The answer is error -200, with a message
  -- that lists the IPs not found, in the order of the requirement, if an overlay is loaded; the same
  -- message is pushed on the error queue, and nothing else changes.
  pub dispatch_not_ready :
      (cmd_str : Text) (w : World t) {d : Descriptor} {args lacking : List Text} (loaded : Bool)
      → Selects x cmd_str w d args
      → d.requires_ips ≢ []
      → is_overlay_loaded x.pynq w.backend w.manager ≡ loaded
      → Lacks w d.requires_ips lacking
      → (loaded ≡ false) ⊎ (lacking ≢ [])
      → dispatch_command x cmd_str w ≡ (
        respond_error (negsuc 199) (not_ready loaded lacking),
        record w { errors = push_error (negsuc 199) (not_ready loaded lacking) w.errors },
      )
  dispatch_not_ready cmd_str w {d} {args} {lacking} loaded s needs l lacks r =
      dispatch-Selects x cmd_str w s
      ∙ run_command-not_ready d args lacking loaded w needs l (missing-Lacks lacks) r

  -- What a line does, for the command of its mnemonic, if there is one.
  abbrev pub run_or_undefined : Option Descriptor → List Text → World t → Text × World t
  run_or_undefined none args w = (
    lit "ERR:-100:Undefined command",
    record w { errors = push_error (negsuc 99) (lit "Undefined header") w.errors },
  )
  run_or_undefined (some d) args w = run_command x d args w

  -- After any registrations on an empty registry, a line runs the command that was registered last
  -- under its mnemonic. If there is none, nothing runs: the answer is error -100, and the error is
  -- pushed on the error queue.
  pub dispatch-register_all :
      (cmd_str : Text) (w : World t) (descs : List Descriptor) (c : ℕ) (m : Text) (args : List Text)
      → normalize_scpi cmd_str ≡ (c ∷ m, args)
      → w.registry ≡ register_all descs new_registry
      → dispatch_command x cmd_str w ≡ run_or_undefined (last_for (c ∷ m) descs none) args w
  unfolding dispatch_command
  dispatch-register_all cmd_str w descs c m args parsed registered =
      ap (λ l. run_line x l w) parsed
      ∙ ap (λ o. run_found x o args w) looked_up
      ∙ by_command (last_for (c ∷ m) descs none)
    where
      unregistered :
          lookup {H = Handler t.UserHandler} (c ∷ m) (new_registry {F = t.Float} {C = t.Callback})
          ≡ none
      unregistered = unfold lookup new_registry Dict.get in refl

      looked_up : lookup (c ∷ m) w.registry ≡ last_for (c ∷ m) descs none
      looked_up =
          ap (lookup (c ∷ m)) registered
          ∙ lookup-register_all descs new_registry (c ∷ m)
          ∙ ap (last_for (c ∷ m) descs) unregistered

      by_command : (o : Option Descriptor) → run_found x o args w ≡ run_or_undefined o args w
      by_command none = unfold respond_error str_int in refl
      by_command (some d) = refl

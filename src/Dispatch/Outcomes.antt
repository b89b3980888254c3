-- ===== src/Dispatch/Outcomes.antt =====
-- What a command line is answered with, on each path.
use pynq_sdk.Prelude.{
  ℕ, suc, ◌≡◌, ◌⊎◌, refl, ◌∙◌, ap, true, none, some, List, [], ◌∷◌, ◌++◌, arith, length,
  if◌then◌else◌, inl, inr, Bool-cases,
}
use pynq_sdk.Python.Text.{Text}
use pynq_sdk.Python.Exception.{Result, ok, raised}
use pynq_sdk.Scpi.{normalize_scpi}
use pynq_sdk.Params.{Arg, extract_args}
use pynq_sdk.Registry.{CommandDescriptor, lookup}
use pynq_sdk.Overlay.{Ip}
use pynq_sdk.Backend.{is_overlay_loaded}
use pynq_sdk.World.{Types, Handler, World, Value, Externals}
use pynq_sdk.Builtins.{is_nil}
use pynq_sdk.Dispatch.{
  signature, call_handler, find_ip, missing, inject, is_coroutine, limit_of, finish, all_args,
  run_handler, run_command, run_found, run_line, dispatch_command,
}

module _ {t : Types} (x : Externals t) where
  -- The IPs of a list, in its order.
  pub data Finds (w : World t) : List Text → List (Value t) → Type 0 where
    none_left : Finds w [] []
    found :
        {name : Text} {names : List Text} {ip : Ip t.Object} {ips : List (Value t)}
        → find_ip x w name ≡ ok ip
        → Finds w names ips
        → Finds w (name ∷ names) (Arg.object ip ∷ ips)

  Finds-inject :
      {w : World t} {names : List Text} {ips : List (Value t)}
      → Finds w names ips
      → inject x w names ≡ ok ips
  unfolding inject
  Finds-inject none_left = refl
  Finds-inject (found e f) = rw (e, Finds-inject f)

  length-Finds :
      {w : World t} {names : List Text} {ips : List (Value t)}
      → Finds w names ips
      → length ips ≡ length names
  length-Finds none_left = refl
  length-Finds (found e f) = ap suc (length-Finds f)

  Finds-missing :
      {w : World t} {names : List Text} {ips : List (Value t)}
      → Finds w names ips
      → missing x w names ≡ []
  unfolding missing
  Finds-missing none_left = refl
  Finds-missing (found e f) = rw (e, Finds-missing f)

  -- If no IP is reported missing, every one of them can be injected.
  pub missing-Finds :
      (w : World t) (names : List Text)
      → missing x w names ≡ []
      → (ips : List (Value t)) × Finds w names ips
  unfolding missing
  missing-Finds w [] h = ([], none_left)
  missing-Finds w (name ∷ names) h = by_result (missing-Finds w names) (find_ip x w name) refl
    where
      by_result :
          (missing x w names ≡ [] → (ips : List (Value t)) × Finds w names ips)
          → (r : Result (Ip t.Object)) → find_ip x w name ≡ r
          → (ips : List (Value t)) × Finds w (name ∷ names) ips
      by_result rest (raised e) eq = absurd (ground (arith, eq))
      by_result rest (ok ip) eq =
          let (ips, f) = rest (ground (arith, eq)) in (Arg.object ip ∷ ips, found eq f)

  -- A line is parsed to this mnemonic and these tokens, and the registry has this command for it.
  pub record Selects (cmd_str : Text) (w : World t)
      (d : CommandDescriptor t.Float (Handler t.UserHandler)) (args : List Text) : Type 0 where
    pub first : ℕ
    pub rest : Text
    pub parsed : normalize_scpi cmd_str ≡ (first ∷ rest, args)
    pub registered : lookup (first ∷ rest) w.registry ≡ some d

  pub dispatch-Selects :
      (cmd_str : Text) (w : World t) {d : CommandDescriptor t.Float (Handler t.UserHandler)}
      {args : List Text}
      → Selects cmd_str w d args
      → dispatch_command x cmd_str w ≡ run_command x d args w
  dispatch-Selects cmd_str w {d} {args} s =
      unfolded ∙ ap (λ l. run_line x l w) s.parsed ∙ ap (λ o. run_found x o args w) s.registered
    where
      unfolded : dispatch_command x cmd_str w ≡ run_line x (normalize_scpi cmd_str) w
      unfolded = unfold dispatch_command in refl

  run_command_ready :
      (d : CommandDescriptor t.Float (Handler t.UserHandler)) (args : List Text) (w : World t)
      → missing x w d.requires_ips ≡ []
      → (is_nil d.requires_ips ≡ true) ⊎ (is_overlay_loaded x.pynq w.backend w.manager ≡ true)
      → run_command x d args w ≡ run_handler x d (all_args x d args w) w
  unfolding run_command
  run_command_ready d args w none_missing (inl nothing) = rw nothing
  run_command_ready d args w none_missing (inr present) =
      elim (Bool-cases (is_nil d.requires_ips)) [
        | inl nothing ↦ rw nothing
        | inr some_needed ↦ rw (some_needed, present, none_missing)
      ]

  -- A line whose mnemonic is registered, with every required IP found, an overlay loaded if any is
  -- required, and the tokens converted: the handler is called with the IPs in the order of the
  -- requirement, then the converted arguments; only a coroutine has a time limit.
  pub dispatch_ready :
      (cmd_str : Text) (w : World t) {d : CommandDescriptor t.Float (Handler t.UserHandler)}
      {args : List Text} {ips values : List (Value t)}
      → Selects cmd_str w d args
      → Finds w d.requires_ips ips
      → (is_nil d.requires_ips ≡ true) ⊎ (is_overlay_loaded x.pynq w.backend w.manager ≡ true)
      → extract_args x.parse_float (signature x d.handler) args (length d.requires_ips) ≡ ok values
      → dispatch_command x cmd_str w
        ≡ finish x (
            call_handler x d.handler
              (ips ++ values)
              (if is_coroutine x d.handler then limit_of d.timeout_ms else none)
              w)
  dispatch_ready cmd_str w {d} {args} {ips} {values} s f ready parsed =
      dispatch-Selects cmd_str w s
      ∙ run_command_ready d args w (Finds-missing f) ready
      ∙ ap (λ r. run_handler x d r w) given
      ∙ unfold run_handler in refl
    where
      given : all_args x d args w ≡ ok (ips ++ values)
      given = rw (Finds-inject f, length-Finds f, parsed)
